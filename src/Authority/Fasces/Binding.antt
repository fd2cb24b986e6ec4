-- ===== src/Authority/Fasces/Binding.antt =====
-- The signature of a token: what it binds, and what the joined text leaves open.
use mathlib.Core.List.{append_assoc}
use the_soverign_imperia_cit.Base.{ℕ, String, ◌≡◌, ◌≢◌, sym, refl, ◌∙◌, ◌++◌, [], ◌∷◌, true, All}
use the_soverign_imperia_cit.Base.Text.{Text, codes, same_iff}
use the_soverign_imperia_cit.Authority.Fasces.{
  Signing, FascesToken, bar, canonical, sign_token, verify_token,
}

-- No `|` in a text.
abbrev pub IsPlain : Text → Type 0
IsPlain s = All (λ c. c ≢ bar) s

-- What `hmac` and `str` promise: the digest of one key has no collision on the bodies in use, and
-- the printed numbers differ and hold no `|`.
pub record IsBinding (sg : Signing) (key : Text) : Type 0 where
  pub collision_free : (a b : Text) → sg.hexdigest key a ≡ sg.hexdigest key b → a ≡ b
  pub int_inj : (m n : ℕ) → sg.show_int m ≡ sg.show_int n → m ≡ n
  pub int_plain : (m : ℕ) → IsPlain (sg.show_int m)
  pub time_inj : (m n : ℕ) → sg.show_time m ≡ sg.show_time n → m ≡ n

-- The names of a token hold no `|`.
pub record HasPlainNames (t : FascesToken) : Type 0 where
  pub imperium_id : IsPlain (codes t.imperium_id)
  pub rank : IsPlain (codes t.rank)
  pub lease_id : IsPlain (codes t.lease_id)
  pub zone_policy : IsPlain (codes t.zone_policy)

-- A text is split at its first bar in one way only.
split_once :
    (a b x y : Text) → IsPlain a → IsPlain b → a ++ (bar ∷ x) ≡ b ++ (bar ∷ y) → (a ≡ b) × (x ≡ y)
split_once [] [] x y ha hb e = (refl, cc)
split_once [] (d ∷ b) x y ha hb e = absurd (hb.0 (cc))
split_once (c ∷ a) [] x y ha hb e = absurd (ha.0 (cc))
split_once (c ∷ a) (d ∷ b) x y ha hb e = let (p, q) = split_once a b x y ha.1 hb.1 (cc) in (cc, q)

-- A token that was just signed verifies under its key.
pub verify_token-sign_token :
    (sg : Signing) (imperium_id rank : String) (mask : ℕ) (lease_id zone_policy : String)
    (expiry : ℕ) (key : Text)
    → verify_token sg (sign_token sg imperium_id rank mask lease_id zone_policy expiry key) key
      ≡ true
unfolding verify_token sign_token
verify_token-sign_token sg i r m l z e key = (same_iff _ _).1 refl

verify_token_iff :
    (sg : Signing) (t : FascesToken) (key : Text)
    → verify_token sg t key ≡ true
    → sg.hexdigest key (canonical sg t.imperium_id t.rank t.mask t.lease_id t.zone_policy t.expiry)
      ≡ t.signature
unfolding verify_token
verify_token_iff sg t key h = (same_iff _ _).0 h

abbrev pub SameFields : FascesToken → FascesToken → Type 0
SameFields t u =
    (codes t.imperium_id ≡ codes u.imperium_id)
    × (codes t.rank ≡ codes u.rank)
    × (t.mask ≡ u.mask)
    × (codes t.lease_id ≡ codes u.lease_id)
    × (codes t.zone_policy ≡ codes u.zone_policy)
    × (t.expiry ≡ u.expiry)

-- Under the promises of HMAC and printing, two tokens with one signature that both verify under
-- the key, and whose names hold no `|`, agree in every field.
pub verify_token_binds :
    (sg : Signing) (key : Text) (t u : FascesToken)
    → IsBinding sg key
    → HasPlainNames t
    → HasPlainNames u
    → t.signature ≡ u.signature
    → verify_token sg t key ≡ true
    → verify_token sg u key ≡ true
    → SameFields t u
unfolding canonical
verify_token_binds sg key t u b pt pu s ht hu =
    let bodies =
      b.collision_free _ _
        (verify_token_iff sg t key ht ∙ s ∙ sym (verify_token_iff sg u key hu)) in
    let (e1, r1) =
      split_once (codes t.imperium_id) (codes u.imperium_id) _ _ pt.imperium_id pu.imperium_id
        bodies in
    let (e2, r2) = split_once (codes t.rank) (codes u.rank) _ _ pt.rank pu.rank r1 in
    let (e3, r3) =
      split_once (sg.show_int t.mask) (sg.show_int u.mask) _ _ (b.int_plain _) (b.int_plain _) r2 in
    let (e4, r4) =
      split_once (codes t.lease_id) (codes u.lease_id) _ _ pt.lease_id pu.lease_id r3 in
    let (e5, r5) =
      split_once (codes t.zone_policy) (codes u.zone_policy) _ _ pt.zone_policy pu.zone_policy r4 in
    (e1, e2, b.int_inj _ _ e3, e4, e5, b.time_inj _ _ r5)

-- The body by its first two fields and the rest.
abbrev rest_of : Signing → FascesToken → Text
rest_of sg t =
    sg.show_int t.mask
    ++ (bar ∷ (codes t.lease_id ++ (bar ∷ (codes t.zone_policy ++ (bar ∷ sg.show_time t.expiry)))))

canonical_regroup :
    (sg : Signing) (t : FascesToken)
    → canonical sg t.imperium_id t.rank t.mask t.lease_id t.zone_policy t.expiry
      ≡ (codes t.imperium_id ++ (bar ∷ codes t.rank)) ++ (bar ∷ rest_of sg t)
unfolding canonical
canonical_regroup sg t =
    sym (append_assoc (codes t.imperium_id) (bar ∷ codes t.rank) (bar ∷ rest_of sg t))

-- A bar inside a name moves the border of two fields: a token whose holder and rank join to the
-- same text as another's, and that takes the other's signature and remaining fields, verifies just
-- when the other does.
pub verify_token_moved_bar :
    (sg : Signing) (key : Text) (t u : FascesToken)
    → codes t.imperium_id ++ (bar ∷ codes t.rank) ≡ codes u.imperium_id ++ (bar ∷ codes u.rank)
    → t.mask ≡ u.mask
    → t.lease_id ≡ u.lease_id
    → t.zone_policy ≡ u.zone_policy
    → t.expiry ≡ u.expiry
    → t.signature ≡ u.signature
    → verify_token sg t key ≡ verify_token sg u key
unfolding verify_token
verify_token_moved_bar sg key t u e em el ez ee es =
    cc (canonical_regroup sg t, canonical_regroup sg u)
