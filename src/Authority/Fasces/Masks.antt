-- ===== src/Authority/Fasces/Masks.antt =====
-- The mask laws: what the axe, the pomerium and attenuation do to a capability check.
use Prim.Native.Nat.{bit_and}
use the_soverign_imperia_cit.Base.{
  ℕ, ◌≡◌, ◌≢◌, ◌↔◌, ap, sym, ◌∙◌, refl, Bool, true, false, Option, none, some, arith, ==_iff,
  Bool-cases, inl, inr, ◌==◌, ◌<◌, ◌⊎◌,
}
use the_soverign_imperia_cit.Base.Bits.{
  and_not, bit_and_assoc, bit_and_comm, bit_and_self, bit_and-zero, bit_and-and_not,
  and_not_of_disjoint, bit_and-and_not_assoc,
}
use the_soverign_imperia_cit.Base.Text.{Text, same_iff}
use the_soverign_imperia_cit.Authority.Fasces.{
  Signing, FascesToken, canonical, axe_class, effective_mask, grants, permitted, attenuate,
  bad_signature, verify_token,
}

pub grants_iff :
    (required effective : ℕ)
    → (grants required effective ≡ true) ↔ (bit_and required effective ≡ required)
unfolding grants
grants_iff required effective = ==_iff (bit_and required effective) required

-- What a part of a mask grants, the mask grants.
pub grants_mono :
    (required part whole : ℕ)
    → bit_and part whole ≡ part
    → grants required part ≡ true
    → grants required whole ≡ true
grants_mono required part whole sub h =
    let e = (grants_iff required part).0 h in
    (grants_iff required whole).1 (
      ap (λ t. bit_and t whole) (sym e)
      ∙ bit_and_assoc required part whole
      ∙ ap (bit_and required) sub
      ∙ e)

pub attenuate-parent : (p r : ℕ) → bit_and (attenuate p r) p ≡ attenuate p r
unfolding attenuate
attenuate-parent p r =
    ap (λ t. bit_and t p) (bit_and_comm p r)
    ∙ bit_and_assoc r p p
    ∙ ap (bit_and r) (bit_and_self p)
    ∙ bit_and_comm r p

pub attenuate-requested : (p r : ℕ) → bit_and (attenuate p r) r ≡ attenuate p r
unfolding attenuate
attenuate-requested p r = bit_and_assoc p r r ∙ ap (bit_and p) (bit_and_self r)

-- Attenuation grants exactly what both the parent and the request grant.
pub grants-attenuate :
    (required p r : ℕ)
    → (grants required (attenuate p r) ≡ true)
      ↔ ((grants required p ≡ true) × (grants required r ≡ true))
grants-attenuate required p r = (
  λ h. (
    grants_mono required (attenuate p r) p (attenuate-parent p r) h,
    grants_mono required (attenuate p r) r (attenuate-requested p r) h,
  ),
  λ h. both (h.0) (h.1),
)
  where
    both :
        grants required p ≡ true → grants required r ≡ true → grants required (attenuate p r) ≡ true
    both hp hr = (grants_iff required (attenuate p r)).1 (
        unfold attenuate in
        (sym (bit_and_assoc required p r)
          ∙ ap (λ t. bit_and t r) ((grants_iff required p).0 hp)
          ∙ (grants_iff required r).0 hr))

-- Inside the pomerium no mask grants anything of the axe.
pub grants-domi :
    (required mask : ℕ)
    → bit_and required axe_class ≢ 0
    → grants required (effective_mask mask true) ≡ false
unfolding effective_mask
grants-domi required mask h = elim (Bool-cases (grants required (and_not mask axe_class))) [
  | inr e ↦ e
  | inl e ↦ absurd (
      h (
        ap (λ t. bit_and t axe_class) (sym ((grants_iff required (and_not mask axe_class)).0 e))
        ∙ bit_and_assoc required (and_not mask axe_class) axe_class
        ∙ ap (bit_and required) (bit_and-and_not mask axe_class)
        ∙ bit_and-zero required))
]

-- What a requirement without the axe sees of a mask does not change inside the pomerium.
rods_untouched :
    (required mask : ℕ)
    → bit_and required axe_class ≡ 0
    → bit_and required (and_not mask axe_class) ≡ bit_and required mask
rods_untouched required mask h =
    bit_and-and_not_assoc required mask axe_class
    ∙ and_not_of_disjoint (bit_and required mask) axe_class (
        ap (λ t. bit_and t axe_class) (bit_and_comm required mask)
        ∙ bit_and_assoc mask required axe_class
        ∙ ap (bit_and mask) h
        ∙ bit_and-zero mask)

pub grants-rods :
    (required mask : ℕ) (in_domi : Bool)
    → bit_and required axe_class ≡ 0
    → grants required (effective_mask mask in_domi) ≡ grants required mask
unfolding effective_mask grants
grants-rods required mask true h = ap (λ t. t == required) (rods_untouched required mask h)
grants-rods required mask false h = refl

-- Every capability check, valid signature or not, refuses what needs a bit of the axe inside the
-- pomerium.
pub permitted-domi :
    (sg : Signing) (required : ℕ) (t : FascesToken) (key : Option Text) (now : ℕ)
    → bit_and required axe_class ≢ 0
    → permitted sg required t true key now ≡ false
unfolding permitted
permitted-domi sg required t key now h = ground (arith, grants-domi required t.mask h)

-- When a key is given, the signature is the HMAC of the token's fields under the key.
abbrev pub IsSigned : Signing → FascesToken → Option Text → Type 0
IsSigned sg t none = Unit
IsSigned sg t (some key) =
    sg.hexdigest key (canonical sg t.imperium_id t.rank t.mask t.lease_id t.zone_policy t.expiry)
    ≡ t.signature

-- Inside the pomerium nothing of the axe is required.
abbrev pub IsAxeless : ℕ → Bool → Type 0
IsAxeless required true = bit_and required axe_class ≡ 0
IsAxeless required false = Unit

bad_signature_iff :
    (sg : Signing) (t : FascesToken) (key : Option Text)
    → (bad_signature sg t key ≡ false) ↔ IsSigned sg t key
unfolding bad_signature verify_token
bad_signature_iff sg t none = ground arith
bad_signature_iff sg t (some key) =
    let (to, from) =
      same_iff
        (sg.hexdigest key
          (canonical sg t.imperium_id t.rank t.mask t.lease_id t.zone_policy t.expiry))
        t.signature in
    (λ h. to (ground (arith, h)), λ h. ground (arith, from h))

axeless :
    (required mask : ℕ)
    → bit_and required (and_not mask axe_class) ≡ required
    → bit_and required axe_class ≡ 0
axeless required mask e =
    ap (λ t. bit_and t axe_class) (sym e)
    ∙ bit_and_assoc required (and_not mask axe_class) axe_class
    ∙ ap (bit_and required) (bit_and-and_not mask axe_class)
    ∙ bit_and-zero required

effective_mask_iff :
    (required mask : ℕ) (in_domi : Bool)
    → (grants required (effective_mask mask in_domi) ≡ true)
      ↔ ((bit_and required mask ≡ required) × IsAxeless required in_domi)
unfolding effective_mask
effective_mask_iff required mask false =
    (λ h. ((grants_iff required mask).0 h, tt), λ (e, a). (grants_iff required mask).1 e)
effective_mask_iff required mask true = (
  λ h.
      let e = (grants_iff required (and_not mask axe_class)).0 h in
      let a = axeless required mask e in (sym (rods_untouched required mask a) ∙ e, a),
  λ (e, a). (grants_iff required (and_not mask axe_class)).1 (rods_untouched required mask a ∙ e),
)

permitted_tests :
    (sg : Signing) (required : ℕ) (t : FascesToken) (in_domi : Bool) (key : Option Text) (now : ℕ)
    → (permitted sg required t in_domi key now ≡ true) ↔ (
        ((t.expiry ≡ 0) ⊎ (now < t.expiry))
        × (bad_signature sg t key ≡ false)
        × (grants required (effective_mask t.mask in_domi) ≡ true))
unfolding permitted
permitted_tests sg required t in_domi key now =
    (λ h. (ground (arith, h), ground (arith, h), ground (arith, h)), λ h. ground (arith, h))

-- A check passes exactly when the token has not expired, where one with expiry 0 never does, its signature is
-- the HMAC of its fields if a key is given, and none is checked otherwise, its mask has every required bit,
-- and inside the pomerium no bit of the axe is required.
pub permitted_iff :
    (sg : Signing) (required : ℕ) (t : FascesToken) (in_domi : Bool) (key : Option Text) (now : ℕ)
    → (permitted sg required t in_domi key now ≡ true) ↔ (
        ((t.expiry ≡ 0) ⊎ (now < t.expiry))
        × IsSigned sg t key
        × (bit_and required t.mask ≡ required)
        × IsAxeless required in_domi)
permitted_iff sg required t in_domi key now =
    let (to, from) = permitted_tests sg required t in_domi key now in
    let signed = bad_signature_iff sg t key in
    let granted = effective_mask_iff required t.mask in_domi in
    (
      λ h. let (e, s, g) = to h in let (m, a) = granted.0 g in (e, signed.0 s, m, a),
      λ (e, s, m, a). from (e, signed.1 s, granted.1 (m, a)),
    )
