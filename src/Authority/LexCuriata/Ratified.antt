-- ===== src/Authority/LexCuriata/Ratified.antt =====
-- What a ratified manifest is.
use the_soverign_imperia_cit.Base.{
  ◌<◌, String, List, [], ◌∷◌, ◌++◌, ◌≡◌, ◌≢◌, ◌↔◌, ◌⊎◌, inl, inr, Bool, true, false, any, All,
  Option, none, some, arith, eq_iff, Bool-cases, if◌then◌else◌,
}
use the_soverign_imperia_cit.Base.Sets
use the_soverign_imperia_cit.Base.Text.{
  Text, codes, ends_with, same_iff, ends_with-append, ends_with-split,
}
use the_soverign_imperia_cit.Authority.LexCuriata.{
  Value, missing, number, words, Terms, Manifest, Violation, missing_ttl, wildcard_province,
  floating_tag, is_truthy, or_else, lease_violations, is_wildcard, province_violations, image_ref,
  is_floating, image_violations, validate_manifest, Seal, sign_manifest, is_valid_list,
  signature_of, is_ratified,
}

-- A number but 0, or a text that is not empty.
abbrev pub IsGiven : Value → Type 0
IsGiven missing = ⊥
IsGiven (number n) = 0 < n
IsGiven (words []) = ⊥
IsGiven (words (c ∷ s)) = Unit

-- The lease gives a time to live, in hours or not.
abbrev pub HasTerm : Option Terms → Type 0
HasTerm none = ⊥
HasTerm (some lease) = IsGiven lease.ttl_hours ⊎ IsGiven lease.ttl

abbrev pub IsNarrow : String → Type 0
IsNarrow p = (p ≢ "/**") × (p ≢ "/") × (p ≢ "**") × (p ≢ "/*")

-- There is at least one province, and none is a wildcard.
abbrev pub IsBounded : Option (List String) → Type 0
IsBounded none = ⊥
IsBounded (some []) = ⊥
IsBounded (some (p ∷ ps)) = All IsNarrow (p ∷ ps)

-- The reference does not end in the tag.
abbrev pub IsPinned : String → Type 0
IsPinned ref = ¬ ((front : Text) × (codes ref ≡ front ++ codes ":latest"))

valid_append :
    (xs ys : List Violation)
    → (is_valid_list (xs ++ ys) ≡ true) ↔ ((is_valid_list xs ≡ true) × (is_valid_list ys ≡ true))
valid_append [] ys = ground arith
valid_append (x ∷ xs) ys = ground arith

is_truthy_iff : (v : Value) → (is_truthy v ≡ true) ↔ IsGiven v
unfolding is_truthy
is_truthy_iff missing = ground arith
is_truthy_iff (number n) = ground arith
is_truthy_iff (words []) = ground arith
is_truthy_iff (words (c ∷ s)) = ground arith

no_violation :
    (b : Bool) (v : Violation) → (is_valid_list (if b then [] else v ∷ []) ≡ true) ↔ (b ≡ true)
no_violation true v = ground arith
no_violation false v = ground arith

violation :
    (b : Bool) (v : Violation) → (is_valid_list (if b then v ∷ [] else []) ≡ true) ↔ (b ≡ false)
violation true v = ground arith
violation false v = ground arith

or_else_iff : (a b : Value) → (is_truthy (or_else a b) ≡ true) ↔ (IsGiven a ⊎ IsGiven b)
or_else_iff a b = elim (Bool-cases (is_truthy a)) [
  | inl e ↦ rw e (λ h. inl ((is_truthy_iff a).0 e), λ h. e)
  | inr e ↦ rw e (
    λ h. inr ((is_truthy_iff b).0 h),
    λ h. elim h [
      | inl x ↦ absurd (ground (arith, e, (is_truthy_iff a).1 x))
      | inr x ↦ (is_truthy_iff b).1 x
    ],
  )
]

lease_iff : (m : Option Terms) → (is_valid_list (lease_violations m) ≡ true) ↔ HasTerm m
unfolding lease_violations
lease_iff none = unfold is_truthy in (ground arith)
lease_iff (some lease) =
    let (to, from) = no_violation (is_truthy (or_else lease.ttl_hours lease.ttl)) missing_ttl in
    let (given, ok) = or_else_iff lease.ttl_hours lease.ttl in (λ h. given (to h), λ h. from (ok h))

is_wildcard_iff : (p : String) → (is_wildcard p ≡ false) ↔ IsNarrow p
unfolding is_wildcard Sets.member
is_wildcard_iff p = (
  λ h. (
    (λ e. ground (arith, h, eq_iff "/**" p, e)),
    (λ e. ground (arith, h, eq_iff "/" p, e)),
    (λ e. ground (arith, h, eq_iff "**" p, e)),
    (λ e. ground (arith, h, eq_iff "/*" p, e)),
  ),
  λ (a, b, c, d).
      ground (arith, eq_iff "/**" p, eq_iff "/" p, eq_iff "**" p, eq_iff "/*" p, a, b, c, d),
)

any_iff : (ps : List String) → (any is_wildcard ps ≡ false) ↔ All IsNarrow ps
any_iff [] = ground arith
any_iff (p ∷ ps) = elim (Bool-cases (is_wildcard p)) [
  | inl e ↦ rw e (
    (λ h. absurd (ground (arith, h))),
    λ (x, h). absurd (ground (arith, e, (is_wildcard_iff p).1 x)),
  )
  | inr e ↦ rw e ((λ h. ((is_wildcard_iff p).0 e, (any_iff ps).0 h)), λ (x, h). (any_iff ps).1 h)
]

province_iff :
    (ps : Option (List String)) → (is_valid_list (province_violations ps) ≡ true) ↔ IsBounded ps
unfolding province_violations
province_iff none = ground arith
province_iff (some []) = ground arith
province_iff (some (p ∷ ps)) =
    let (to, from) = violation (any is_wildcard (p ∷ ps)) wildcard_province in
    (λ h. (any_iff (p ∷ ps)).0 (to h), λ h. from ((any_iff (p ∷ ps)).1 h))

is_floating_iff : (ref : String) → (is_floating ref ≡ false) ↔ IsPinned ref
unfolding is_floating
is_floating_iff ref = (
  λ e (front, p). ground (arith, e, ends_with-append (codes ":latest") front, p),
  λ h. elim (Bool-cases (ends_with (codes ":latest") (codes ref))) [
    | inl e ↦ absurd (h (ends_with-split (codes ":latest") (codes ref) e))
    | inr e ↦ e
  ],
)

image_iff : (ref : String) → (is_valid_list (image_violations ref) ≡ true) ↔ IsPinned ref
unfolding image_violations
image_iff ref =
    let (to, from) = violation (is_floating ref) floating_tag in
    (λ h. (is_floating_iff ref).0 (to h), λ h. from ((is_floating_iff ref).1 h))

both : (b c : Bool) → ((if b then c else false) ≡ true) ↔ ((b ≡ true) × (c ≡ true))
both true c = ground arith
both false c = ground arith

valid_iff :
    (m : Manifest)
    → (is_valid_list (validate_manifest m) ≡ true)
      ↔ (HasTerm m.lease × IsBounded m.provinces × IsPinned (image_ref m.image))
unfolding validate_manifest
valid_iff m = (
  λ v.
      let (l, r) = (valid_append (lease_violations m.lease) _).0 v in
      let (p, i) = (valid_append (province_violations m.provinces) _).0 r in
      (
        (lease_iff m.lease).0 l,
        (province_iff m.provinces).0 p,
        (image_iff (image_ref m.image)).0 i,
      ),
  λ h. (valid_append (lease_violations m.lease) _).1 (
    (lease_iff m.lease).1 h.0,
    (valid_append (province_violations m.provinces) _).1
        ((province_iff m.provinces).1 h.1, (image_iff (image_ref m.image)).1 h.2),
  ),
)

-- A manifest is ratified exactly when its lease has a time to live, in hours or not, that is neither 0 nor empty,
-- it has at least one province and none of them is "/**", "/", "**" or "/*", its image's reference does not end
-- in ":latest", and its signature is the one of this key.
pub is_ratified_iff :
    (s : Seal) (key : Text) (m : Manifest)
    → (is_ratified s key m ≡ true) ↔ (
        HasTerm m.lease
        × IsBounded m.provinces
        × IsPinned (image_ref m.image)
        × (signature_of m.signature ≡ sign_manifest s key m))
unfolding is_ratified
is_ratified_iff s key m = (
  λ h.
      let (v, e) = (both _ _).0 h in
      let (l, p, i) = (valid_iff m).0 v in (l, p, i, (same_iff (signature_of m.signature) _).0 e),
  λ h.
      (both _ _).1 ((valid_iff m).1 (h.0, h.1, h.2), (same_iff (signature_of m.signature) _).1 h.3),
)
