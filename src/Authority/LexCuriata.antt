-- ===== src/Authority/LexCuriata.antt =====
-- src/citadel/services/authority/lex_curiata.py: activation manifests. A manifest is the fields that
-- the code reads, and the canonical text of the rest of it; the printing as JSON and the HMAC are
-- parameters.
pub mod Ratified
use the_soverign_imperia_cit.Base.{
  ℕ, ◌==◌, String, List, [], ◌∷◌, ◌++◌, Bool, true, false, not, ◌&&◌, ◌||◌, any, Option, none, some,
  str_eq, if◌then◌else◌,
}
use the_soverign_imperia_cit.Base.Sets
use the_soverign_imperia_cit.Base.Text.{Text, codes, ends_with, same}

-- What a key of a dictionary has; a missing key and null are one.
pub data Value : Type 0 where
  missing : Value
  number : ℕ → Value
  words : Text → Value

pub record Terms : Type 0 where
  pub ttl_hours : Value
  pub ttl : Value

pub record Image : Type 0 where
  pub ref : Option String

-- `lease` and `image` are `none` when they are missing or empty, `provinces` when it is missing or no list; the
-- rest is whatever other fields there are.
pub record Manifest : Type 0 where
  pub lease : Option Terms
  pub provinces : Option (List String)
  pub image : Option Image
  pub rest : Text
  pub signature : Option Text

abbrev pub wildcard_provinces : List String
wildcard_provinces = "/**" ∷ "/" ∷ "**" ∷ "/*" ∷ []

pub data Violation : Type 0 where
  missing_ttl missing_provinces wildcard_province floating_tag : Violation

unfoldable pub is_truthy : Value → Bool
is_truthy missing = false
is_truthy (number n) = not (n == 0)
is_truthy (words []) = false
is_truthy (words (c ∷ s)) = true

-- `a or b`
abbrev pub or_else : Value → Value → Value
or_else a b = if is_truthy a then a else b

-- `manifest.get("lease") or {}`
abbrev pub terms_of : Option Terms → Terms
terms_of none = record { ttl_hours = missing; ttl = missing }
terms_of (some lease) = lease

unfoldable pub lease_violations : Option Terms → List Violation
unfolding is_truthy
lease_violations m =
    let lease = terms_of m in
    if is_truthy (or_else lease.ttl_hours lease.ttl) then [] else missing_ttl ∷ []

unfoldable pub is_wildcard : String → Bool
is_wildcard p = Sets.member wildcard_provinces p

unfoldable pub province_violations : Option (List String) → List Violation
unfolding is_wildcard
province_violations none = missing_provinces ∷ []
province_violations (some []) = missing_provinces ∷ []
province_violations (some (p ∷ ps)) =
    if any is_wildcard (p ∷ ps) then wildcard_province ∷ [] else []

-- `(manifest.get("image") or {}).get("ref", "")`
abbrev pub image_ref : Option Image → String
image_ref none = ""
image_ref (some image) = elim image.ref [ none ↦ "" | some ref ↦ ref ]

unfoldable pub is_floating : String → Bool
is_floating ref = ends_with (codes ":latest") (codes ref)

unfoldable pub image_violations : String → List Violation
unfolding is_floating
image_violations ref = if is_floating ref then floating_tag ∷ [] else []

unfoldable pub validate_manifest : Manifest → List Violation
unfolding lease_violations province_violations image_violations
validate_manifest m =
    lease_violations m.lease
    ++ (province_violations m.provinces ++ image_violations (image_ref m.image))

-- `json.dumps` of the fields but for the signature, and `hmac.new(...).hexdigest()`.
pub record Seal : Type 0 where
  pub canonical : Option Terms → Option (List String) → Option Image → Text → Text
  pub hexdigest : Text → Text → Text

unfoldable pub sign_manifest : Seal → Text → Manifest → Text
sign_manifest s key m =
    codes "hmac-sha256:" ++ s.hexdigest key (s.canonical m.lease m.provinces m.image m.rest)

abbrev pub is_valid_list : List Violation → Bool
is_valid_list [] = true
is_valid_list (v ∷ vs) = false

-- `manifest.get("signature", "")`
abbrev pub signature_of : Option Text → Text
signature_of none = []
signature_of (some signature) = signature

unfoldable pub is_ratified : Seal → Text → Manifest → Bool
unfolding validate_manifest sign_manifest
is_ratified s key m =
    if is_valid_list (validate_manifest m)
    then same (signature_of m.signature) (sign_manifest s key m)
    else false
