-- ===== src/Examples/Lex.antt =====
-- A manifest at a concrete input (src/citadel/services/authority/lex_curiata.py).
use the_soverign_imperia_cit.Base.{◌++◌, [], ◌∷◌, ◌≡◌, refl, ◌↔◌, true, some}
use the_soverign_imperia_cit.Base.Sets
use the_soverign_imperia_cit.Base.Text.{codes, ends_with, same}
use the_soverign_imperia_cit.Authority.LexCuriata.{
  missing, number, Manifest, is_truthy, Seal, sign_manifest, is_ratified,
}
use the_soverign_imperia_cit.Authority.LexCuriata.Ratified.{
  HasTerm, IsBounded, IsPinned, is_ratified_iff,
}

-- A toy seal: the digest is the key and the text.
abbrev seal : Seal
seal = record {
  canonical = λ lease provinces image rest. rest;
  hexdigest = λ key body. key ++ body;
}

abbrev manifest : Manifest
manifest = record {
  lease = some (record { ttl_hours = missing; ttl = number 8 });
  provinces = some ("/repo" ∷ []);
  image = some (record { ref = some "app@sha256" });
  rest = codes "{}";
  signature = some (codes "hmac-sha256:k{}");
}

is_ratified_iff_example : (is_ratified seal (codes "k") manifest ≡ true) ↔ (
    HasTerm manifest.lease
    × IsBounded (some ("/repo" ∷ []))
    × IsPinned "app@sha256"
    × (codes "hmac-sha256:k{}" ≡ sign_manifest seal (codes "k") manifest))
is_ratified_iff_example = is_ratified_iff seal (codes "k") manifest

ratified : is_ratified seal (codes "k") manifest ≡ true
unfolding is_ratified is_truthy Sets.member ends_with same
ratified = refl
