-- ===== src/Compile/Unit/Fields.antt =====
-- When the fields of a dictionary give a unit (src/citadel/services/compile/unit.py, `loads`).
use the_soverign_imperia_cit.Base.{
  ℕ, String, ◌≡◌, refl, ap, ◌↔◌, ◌⊎◌, Option, none, some, inl, inr, arith, List,
}
use the_soverign_imperia_cit.Compile.Unit.{Fact, LegionUnit, key_error, unit_of}

module _ (u : LegionUnit) where
  -- The values of the fields of the unit.
  abbrev pub IsMade :
      Option String
      → Option String
      → Option String
      → Option String
      → Option (List String)
      → Option (List String)
      → Option ℕ
      → Option (List Fact)
      → Type 0
  IsMade sha key rel m i f n s =
      (sha ≡ some u.source_sha)
      × (key ≡ some u.cache_key)
      × (rel ≡ some u.relpath)
      × (m ≡ u.module_name)
      × (i ≡ some u.imports)
      × (f ≡ some u.features)
      × (n ≡ some u.line_count)
      × (s ≡ some u.symbols)

  unit_of-some :
      (sha key rel m : Option String) (i f : Option (List String)) (n : Option ℕ)
      (s : Option (List Fact))
      → IsMade sha key rel m i f n s
      → unit_of sha key rel m i f n s ≡ inr u
  unfolding unit_of
  unit_of-some sha key rel m i f n s (e0, e1, e2, e3, e4, e5, e6, e7) =
      rw (e0, e1, e2, e3, e4, e5, e6, e7) refl

  pub unit_of_iff :
      (sha key rel m : Option String) (i f : Option (List String)) (n : Option ℕ)
      (s : Option (List Fact))
      → (unit_of sha key rel m i f n s ≡ inr u) ↔ IsMade sha key rel m i f n s
  unfolding unit_of
  unit_of_iff none key rel m i f n s = ground arith
  unit_of_iff (some a) none rel m i f n s = ground arith
  unit_of_iff (some a) (some b) none m i f n s = ground arith
  unit_of_iff (some a) (some b) (some c) m none f n s = ground arith
  unit_of_iff (some a) (some b) (some c) m (some i) none n s = ground arith
  unit_of_iff (some a) (some b) (some c) m (some i) (some f) none s = ground arith
  unit_of_iff (some a) (some b) (some c) m (some i) (some f) (some n) none = ground arith
  unit_of_iff (some a) (some b) (some c) m (some i) (some f) (some n) (some s) = (
    λ h.
        let whole : made ≡ u = ground (arith, h) in
        (
          ap (λ x. some x.source_sha) whole,
          ap (λ x. some x.cache_key) whole,
          ap (λ x. some x.relpath) whole,
          ap (λ x. x.module_name) whole,
          ap (λ x. some x.imports) whole,
          ap (λ x. some x.features) whole,
          ap (λ x. some x.line_count) whole,
          ap (λ x. some x.symbols) whole,
        ),
    unit_of-some (some a) (some b) (some c) m (some i) (some f) (some n) (some s),
  )
    where
      made : LegionUnit
      made = record {
        source_sha = a;
        cache_key = b;
        relpath = c;
        module_name = m;
        imports = i;
        features = f;
        line_count = n;
        symbols = s;
      }

pub unit_of-key_error :
    (sha key rel m : Option String) (i f : Option (List String)) (n : Option ℕ)
    (s : Option (List Fact))
    → (unit_of sha key rel m i f n s ≡ inl key_error) ↔ ((sha ≡ none) ⊎ (key ≡ none) ⊎ (rel ≡ none))
unfolding unit_of
unit_of-key_error none key rel m i f n s = ground arith
unit_of-key_error (some a) none rel m i f n s = ground arith
unit_of-key_error (some a) (some b) none m i f n s = ground arith
unit_of-key_error (some a) (some b) (some c) m none f n s = ground arith
unit_of-key_error (some a) (some b) (some c) m (some i) none n s = ground arith
unit_of-key_error (some a) (some b) (some c) m (some i) (some f) none s = ground arith
unit_of-key_error (some a) (some b) (some c) m (some i) (some f) (some n) none = ground arith
unit_of-key_error (some a) (some b) (some c) m (some i) (some f) (some n) (some s) = ground arith
