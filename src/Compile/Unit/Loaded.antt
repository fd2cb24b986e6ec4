-- ===== src/Compile/Unit/Loaded.antt =====
-- Which bytes give a unit.
use the_soverign_imperia_cit.Base.{
  ℕ, String, ◌≡◌, ◌≢◌, refl, sym, ap, ◌∙◌, ◌↔◌, ◌⊎◌, Option, none, some, inl, inr, arith, str_eq,
  eq_iff, take, drop, true, Bool-cases, if◌then◌else◌, [],
}
use the_soverign_imperia_cit.Base.Text.{Text, same, same_iff}
use the_soverign_imperia_cit.Compile.Unit.Fields.{unit_of_iff, unit_of-key_error}
use the_soverign_imperia_cit.Compile.Unit.{
  LegionUnit, Payload, Marshal, StaleUnit, bad_magic, corrupt_payload, not_a_dict, other_schema,
  other_interpreter, LoadError, stale, key_error, magic, payload, dumps, loads, key_mismatch,
  is_number, is_text, converted, unit_of, built, checked,
}

-- Marshal reads back what it makes of a unit.
abbrev pub IsReadBack : Marshal → LegionUnit → Type 0
IsReadBack m u = m.loads (m.dumps (payload m u)) ≡ some (some (payload m u))

-- When marshal reads back what it makes of a unit, its bytes give the unit, when no key or its own is expected, and are refused for any other key.
pub loads-dumps :
    (m : Marshal) (u : LegionUnit) (key : String)
    → IsReadBack m u
    → (loads m (dumps m u) none ≡ inr u)
      × (loads m (dumps m u) (some key)
          ≡ (if str_eq u.cache_key key then inr u else inl (stale key_mismatch)))
unfolding loads dumps same checked unit_of
loads-dumps m u key e = (
  rw e (ground (arith, eq_iff m.py_tag m.py_tag)),
  rw e (ground (arith, eq_iff m.py_tag m.py_tag)),
)

is_number_iff : (o : Option ℕ) (n : ℕ) → (is_number o n ≡ true) ↔ (o ≡ some n)
is_number_iff none n = (λ h. absurd (ground (arith, h)), λ h. absurd (ground (arith, h)))
is_number_iff (some v) n = (λ h. ap some (ground (arith, h)), λ h. ground (arith, h))

is_text_iff : (o : Option String) (s : String) → (is_text o s ≡ true) ↔ (o ≡ some s)
is_text_iff none s = (λ h. absurd (ground (arith, h)), λ h. absurd (ground (arith, h)))
is_text_iff (some v) s =
    (λ h. ap some (ground (arith, h, eq_iff v s)), λ h. ground (arith, h, eq_iff v s))

-- The schema, the interpreter and the key of the dictionary are the expected ones.
abbrev pub IsCurrent : Marshal → String → Payload → Type 0
IsCurrent m key p = (p.v ≡ some 1) × (p.py ≡ some m.py_tag) × (p.key ≡ some key)

-- The dictionary has the fields of the unit, but for those that have a default.
abbrev pub IsOf : Payload → LegionUnit → Type 0
IsOf p u =
    (p.sha ≡ some u.source_sha)
    × (p.key ≡ some u.cache_key)
    × (p.relpath ≡ some u.relpath)
    × (p.module_name ≡ u.module_name)
    × (converted p.imports [] ≡ some u.imports)
    × (converted p.features [] ≡ some u.features)
    × (converted p.line_count 0 ≡ some u.line_count)
    × (converted p.symbols [] ≡ some u.symbols)

checked-IsCurrent :
    (m : Marshal) (key : String) (p : Payload)
    → IsCurrent m key p
    → checked m (some key) (some (some p)) ≡ built p
unfolding checked
checked-IsCurrent m key p (a, b, c) =
    rw ((is_number_iff p.v 1).1 a, (is_text_iff p.py m.py_tag).1 b, (is_text_iff p.key key).1 c)
      refl

-- The outcome of a value is a refusal, or it is that of building the unit from a current dictionary.
checked-cases :
    (m : Marshal) (key : String) (value : Option (Option Payload))
    → ((e : StaleUnit) × (checked m (some key) value ≡ inl (stale e)))
      ⊎ ((p : Payload) × (value ≡ some (some p)) × IsCurrent m key p)
unfolding checked
checked-cases m key none = inl (corrupt_payload, refl)
checked-cases m key (some none) = inl (not_a_dict, refl)
checked-cases m key (some (some p)) = elim (Bool-cases (is_number p.v 1)) [
  | inr a ↦ inl (other_schema, rw a refl)
  | inl a ↦ elim (Bool-cases (is_text p.py m.py_tag)) [
    | inr b ↦ inl (other_interpreter, rw (a, b) refl)
    | inl b ↦ elim (Bool-cases (is_text p.key key)) [
      | inr c ↦ inl (key_mismatch, rw (a, b, c) refl)
      | inl c ↦ inr (
        p,
        refl,
        ((is_number_iff p.v 1).0 a, (is_text_iff p.py m.py_tag).0 b, (is_text_iff p.key key).0 c),
      )
    ]
  ]
]

-- Some current dictionary is the value and has the property.
abbrev pub IsCurrentWith : Marshal → String → Option (Option Payload) → (Payload → Type 0) → Type 0
IsCurrentWith m key value P = (p : Payload) × (value ≡ some (some p)) × IsCurrent m key p × P p

checked_iff :
    (m : Marshal) (key : String) (value : Option (Option Payload)) (out : LoadError ⊎ LegionUnit)
    (P : Payload → Type 0)
    → ((e : StaleUnit) → out ≢ inl (stale e))
    → ((p : Payload) → IsCurrent m key p → (built p ≡ out) ↔ P p)
    → (checked m (some key) value ≡ out) ↔ IsCurrentWith m key value P
checked_iff m key value out P other h = (
  λ e. elim (checked-cases m key value) [
    | inl (s, f) ↦ absurd (other s (sym e ∙ f))
    | inr (p, v, c) ↦ (
      p,
      v,
      c,
      (h p c).0 (sym (checked-IsCurrent m key p c) ∙ ap (checked m (some key)) (sym v) ∙ e),
    )
  ],
  λ (p, v, c, x). ap (checked m (some key)) v ∙ checked-IsCurrent m key p c ∙ (h p c).1 x,
)

loads-checked :
    (m : Marshal) (blob : Text) (key : String) (out : LoadError ⊎ LegionUnit) (Q : Type 0)
    → ((e : StaleUnit) → out ≢ inl (stale e))
    → (checked m (some key) (m.loads (drop 4 blob)) ≡ out) ↔ Q
    → (loads m blob (some key) ≡ out) ↔ ((take 4 blob ≡ magic) × Q)
unfolding loads
loads-checked m blob key out Q other h = elim (Bool-cases (same (take 4 blob) magic)) [
  | inl s ↦ (
    λ e. ((same_iff (take 4 blob) magic).0 s, h.0 (ground (arith, e, s))),
    λ (t, q). ground (arith, s, h.1 q),
  )
  | inr s ↦ (
    λ e. absurd (other bad_magic (ground (arith, e, s))),
    λ (t, q). absurd (ground (arith, s, (same_iff (take 4 blob) magic).1 t)),
  )
]

-- A field that the unit cannot be built without, other than the key, is missing.
abbrev pub IsLacking : Payload → Type 0
IsLacking p = (p.sha ≡ none) ⊎ (p.relpath ≡ none)

IsLacking-iff :
    (m : Marshal) (key : String) (p : Payload)
    → IsCurrent m key p
    → (built p ≡ inl key_error) ↔ IsLacking p
IsLacking-iff m key p (a, b, c) =
    let (to, from) =
      unit_of-key_error p.sha p.key p.relpath p.module_name (converted p.imports [])
        (converted p.features []) (converted p.line_count 0) (converted p.symbols []) in
    (
      λ e. elim (to e) [
        | inl x ↦ inl x
        | inr (inl x) ↦ absurd (ground (arith, x, c))
        | inr (inr x) ↦ inr x
      ],
      λ e. from (elim e [ inl x ↦ inl x | inr x ↦ inr (inr x) ]),
    )

-- For an expected key, bytes give a unit exactly when they start with the magic number and the rest is a
-- dictionary with the current schema and interpreter and the expected key that has the digest, the path and
-- the other values of the unit, where missing ones of these other values count as empty. Loading raises a
-- KeyError, which is no StaleUnit, exactly for such a dictionary without the digest or the path.
pub loads_iff :
    (m : Marshal) (blob : Text) (key : String) (u : LegionUnit)
    → ((loads m blob (some key) ≡ inr u)
        ↔ ((take 4 blob ≡ magic) × IsCurrentWith m key (m.loads (drop 4 blob)) (λ p. IsOf p u)))
      × ((loads m blob (some key) ≡ inl key_error)
          ↔ ((take 4 blob ≡ magic) × IsCurrentWith m key (m.loads (drop 4 blob)) IsLacking))
loads_iff m blob key u =
    let value = m.loads (drop 4 blob) in
    (
      loads-checked m blob key (inr u) _ (λ e p. ground (arith, p))
          (checked_iff m key value (inr u) (λ p. IsOf p u) (λ e p. ground (arith, p))
            (λ p c.
              unit_of_iff u p.sha p.key p.relpath p.module_name (converted p.imports [])
                (converted p.features []) (converted p.line_count 0) (converted p.symbols []))),
      loads-checked m blob key (inl key_error) _ (λ e p. ground (arith, p))
          (checked_iff m key value (inl key_error) IsLacking (λ e p. ground (arith, p))
            (IsLacking-iff m key)),
    )
