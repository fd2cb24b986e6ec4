-- ===== src/Retrieval/Vectors/Replaced.antt =====
-- Indexing a path: its records are deleted and new ones put in.
use mathlib.Core.Path.{subst}
use the_soverign_imperia_cit.Base.{
  ℕ, String, ◌≡◌, sym, ap, ◌∙◌, List, [], ◌∷◌, ◌++◌, ◌≤◌, suc, All-append, false, All, arith,
  str_eq, eq_iff, Bool-cases, inl, inr,
}
use the_soverign_imperia_cit.Retrieval.Vectors.{
  VectorRecord, Records, put_all, victims, remove_all, chunk_id,
}
use the_soverign_imperia_cit.Retrieval.Vectors.Ids.{IsDecimal, chunk_id_inj}
use the_soverign_imperia_cit.Retrieval.Vectors.Entries.{
  elsewhere, entries, IsFresh, AreFresh, put_all-AreFresh, IsKeyed, remove_all-victims,
}

module _ {F : Type 0} (str : ℕ → String) (dec : IsDecimal str) (path : String) where
  -- The records of one path with ascending indices.
  abbrev pub IsNumbered : ℕ → List (VectorRecord F) → Type 0
  IsNumbered n [] = Unit
  IsNumbered n (r ∷ rs) =
      (r.id ≡ chunk_id str r.path r.index)
      × (r.path ≡ path)
      × (n ≤ r.index)
      × IsNumbered (suc r.index) rs

  -- No key is that of the path with an index from a number on.
  abbrev IsBelow : ℕ → Records F → Type 0
  IsBelow n d = All (λ e. (i : ℕ) → n ≤ i → str_eq e.0 (chunk_id str path i) ≡ false) d

  elsewhere-IsBelow : (d : Records F) (n : ℕ) → IsKeyed str d → IsBelow n (elsewhere d path)
  elsewhere-IsBelow [] n h = tt
  elsewhere-IsBelow ((rid, rec) ∷ d) n (e, h) = elim (Bool-cases (str_eq rec.path path)) [
    | inl s ↦ rw s (elsewhere-IsBelow d n h)
    | inr s ↦ rw s (
      λ i le. elim (Bool-cases (str_eq rid (chunk_id str path i))) [
        | inl t ↦
            let k : rid ≡ chunk_id str path i =
              ground (arith, t, eq_iff rid (chunk_id str path i)) in
            let (same, index) = chunk_id_inj str dec rec.path path rec.index i (sym e ∙ k) in
            absurd (ground (arith, s, same, eq_iff rec.path path))
        | inr t ↦ t
      ],
      elsewhere-IsBelow d n h,
    )
  ]

  later-IsBelow : (n m : ℕ) (d : Records F) → n ≤ m → IsBelow n d → IsBelow m d
  later-IsBelow n m [] le h = tt
  later-IsBelow n m (e ∷ d) le (k, h) = (λ i q. k i (omega arith), later-IsBelow n m d le h)

  own-IsBelow :
      (r : VectorRecord F)
      → r.id ≡ chunk_id str r.path r.index
      → r.path ≡ path
      → IsBelow (suc r.index) ((r.id, r) ∷ [])
  own-IsBelow r e p = (
    λ i q. elim (Bool-cases (str_eq r.id (chunk_id str path i))) [
      | inl t ↦
          let k : r.id ≡ chunk_id str path i =
            ground (arith, t, eq_iff r.id (chunk_id str path i)) in
          let (same, index) = chunk_id_inj str dec r.path path r.index i (sym e ∙ k) in
          absurd (omega (arith, index))
      | inr t ↦ t
    ],
    tt,
  )

  IsBelow-IsFresh :
      (n i : ℕ) (d : Records F) → n ≤ i → IsBelow n d → IsFresh (chunk_id str path i) d
  IsBelow-IsFresh n i [] le h = tt
  IsBelow-IsFresh n i (e ∷ d) le (k, h) = (k i le, IsBelow-IsFresh n i d le h)

  numbered-AreFresh :
      (n : ℕ) (d : Records F) (rs : List (VectorRecord F))
      → IsBelow n d
      → IsNumbered n rs
      → AreFresh d rs
  numbered-AreFresh n d [] b h = tt
  numbered-AreFresh n d (r ∷ rs) b (e, p, le, h) = (
    subst (λ k. IsFresh k d) (sym (e ∙ ap (λ q. chunk_id str q r.index) p))
        (IsBelow-IsFresh n r.index d le b),
    numbered-AreFresh (suc r.index) (d ++ (r.id, r) ∷ []) rs
        (All-append (λ x. (i : ℕ) → suc r.index ≤ i → str_eq x.0 (chunk_id str path i) ≡ false) d
          ((r.id, r) ∷ []) (later-IsBelow n (suc r.index) d (omega arith) b) (own-IsBelow r e p))
        h,
  )

  -- Deleting the records of a path and inserting numbered ones replaces the records of the path.
  pub put_all-remove_all :
      (d : Records F) (rs : List (VectorRecord F))
      → IsKeyed str d
      → IsNumbered 0 rs
      → put_all (remove_all d (victims d path)) rs ≡ elsewhere d path ++ entries rs
  put_all-remove_all d rs keyed numbered =
      ap (λ t. put_all t rs) (remove_all-victims str dec path d keyed)
      ∙ put_all-AreFresh (elsewhere d path) rs
          (numbered-AreFresh 0 (elsewhere d path) rs (elsewhere-IsBelow d 0 keyed) numbered)
