-- ===== src/Retrieval/Vectors/Entries.antt =====
-- The entries of the store after deletions and insertions.
use the_soverign_imperia_cit.Base.{
  ℕ, String, ◌≡◌, refl, sym, ap, ◌∙◌, List, [], ◌∷◌, ◌++◌, true, false, All, arith, str_eq, eq_iff,
  Bool-cases, inl, inr, if◌then◌else◌,
}
use the_soverign_imperia_cit.Base.Dict
use the_soverign_imperia_cit.Base.Sets
use the_soverign_imperia_cit.Retrieval.Vectors.{
  VectorRecord, Records, put_all, victims, remove_all, chunk_id,
}
use the_soverign_imperia_cit.Retrieval.Vectors.Ids.{IsDecimal, chunk_id_inj}

module _ {F : Type 0} where
  -- The records of a path, in order.
  abbrev pub at_path : Records F → String → List (VectorRecord F)
  at_path [] path = []
  at_path ((rid, rec) ∷ d) path =
      let rest = at_path d path in if str_eq rec.path path then rec ∷ rest else rest

  -- The entries of all other paths.
  abbrev pub elsewhere : Records F → String → Records F
  elsewhere [] path = []
  elsewhere ((rid, rec) ∷ d) path =
      let rest = elsewhere d path in if str_eq rec.path path then rest else (rid, rec) ∷ rest

  abbrev pub entries : List (VectorRecord F) → Records F
  entries [] = []
  entries (r ∷ rs) = (r.id, r) ∷ entries rs

  -- No entry has the key.
  abbrev pub IsFresh : String → Records F → Type 0
  IsFresh k d = All (λ e. str_eq e.0 k ≡ false) d

  put-IsFresh :
      (d : Records F) (k : String) (r : VectorRecord F)
      → IsFresh k d
      → Dict.put d k r ≡ d ++ (k, r) ∷ []
  unfolding Dict.put
  put-IsFresh [] k r h = refl
  put-IsFresh ((j, s) ∷ d) k r (e, h) = rw e (ap (λ t. (j, s) ∷ t) (put-IsFresh d k r h))

  -- The keys of records are distinct, and fresh for a dictionary.
  abbrev pub AreFresh : Records F → List (VectorRecord F) → Type 0
  AreFresh d [] = Unit
  AreFresh d (r ∷ rs) = IsFresh r.id d × AreFresh (d ++ (r.id, r) ∷ []) rs

  append_entry :
      (d : Records F) (e : String × VectorRecord F) (es : Records F)
      → (d ++ e ∷ []) ++ es ≡ d ++ e ∷ es
  append_entry [] e es = refl
  append_entry (x ∷ d) e es = ap (λ t. x ∷ t) (append_entry d e es)

  append_none : (d : Records F) → d ≡ d ++ []
  append_none [] = refl
  append_none (x ∷ d) = ap (λ t. x ∷ t) (append_none d)

  pub put_all-AreFresh :
      (d : Records F) (rs : List (VectorRecord F)) → AreFresh d rs → put_all d rs ≡ d ++ entries rs
  unfolding put_all
  put_all-AreFresh d [] h = append_none d
  put_all-AreFresh d (r ∷ rs) (f, h) =
      rw (put-IsFresh d r.id r f)
        (put_all-AreFresh (d ++ (r.id, r) ∷ []) rs h ∙ append_entry d (r.id, r) (entries rs))

  remove_all-nil : (rids : List String) → remove_all {F = F} [] rids ≡ []
  unfolding remove_all Dict.remove
  remove_all-nil [] = refl
  remove_all-nil (r ∷ rids) = remove_all-nil rids

  remove_all-cons :
      (e : String × VectorRecord F) (d : Records F) (rids : List String)
      → remove_all (e ∷ d) rids
        ≡ (if Sets.member rids e.0 then remove_all d rids else e ∷ remove_all d rids)
  unfolding remove_all Dict.remove Sets.member
  remove_all-cons e d [] = refl
  remove_all-cons e d (r ∷ rids) = elim (Bool-cases (str_eq r e.0)) [
    | inl h ↦ ground (arith, eq_iff r e.0, eq_iff e.0 r, remove_all-cons e (Dict.remove d r) rids)
    | inr h ↦ ground (arith, eq_iff r e.0, eq_iff e.0 r, remove_all-cons e (Dict.remove d r) rids)
  ]

  remove_all-elsewhere :
      (d : Records F) (rids : List String) (path : String)
      → All (λ e. Sets.member rids e.0 ≡ str_eq e.1.path path) d
      → remove_all d rids ≡ elsewhere d path
  remove_all-elsewhere [] rids path h = remove_all-nil rids
  remove_all-elsewhere (e ∷ d) rids path (k, h) =
      rw (remove_all-cons e d rids, k, remove_all-elsewhere d rids path h) refl

  module _ (str : ℕ → String) where
    -- The key of each entry is the identity of its record.
    abbrev pub IsKeyed : Records F → Type 0
    IsKeyed d = All (λ e. e.0 ≡ chunk_id str e.1.path e.1.index) d

    victims-key :
        (d : Records F) (path k : String)
        → IsKeyed d
        → Sets.member (victims d path) k ≡ true
        → (i : ℕ) × (k ≡ chunk_id str path i)
    unfolding victims Sets.member
    victims-key [] path k h m = absurd (ground (arith, m))
    victims-key ((rid, rec) ∷ d) path k (e, h) m = elim (Bool-cases (str_eq rec.path path)) [
      | inl s ↦ elim (Bool-cases (str_eq rid k)) [
        | inl t ↦ (rec.index, ground (arith, e, eq_iff rec.path path, eq_iff rid k, s, t))
        | inr t ↦ victims-key d path k h (ground (arith, m, s, t))
      ]
      | inr s ↦ victims-key d path k h (ground (arith, m, s))
    ]

    module _ (dec : IsDecimal str) (path : String) where
      member-rids :
          (d : Records F) (rids : List String)
          → IsKeyed d
          → ((k : String) → Sets.member rids k ≡ true → (i : ℕ) × (k ≡ chunk_id str path i))
          → ((k : String) → Sets.member (victims d path) k ≡ true → Sets.member rids k ≡ true)
          → All (λ e. Sets.member rids e.0 ≡ str_eq e.1.path path) d
      unfolding victims Sets.member
      member-rids [] rids keyed own sub = tt
      member-rids ((rid, rec) ∷ d) rids (e, keyed) own sub =
          elim (Bool-cases (str_eq rec.path path)) [
            | inl s ↦ (
              sub rid (ground (arith, s, eq_iff rid rid)) ∙ sym s,
              member-rids d rids keyed own (λ k m. sub k (ground (arith, s, m))),
            )
            | inr s ↦ (
              elim (Bool-cases (Sets.member rids rid)) [
                | inl t ↦
                    let (i, k) = own rid t in
                    let (same, index) =
                      chunk_id_inj str dec rec.path path rec.index i (sym e ∙ k) in
                    absurd (ground (arith, s, same, eq_iff rec.path path))
                | inr t ↦ t ∙ sym s
              ],
              member-rids d rids keyed own (λ k m. sub k (ground (arith, s, m))),
            )
          ]

      -- Removing the keys found under a path leaves the entries of all other paths.
      pub remove_all-victims :
          (d : Records F) → IsKeyed d → remove_all d (victims d path) ≡ elsewhere d path
      remove_all-victims d keyed =
          remove_all-elsewhere d (victims d path) path
            (member-rids d (victims d path) keyed (λ k m. victims-key d path k keyed m) (λ k m. m))

      elsewhere-IsKeyed : (d : Records F) → IsKeyed d → IsKeyed (elsewhere d path)
      elsewhere-IsKeyed [] h = h
      elsewhere-IsKeyed ((rid, rec) ∷ d) (e, h) = elim (Bool-cases (str_eq rec.path path)) [
        | inl s ↦ rw s (elsewhere-IsKeyed d h)
        | inr s ↦ rw s (e, elsewhere-IsKeyed d h)
      ]
