-- ===== src/Retrieval/Service/Packed.antt =====
-- What a capsule of context holds.
use mathlib.Core.Path.{subst}
use the_soverign_imperia_cit.Base.{
  ℕ, ◌+◌, ◌≤◌, ◌<◌, String, ◌≡◌, refl, sym, ap, ◌∙◌, inl, inr, List, [], ◌∷◌, ◌++◌, Bool, true,
  false, not, Option, arith, str_eq, eq_iff, All, Bool-cases, ltb, select,
}
use the_soverign_imperia_cit.Base.Sets
use the_soverign_imperia_cit.Base.Sets.{member-add}
use the_soverign_imperia_cit.Base.Text.{Text}
use the_soverign_imperia_cit.Retrieval.Chunker.{byte_length}
use the_soverign_imperia_cit.Retrieval.Vectors.{Floats, Scored, chunk_id}
use the_soverign_imperia_cit.Retrieval.Service.{Hit, search, with_hit, pack, context}

-- The bytes of the snippets.
abbrev pub total_bytes : {F : Type 0} → List (Hit F) → ℕ
total_bytes [] = 0
total_bytes (h ∷ hits) = byte_length h.snippet + total_bytes hits

module _ {F : Type 0} (str : ℕ → String) where
  abbrev pub key : Hit F → String
  key h = chunk_id str h.path h.start_byte

  -- No key comes twice.
  abbrev pub IsDistinct : List (Hit F) → Type 0
  IsDistinct [] = Unit
  IsDistinct (h ∷ hits) = All (λ g. str_eq (key h) (key g) ≡ false) hits × IsDistinct hits

  abbrev unlike : String → Hit F → Bool
  unlike k g = not (str_eq k (key g))

  -- The hits without those whose key an earlier hit has.
  abbrev pub firsts : List (Hit F) → List (Hit F)
  firsts [] = []
  firsts (h ∷ hits) = h ∷ select (unlike (key h)) (firsts hits)

  -- Nothing is left out, or the first one left out does not fit.
  abbrev pub IsFull : ℕ → ℕ → List (Hit F) → Type 0
  IsFull budget total [] = Unit
  IsFull budget total (h ∷ left) = budget < total + byte_length h.snippet

  abbrev is_new : List String → Hit F → Bool
  is_new seen g = not (Sets.member seen (key g))

  -- The bytes are counted and within the budget, no key comes twice or has been seen, and the chunks are
  -- the first of the hits that are new, as many as fit.
  abbrev pub IsPacked : ℕ → List String → ℕ → List (Hit F) → List (Hit F) × ℕ → Type 0
  IsPacked budget seen used hits (packed, total) =
      (total ≡ used + total_bytes packed)
      × (total ≤ budget)
      × IsDistinct packed
      × All (λ g. Sets.member seen (key g) ≡ false) packed
      × (left : List (Hit F)) × (select (is_new seen) (firsts hits) ≡ packed ++ left)
      × IsFull budget total left

  select-unlike :
      (seen : List String) (k : String) (hits : List (Hit F))
      → Sets.member seen k ≡ true
      → select (is_new seen) (select (unlike k) hits) ≡ select (is_new seen) hits
  unfolding Sets.member
  select-unlike seen k [] e = refl
  select-unlike seen k (g ∷ hits) e = ground (
    arith,
    select-unlike seen k hits e,
    eq_iff k (key g),
    λ (p : k ≡ key g). ap (Sets.member seen) (sym p) ∙ e,
  )

  select_added :
      (seen : List String) (k : String) (hits : List (Hit F))
      → select (is_new seen) (select (unlike k) hits) ≡ select (is_new (Sets.add seen k)) hits
  select_added seen k [] = refl
  select_added seen k (g ∷ hits) =
      ground (arith, select_added seen k hits, member-add seen k (key g))

  unseen :
      (seen : List String) (k : String) (ps : List (Hit F))
      → All (λ g. Sets.member (Sets.add seen k) (key g) ≡ false) ps
      → All (λ g. Sets.member seen (key g) ≡ false) ps × All (λ g. str_eq k (key g) ≡ false) ps
  unseen seen k [] h = (tt, tt)
  unseen seen k (p ∷ ps) (e, h) =
      let (a, b) = unseen seen k ps h in
      (
        (ground (arith, e, member-add seen k (key p)), a),
        (ground (arith, e, member-add seen k (key p)), b),
      )

  firsts_seen :
      (seen : List String) (g : Hit F) (hits : List (Hit F))
      → Sets.member seen (key g) ≡ true
      → select (is_new seen) (firsts (g ∷ hits)) ≡ select (is_new seen) (firsts hits)
  firsts_seen seen g hits e = ground (arith, e, select-unlike seen (key g) (firsts hits) e)

  firsts_new :
      (seen : List String) (g : Hit F) (hits : List (Hit F))
      → Sets.member seen (key g) ≡ false
      → select (is_new seen) (firsts (g ∷ hits))
        ≡ g ∷ select (is_new (Sets.add seen (key g))) (firsts hits)
  firsts_new seen g hits e = ground (arith, e, select_added seen (key g) (firsts hits))

  skip-IsPacked :
      (budget : ℕ) (seen : List String) (used : ℕ) (g : Hit F) (hits : List (Hit F))
      (out : List (Hit F) × ℕ)
      → Sets.member seen (key g) ≡ true
      → IsPacked budget seen used hits out
      → IsPacked budget seen used (g ∷ hits) out
  skip-IsPacked budget seen used g hits (packed, total) e (sum, le, distinct, new, left, p, full) =
      (sum, le, distinct, new, left, firsts_seen seen g hits e ∙ p, full)

  take-IsPacked :
      (budget : ℕ) (seen : List String) (used : ℕ) (g : Hit F) (hits : List (Hit F))
      (out : List (Hit F) × ℕ)
      → Sets.member seen (key g) ≡ false
      → IsPacked budget (Sets.add seen (key g)) (used + byte_length g.snippet) hits out
      → IsPacked budget seen used (g ∷ hits) (with_hit g out)
  take-IsPacked budget seen used g hits (packed, total) e (sum, le, distinct, new, left, p, full) =
      let (a, b) = unseen seen (key g) packed new in
      (
        omega (arith, sum),
        le,
        (b, distinct),
        (e, a),
        left,
        firsts_new seen g hits e ∙ ap (λ l. g ∷ l) p,
        full,
      )

  pack_seen :
      (budget : ℕ) (seen : List String) (used : ℕ) (g : Hit F) (hits : List (Hit F))
      → Sets.member seen (key g) ≡ true
      → pack str budget seen used (g ∷ hits) ≡ pack str budget seen used hits
  unfolding pack
  pack_seen budget seen used g hits e = rw (pack, e) refl

  pack_full :
      (budget : ℕ) (seen : List String) (used : ℕ) (g : Hit F) (hits : List (Hit F))
      → Sets.member seen (key g) ≡ false
      → ltb budget (used + byte_length g.snippet) ≡ true
      → pack str budget seen used (g ∷ hits) ≡ ([], used)
  unfolding pack
  pack_full budget seen used g hits e f = rw (pack, e, f) refl

  pack_more :
      (budget : ℕ) (seen : List String) (used : ℕ) (g : Hit F) (hits : List (Hit F))
      → Sets.member seen (key g) ≡ false
      → ltb budget (used + byte_length g.snippet) ≡ false
      → pack str budget seen used (g ∷ hits)
        ≡ with_hit g (pack str budget (Sets.add seen (key g)) (used + byte_length g.snippet) hits)
  unfolding pack
  pack_more budget seen used g hits e f = rw (pack, e, f) refl

  pack-IsPacked :
      (budget : ℕ) (seen : List String) (used : ℕ) (hits : List (Hit F))
      → used ≤ budget
      → IsPacked budget seen used hits (pack str budget seen used hits)
  unfolding pack
  pack-IsPacked budget seen used [] h = (omega arith, h, tt, tt, [], refl, tt)
  pack-IsPacked budget seen used (g ∷ hits) h = elim (Bool-cases (Sets.member seen (key g))) [
    | inl e ↦
        subst (IsPacked budget seen used (g ∷ hits)) (sym (pack_seen budget seen used g hits e))
          (skip-IsPacked budget seen used g hits _ e (pack-IsPacked budget seen used hits h))
    | inr e ↦ elim (Bool-cases (ltb budget (used + byte_length g.snippet))) [
      | inl f ↦
          subst (IsPacked budget seen used (g ∷ hits)) (sym (pack_full budget seen used g hits e f))
            (
              omega arith,
              h,
              tt,
              tt,
              g ∷ select (is_new (Sets.add seen (key g))) (firsts hits),
              firsts_new seen g hits e,
              ground arith,
            )
      | inr f ↦
          subst (IsPacked budget seen used (g ∷ hits)) (sym (pack_more budget seen used g hits e f))
            (take-IsPacked budget seen used g hits _ e (
              pack-IsPacked budget (Sets.add seen (key g)) (used + byte_length g.snippet) hits
                (ground arith)))
    ]
  ]

select_all :
    {F : Type 0} (str : ℕ → String) (hits : List (Hit F)) → select (is_new str []) hits ≡ hits
unfolding Sets.member
select_all str [] = refl
select_all str (h ∷ hits) = ap (λ l. h ∷ l) (select_all str hits)

-- Whatever the hits of the search: the capsule's number of bytes is that of its snippets and within the
-- budget, no two of its chunks have the same path and first byte, and the chunks are, in order, the first of
-- the hits without those whose path and first byte an earlier hit has, up to the end or to one whose snippet
-- does not fit any more.
pub context-IsPacked :
    {F : Type 0} (fl : Floats F) (dense : Text → ℕ → Option (List (Scored F))) (str : ℕ → String)
    (task : Text) (top_k : ℕ) (alpha : F) (budget : ℕ)
    → let capsule = context fl dense str task top_k alpha budget in
      (capsule.used ≡ total_bytes capsule.chunks)
      × (capsule.used ≤ budget)
      × IsDistinct str capsule.chunks
      × (left : List (Hit F)) × (firsts str (search fl dense task top_k alpha)
          ≡ capsule.chunks ++ left)
      × IsFull str budget capsule.used left
unfolding context
context-IsPacked fl dense str task top_k alpha budget =
    let hits = search fl dense task top_k alpha in
    let (sum, le, distinct, new, left, p, full) =
      pack-IsPacked str budget [] 0 hits (omega arith) in
    (omega (arith, sum), le, distinct, left, sym (select_all str (firsts str hits)) ∙ p, full)
