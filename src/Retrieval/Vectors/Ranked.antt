-- ===== src/Retrieval/Vectors/Ranked.antt =====
-- The order of the results of a query.
use mathlib.Core.List.{Perm}
use mathlib.Core.List.Perm
use mathlib.Core.Path.{subst}
use the_soverign_imperia_cit.Base.{
  ℕ, zero, suc, ◌≤◌, ◌≡◌, refl, sym, ap, List, [], ◌∷◌, ◌++◌, true, false, Option, map, length,
  take, drop, select, All, arith, Bool-cases, inl, inr,
}
use the_soverign_imperia_cit.Retrieval.Vectors.{
  Floats, Numpy, LocalBackend, Scored, zip, insert, sort_scored, values, batch_cosine,
  backend_query, query,
}

-- What comparing floats does, NaN apart.
pub record IsOrder {F : Type 0} (fl : Floats F) : Type 0 where
  pub asym : (a b : F) → fl.lt a b ≡ true → fl.lt b a ≡ false
  pub trans : (a b c : F) → fl.lt a b ≡ false → fl.lt b c ≡ false → fl.lt a c ≡ false

module _ {F : Type 0} (fl : Floats F) where
  -- No later item has a higher score.
  abbrev pub IsDescending : List (Scored F) → Type 0
  IsDescending [] = Unit
  IsDescending (x ∷ xs) = All (λ y. fl.lt x.0 y.0 ≡ false) xs × IsDescending xs

  insert-All :
      (P : Scored F → Type 0) (x : Scored F) (ys : List (Scored F))
      → P x
      → All P ys
      → All P (insert fl x ys)
  unfolding insert
  insert-All P x [] p h = (p, tt)
  insert-All P x (y ∷ ys) p (q, h) = elim (Bool-cases (fl.lt x.0 y.0)) [
    | inl e ↦ rw e (q, insert-All P x ys p h)
    | inr e ↦ rw e (p, (q, h))
  ]

  insert-Perm : (x : Scored F) (ys : List (Scored F)) → Perm (insert fl x ys) (x ∷ ys)
  unfolding insert
  insert-Perm x [] = Perm.rfl
  insert-Perm x (y ∷ ys) = elim (Bool-cases (fl.lt x.0 y.0)) [
    | inl e ↦ rw e (Perm.trans (Perm.cons y (insert-Perm x ys)) (Perm.swap x y ys))
    | inr e ↦ rw e Perm.rfl
  ]

  sort_scored-Perm : (xs : List (Scored F)) → Perm (sort_scored fl xs) xs
  unfolding sort_scored
  sort_scored-Perm [] = Perm.rfl
  sort_scored-Perm (x ∷ xs) =
      Perm.trans (insert-Perm x (sort_scored fl xs)) (Perm.cons x (sort_scored-Perm xs))

  module _ (o : IsOrder fl) where
    All-below :
        (a b : F) (ys : List (Scored F))
        → fl.lt a b ≡ false
        → All (λ y. fl.lt b y.0 ≡ false) ys
        → All (λ y. fl.lt a y.0 ≡ false) ys
    All-below a b [] e h = tt
    All-below a b (y ∷ ys) e (k, h) = (o.trans a b y.0 e k, All-below a b ys e h)

    insert-IsDescending :
        (x : Scored F) (ys : List (Scored F)) → IsDescending ys → IsDescending (insert fl x ys)
    unfolding insert
    insert-IsDescending x [] h = (tt, tt)
    insert-IsDescending x (y ∷ ys) (above, h) = elim (Bool-cases (fl.lt x.0 y.0)) [
      | inl e ↦ rw e (
        insert-All (λ z. fl.lt y.0 z.0 ≡ false) x ys (o.asym x.0 y.0 e) above,
        insert-IsDescending x ys h,
      )
      | inr e ↦ rw e ((e, All-below x.0 y.0 ys e above), (above, h))
    ]

    sort_scored-IsDescending : (xs : List (Scored F)) → IsDescending (sort_scored fl xs)
    unfolding sort_scored
    sort_scored-IsDescending [] = tt
    sort_scored-IsDescending (x ∷ xs) = insert-IsDescending x _ (sort_scored-IsDescending xs)

take-drop : {A : Type 0} (n : ℕ) (xs : List A) → take n xs ++ drop n xs ≡ xs
take-drop zero xs = refl
take-drop (suc n) [] = refl
take-drop (suc n) (x ∷ xs) = ap (λ t. x ∷ t) (take-drop n xs)

length-take-le : {A : Type 0} (n : ℕ) (xs : List A) → length (take n xs) ≤ n
length-take-le zero xs = omega arith
length-take-le (suc n) [] = omega arith
length-take-le (suc n) (x ∷ xs) = omega (arith, length-take-le n xs)

-- The results and the records left out are the records in descending order, the results are few enough,
-- and those that reach the lowest score are given.
abbrev pub IsRanked :
    {F : Type 0} → Floats F → Option (Numpy F) → LocalBackend F → List F → ℕ → F → Type 0
IsRanked {F = F} fl np b vector top_k min_score =
    (left : List (Scored F)) × Perm (backend_query fl np b vector top_k ++ left)
      (zip (batch_cosine fl np vector (map (λ r. r.vector) (values b.records))) (values b.records))
    × IsDescending fl (backend_query fl np b vector top_k ++ left)
    × (length (backend_query fl np b vector top_k) ≤ top_k)
    × (query fl np b vector top_k min_score
        ≡ select (λ p. fl.ge p.0 min_score) (backend_query fl np b vector top_k))

-- Let comparing floats be asymmetric and its negation transitive, as it is when no score is NaN. Then
-- the backend's results are at most `top_k` of the stored records, each with its cosine against the
-- query, and they and the records left out, in one list, are all the records in an order of
-- descending scores: no record left out has a higher score than a result. `VectorStore.query` gives
-- those of the results whose score reaches `min_score`.
pub query-IsRanked :
    {F : Type 0} (fl : Floats F) (np : Option (Numpy F)) (b : LocalBackend F) (vector : List F)
    (top_k : ℕ) (min_score : F)
    → IsOrder fl
    → IsRanked fl np b vector top_k min_score
unfolding query backend_query
query-IsRanked fl np b vector top_k min_score o =
    let scored =
      zip (batch_cosine fl np vector (map (λ r. r.vector) (values b.records))) (values b.records) in
    let whole = take-drop top_k (sort_scored fl scored) in
    (
      drop top_k (sort_scored fl scored),
      subst (λ xs. Perm xs scored) (sym whole) (sort_scored-Perm fl scored),
      subst (IsDescending fl) (sym whole) (sort_scored-IsDescending fl o scored),
      length-take-le top_k (sort_scored fl scored),
      refl,
    )
