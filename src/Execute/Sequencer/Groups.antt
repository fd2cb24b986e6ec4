-- ===== src/Execute/Sequencer/Groups.antt =====
-- The groups by an independent description.
use the_soverign_imperia_cit.Base.{
  String, ◌≡◌, refl, sym, List, [], ◌∷◌, ◌++◌, map, true, false, none, some, select, str_eq, arith,
  eq_iff, Option-cases, inl, inr, if◌then◌else◌,
}
use mathlib.Core.List.{append-nil, append_assoc}
use the_soverign_imperia_cit.Base.Dict
use the_soverign_imperia_cit.Base.Dict.{Dict}
use the_soverign_imperia_cit.Base.Sets
use the_soverign_imperia_cit.Execute.Blueprint.{Blueprint}
use the_soverign_imperia_cit.Execute.Sequencer.{gather, pick_groups, sequence}

module _ (key : Blueprint → String) where
  -- The keys in the order in which they first occur, after those that were seen.
  unfoldable pub firsts : List String → List Blueprint → List String
  firsts seen [] = seen
  firsts seen (b ∷ bs) = firsts (if Sets.member seen (key b) then seen else seen ++ key b ∷ []) bs

  -- The blueprints of a key, in their order.
  abbrev pub of_key : String → List Blueprint → List Blueprint
  of_key k bs = select (λ b. str_eq (key b) k) bs

  -- What the loop keeps: under a key of the order stand its blueprints so far.
  abbrev Kept : Dict (List Blueprint) → List String → List Blueprint → Type 0
  Kept groups order done =
      (k : String)
      → (Dict.get groups k ≡ (if Sets.member order k then some (of_key k done) else none))
        × (Sets.member order k ≡ false → of_key k done ≡ [])

  member-snoc :
      (order : List String) (k j : String)
      → Sets.member (order ++ k ∷ []) j ≡ (if str_eq k j then true else Sets.member order j)
  unfolding Sets.member
  member-snoc [] k j = refl
  member-snoc (i ∷ order) k j = ground (arith, member-snoc order k j)

  of_key-snoc :
      (k : String) (done : List Blueprint) (b : Blueprint)
      → of_key k (done ++ b ∷ [])
        ≡ (if str_eq (key b) k then of_key k done ++ b ∷ [] else of_key k done)
  of_key-snoc k [] b = ground arith
  of_key-snoc k (d ∷ done) b = ground (arith, of_key-snoc k done b)

  Kept-new :
      (groups : Dict (List Blueprint)) (order : List String) (done : List Blueprint) (b : Blueprint)
      → Kept groups order done
      → Dict.get groups (key b) ≡ none
      → Kept (Dict.put groups (key b) (b ∷ [])) (order ++ key b ∷ []) (done ++ b ∷ [])
  Kept-new groups order done b h e k = ground (
    arith,
    Dict.get-put groups (key b) k (b ∷ []),
    h k,
    h (key b),
    of_key-snoc k done b,
    member-snoc order (key b) k,
    eq_iff (key b) k,
  )

  Kept-old :
      (groups : Dict (List Blueprint)) (order : List String) (done group : List Blueprint)
      (b : Blueprint)
      → Kept groups order done
      → Dict.get groups (key b) ≡ some group
      → Kept (Dict.put groups (key b) (group ++ b ∷ [])) order (done ++ b ∷ [])
  Kept-old groups order done group b h e k = ground (
    arith,
    Dict.get-put groups (key b) k (group ++ b ∷ []),
    h k,
    h (key b),
    of_key-snoc k done b,
    eq_iff (key b) k,
  )

  module _ (b : Blueprint) (bs : List Blueprint) (groups : Dict (List Blueprint))
      (order : List String) where
    gather_new :
        Dict.get groups (key b) ≡ none
        → gather key (b ∷ bs) groups order
          ≡ gather key bs (Dict.put groups (key b) (b ∷ [])) (order ++ key b ∷ [])
    unfolding gather
    gather_new e = rw (e, gather) refl

    gather_old :
        (group : List Blueprint)
        → Dict.get groups (key b) ≡ some group
        → gather key (b ∷ bs) groups order
          ≡ gather key bs (Dict.put groups (key b) (group ++ b ∷ [])) order
    unfolding gather
    gather_old group e = rw (e, gather) refl

  gather-Kept :
      (bs done : List Blueprint) (groups : Dict (List Blueprint)) (order : List String)
      → Kept groups order done
      → let (groups', order') = gather key bs groups order in
        Kept groups' order' (done ++ bs) × (order' ≡ firsts order bs)
  unfolding gather firsts
  gather-Kept [] done groups order h = rw (append-nil done) (h, refl)
  gather-Kept (b ∷ bs) done groups order h = elim (Option-cases (Dict.get groups (key b))) [
    | inl e ↦
        rw (gather_new b bs groups order e, sym (append_assoc done (b ∷ []) bs), absent e)
          (gather-Kept bs (done ++ b ∷ []) (Dict.put groups (key b) (b ∷ [])) (order ++ key b ∷ [])
            (Kept-new groups order done b h e))
    | inr (group, e) ↦
        rw
          (
            gather_old b bs groups order group e,
            sym (append_assoc done (b ∷ []) bs),
            present group e,
          )
          (gather-Kept bs (done ++ b ∷ []) (Dict.put groups (key b) (group ++ b ∷ [])) order
            (Kept-old groups order done group b h e))
  ]
    where
      absent : Dict.get groups (key b) ≡ none → Sets.member order (key b) ≡ false
      absent e = ground (arith, h (key b), e)

      present :
          (group : List Blueprint)
          → Dict.get groups (key b) ≡ some group
          → Sets.member order (key b) ≡ true
      present group e = ground (arith, h (key b), e)

  pick_groups-map :
      (groups : Dict (List Blueprint)) (f : String → List Blueprint) (ks : List String)
      → ((k : String) → Sets.member ks k ≡ true → Dict.get groups k ≡ some (f k))
      → pick_groups groups ks ≡ some (map f ks)
  unfolding pick_groups Sets.member
  pick_groups-map groups f [] h = refl
  pick_groups-map groups f (k ∷ ks) h =
      rw
        (
          h k (ground (arith, eq_iff k k)),
          pick_groups-map groups f ks (λ j m. h j (ground arith)),
          pick_groups,
        )
        refl

  -- The sequencer never meets a missing key: it returns one group for each key, in the order in
  -- which the keys first occur, and in it exactly the blueprints of that key, in their order.
  pub sequence_groups :
      (bs : List Blueprint) → sequence key bs ≡ some (map (λ k. of_key k bs) (firsts [] bs))
  unfolding sequence Sets.member Dict.get
  sequence_groups bs =
      let (kept, e) = gather-Kept bs [] [] [] (λ k. ground arith) in
      rw (sym e) (
        pick_groups-map (gather key bs [] []).0 (λ k. of_key k bs) (gather key bs [] []).1
          (λ k m. ground (arith, kept k, m)))
