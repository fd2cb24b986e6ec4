-- ===== src/Authority/Pomerium/Zones.antt =====
-- The zone of a path against the rule of the longest prefix.
use the_soverign_imperia_cit.Base.{
  ℕ, suc, max, String, ◌≡◌, ap, ◌∙◌, List, [], ◌∷◌, Bool, true, false, ltb, length, arith, eq_iff,
  sym, ◌↔◌, if◌then◌else◌, Bool-cases, inl, inr,
}
use the_soverign_imperia_cit.Base.Text.{Text, starts_with}
use the_soverign_imperia_cit.Authority.Pomerium.{
  Pomerium, domi, militiae, norm, behind_wall, round, scan, zone, in_domi,
}

-- One more than the length of a prefix of the path, and 0 for another text.
unfoldable pub weight : Text → Text → ℕ
weight path prefix = if starts_with (norm prefix) path then suc (length (norm prefix)) else 0

-- The greatest weight in a list.
unfoldable pub longest : Text → List Text → ℕ
longest path [] = 0
longest path (prefix ∷ prefixes) = max (weight path prefix) (longest path prefixes)

-- What a zone claims when its best weight is `w` and another's was `best`.
abbrev claim : String → ℕ → String × ℕ → String × ℕ
claim here w (z, best) = ((if ltb best w then here else z), max best w)

claim-claim :
    (here z : String) (best v w : ℕ)
    → claim here w (claim here v (z, best)) ≡ claim here (max v w) (z, best)
claim-claim here z best v w = ground arith

round_lem :
    (here : String) (path prefix : Text) (z : String) (best : ℕ)
    → round here path prefix (z, best) ≡ claim here (weight path prefix) (z, best)
unfolding round weight
round_lem here path prefix z best = ground arith

claim-zero : (here z : String) (best : ℕ) → (z, best) ≡ claim here 0 (z, best)
claim-zero here z best = ground arith

-- A loop keeps its zone unless a strictly longer prefix is in its list.
scan_lem :
    (here : String) (path : Text) (prefixes : List Text) (z : String) (best : ℕ)
    → scan here path prefixes (z, best) ≡ claim here (longest path prefixes) (z, best)
unfolding scan longest
scan_lem here path [] z best = claim-zero here z best
scan_lem here path (prefix ∷ prefixes) z best =
    ap (scan here path prefixes) (round_lem here path prefix z best)
    ∙ scan_lem here path prefixes (claim here (weight path prefix) (z, best)).0
        (claim here (weight path prefix) (z, best)).1
    ∙ claim-claim here z best (weight path prefix) (longest path prefixes)

two_scans :
    (path : Text) (ds ms : List Text) (z : String)
    → scan militiae path ms (scan domi path ds (z, 0))
      ≡ claim militiae (longest path ms) (claim domi (longest path ds) (z, 0))
two_scans path ds ms z =
    ap (scan militiae path ms) (scan_lem domi path ds z 0)
    ∙ scan_lem militiae path ms (claim domi (longest path ds) (z, 0)).0
        (claim domi (longest path ds) (z, 0)).1

-- The wall first, then the longer of the longest prefixes, the protected one on a tie, then the
-- default.
abbrev pub decide_zone : Bool → ℕ → ℕ → String → String
decide_zone wall d m default_zone =
    if wall then domi else if ltb d m then militiae else if ltb 0 d then domi else default_zone

claims_decide :
    (d m : ℕ) (z : String) → (claim militiae m (claim domi d (z, 0))).0 ≡ decide_zone false d m z
claims_decide d m z = ground arith

-- The two loops of `zone` compute the rule: a path behind the wall is protected under every
-- configuration, otherwise the longest matching prefix decides, a tie protects, and a path that no
-- prefix matches has the default zone.
pub zone_follows_rule :
    (p : Pomerium) (path : Text)
    → zone p path
      ≡ decide_zone
          (behind_wall (norm path))
          (longest (norm path) p.domi_prefixes)
          (longest (norm path) p.militiae_prefixes)
          p.default_zone
unfolding zone
zone_follows_rule p path = elim (Bool-cases (behind_wall (norm path))) [
  | inl e ↦ rw e
  | inr e ↦
      rw (e, two_scans)
        (claims_decide (longest (norm path) p.domi_prefixes)
          (longest (norm path) p.militiae_prefixes) p.default_zone)
]

decide_zone-more :
    (wall : Bool) (w d m : ℕ) (z : String)
    → decide_zone wall d m z ≡ domi
    → decide_zone wall (max w d) m z ≡ domi
decide_zone-more wall w d m z h = ground (arith, eq_iff militiae domi)

in_domi_iff : (p : Pomerium) (path : Text) → (in_domi p path ≡ true) ↔ (zone p path ≡ domi)
unfolding in_domi
in_domi_iff p path = eq_iff (zone p path) domi

-- One more protected prefix never releases a path from the pomerium.
pub in_domi-more_prefixes :
    (p : Pomerium) (prefix path : Text)
    → in_domi p path ≡ true
    → in_domi (record p { domi_prefixes = prefix ∷ p.domi_prefixes }) path ≡ true
unfolding longest
in_domi-more_prefixes p prefix path h =
    (in_domi_iff (record p { domi_prefixes = prefix ∷ p.domi_prefixes }) path).1 (
      rw zone_follows_rule (
        decide_zone-more (behind_wall (norm path)) (weight (norm path) prefix)
          (longest (norm path) p.domi_prefixes) (longest (norm path) p.militiae_prefixes)
          p.default_zone (sym (zone_follows_rule p path) ∙ (in_domi_iff p path).0 h)))
