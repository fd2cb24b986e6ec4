-- ===== src/Authority/Pomerium.antt =====
-- src/citadel/services/authority/pomerium.py: the zone of a path. Paths and prefixes are texts,
-- and a zone is the string that the source uses.
pub mod Zones
use the_soverign_imperia_cit.Base.{
  ℕ, suc, String, List, [], ◌∷◌, map, Bool, true, false, ◌||◌, ◌&&◌, ◌==◌, ltb, any, length, str_eq,
  if◌then◌else◌,
}
use the_soverign_imperia_cit.Base.Text.{Text, codes, starts_with, occurs_in, lower}

abbrev pub domi : String
domi = "domi"

abbrev pub militiae : String
militiae = "militiae"

-- `str(path).replace("\\", "/")`
unfoldable pub norm : Text → Text
norm = map (λ c. if c == 0x5c then b'/' else c)

pub record Pomerium : Type 0 where
  pub domi_prefixes : List Text
  pub militiae_prefixes : List Text
  pub default_zone : String

-- A character before the first segment.
unfoldable pub onto_head : ℕ → List Text → List Text
onto_head c [] = (c ∷ []) ∷ []
onto_head c (seg ∷ segs) = (c ∷ seg) ∷ segs

-- `path.split("/")`
unfoldable pub split_at_slash : Text → List Text
unfolding onto_head
split_at_slash [] = [] ∷ []
split_at_slash (c ∷ s) =
    let rest = split_at_slash s in if c == b'/' then [] ∷ rest else onto_head c rest

-- The part of the wall that no configuration moves: the mounted drive and OneDrive folders.
unfoldable pub behind_wall : Text → Bool
unfolding split_at_slash
behind_wall path =
    occurs_in (codes "/mnt/c/") path
    || any (λ seg. starts_with (codes "onedrive") (map lower seg)) (split_at_slash path)

-- One round of a loop of `zone`. The second part of the state is `best_len + 1`.
unfoldable pub round : String → Text → Text → String × ℕ → String × ℕ
round here path prefix best =
    if starts_with (norm prefix) path && ltb best.1 (suc (length (norm prefix)))
    then (here, suc (length (norm prefix)))
    else best

-- The loop over the prefixes of one zone.
unfoldable pub scan : String → Text → List Text → String × ℕ → String × ℕ
unfolding round
scan here path [] best = best
scan here path (prefix ∷ prefixes) best = scan here path prefixes (round here path prefix best)

unfoldable pub zone : Pomerium → Text → String
unfolding behind_wall scan
zone p path =
    let normalized = norm path in
    if behind_wall normalized
    then domi
    else (scan militiae normalized p.militiae_prefixes
        (scan domi normalized p.domi_prefixes (p.default_zone, 0))).0

unfoldable pub in_domi : Pomerium → Text → Bool
unfolding zone
in_domi p path = str_eq (zone p path) domi
