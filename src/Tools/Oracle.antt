-- ===== src/Tools/Oracle.antt =====
-- tools/citadel_oracle.py: the membership oracle and the freshness of files. The digest of a file's
-- bytes is a parameter.
pub mod Membership
use the_soverign_imperia_cit.Base.{
  ℕ, String, List, [], ◌∷◌, Bool, true, false, not, ◌&&◌, ◌||◌, Option, none, some, map, str_eq,
  length, take, if◌then◌else◌,
}
use the_soverign_imperia_cit.Base.Dict
use the_soverign_imperia_cit.Base.Dict.{Dict}
use the_soverign_imperia_cit.Base.Sets
use the_soverign_imperia_cit.Base.Text.{Text}

-- `content_hash` on what reading the file gives; `none` is an OSError.
unfoldable pub content_hash : (Text → String) → Option Text → String
content_hash digest none = ""
content_hash digest (some bytes) = digest bytes

-- `is_fresh(path, cached_hash)` on what reading the path gives.
unfoldable pub is_fresh : (Text → String) → Option Text → String → Bool
unfolding content_hash
is_fresh digest file cached_hash =
    not (str_eq cached_hash "") && str_eq (content_hash digest file) cached_hash

pub record MembershipOracle : Type 0 where
  pub l0 : List String
  pub adds : List String
  pub tombstones : List String

unfoldable pub init : List String → MembershipOracle
init keys = record { l0 = keys; adds = []; tombstones = [] }

unfoldable pub add : MembershipOracle → String → MembershipOracle
add o key = record o { tombstones = Sets.discard o.tombstones key; adds = Sets.add o.adds key }

unfoldable pub tombstone : MembershipOracle → String → MembershipOracle
tombstone o key = record o {
  adds = Sets.discard o.adds key;
  tombstones = Sets.add o.tombstones key;
}

unfoldable pub contains : MembershipOracle → String → Bool
contains o key =
    if Sets.member o.tombstones key then false else (Sets.member o.adds key || Sets.member o.l0 key)

unfoldable pub absent : MembershipOracle → String → Bool
unfolding contains
absent o key = not (contains o key)

pub record Stats : Type 0 where
  pub l0 : ℕ
  pub adds : ℕ
  pub tombstones : ℕ

unfoldable pub stats : MembershipOracle → Stats
stats o = record { l0 = length o.l0; adds = length o.adds; tombstones = length o.tombstones }

-- What `json.loads` gives: a dictionary by its keys, or something else.
pub data Parsed : Type 0 where
  keyed : List String → Parsed
  other : Parsed

-- `load_symbol_keys` on what reading and parsing gives; `none` is an OSError or a ValueError.
unfoldable pub load_symbol_keys : Option Parsed → List String
load_symbol_keys none = []
load_symbol_keys (some (keyed keys)) = keys
load_symbol_keys (some other) = []

pub record GraphView : Type 0 where
  pub node : String
  pub children : List String
  pub total_count : ℕ

abbrev children_of : Option (List String) → List String
children_of none = []
children_of (some children) = children

unfoldable pub degree_one : Dict (List String) → String → ℕ → GraphView
degree_one adjacency node k =
    let children = children_of (Dict.get adjacency node) in
    record { node = node; children = take k children; total_count = length children }
