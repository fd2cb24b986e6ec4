-- ===== src/Execute/Verdict.antt =====
-- src/citadel/services/execute/verdict.py: the ledger of verdicts, the condemned set and the backups
-- of files before a change. A line of the ledger's file is already read as JSON; the digest of a
-- content is a parameter, and what stands under the root is the lines and the blobs.
pub mod Condemned
pub mod Backups
use the_soverign_imperia_cit.Base.{
  String, List, [], ◌∷◌, ◌++◌, Bool, Option, none, some, str_eq, if◌then◌else◌,
}
use the_soverign_imperia_cit.Base.Dict
use the_soverign_imperia_cit.Base.Dict.{Dict}
use the_soverign_imperia_cit.Base.Sets
use the_soverign_imperia_cit.Base.Text.{Text}

abbrev pub pass_verdict : String
pass_verdict = "PASS"

abbrev pub fail_verdict : String
fail_verdict = "FAIL"

abbrev pub capital : String
capital = "CAPITAL"

-- A line: blank, not JSON, or a record with the fields "hash" and "status" that `get` finds.
pub data VerdictLine : Type 0 where
  blank_line broken_line : VerdictLine
  verdict_line : Option String → Option String → VerdictLine

pub record LedgerRoot : Type 0 where
  pub lines : List VerdictLine
  pub pre_images : Dict Text

pub record VerdictLedger : Type 0 where
  pub root : Option LedgerRoot
  pub verdicts : Dict (Option String)
  pub condemned_set : List String

-- `status == CAPITAL`
unfoldable pub is_capital : Option String → Bool
is_capital none = Bool.false
is_capital (some s) = str_eq s capital

-- `if digest:`
unfoldable pub is_given : Option String → Bool
is_given none = Bool.false
is_given (some d) = if str_eq d "" then Bool.false else Bool.true

abbrev pub digest_of : Option String → String
digest_of none = ""
digest_of (some d) = d

-- The entry in the dictionary and, for CAPITAL, in the set.
unfoldable pub enter : VerdictLedger → String → Option String → VerdictLedger
unfolding is_capital
enter l digest status = record l {
  verdicts = Dict.put l.verdicts digest status;
  condemned_set = if is_capital status then Sets.add l.condemned_set digest else l.condemned_set;
}

-- The loop of `_load`: a line that is not JSON ends it.
unfoldable pub load_verdicts : List VerdictLine → VerdictLedger → VerdictLedger
unfolding enter is_given
load_verdicts [] l = l
load_verdicts (blank_line ∷ lines) l = load_verdicts lines l
load_verdicts (broken_line ∷ lines) l = l
load_verdicts (verdict_line digest status ∷ lines) l =
    load_verdicts lines (if is_given digest then enter l (digest_of digest) status else l)

unfoldable pub open_ledger : Option LedgerRoot → VerdictLedger
unfolding load_verdicts
open_ledger none = record { root = none; verdicts = []; condemned_set = [] }
open_ledger (some r) =
    load_verdicts r.lines (record { root = some r; verdicts = []; condemned_set = [] })

abbrev pub append_verdict : Option LedgerRoot → VerdictLine → Option LedgerRoot
append_verdict none line = none
append_verdict (some r) line = some (record r { lines = r.lines ++ line ∷ [] })

-- `record` of the ledger.
unfoldable pub record_status : VerdictLedger → String → String → VerdictLedger
unfolding enter
record_status l content_hash status = record (enter l content_hash (some status)) {
  root = append_verdict l.root (verdict_line (some content_hash) (some status));
}

unfoldable pub condemn : VerdictLedger → String → VerdictLedger
unfolding record_status
condemn l content_hash = record_status l content_hash capital

unfoldable pub is_condemned : VerdictLedger → String → Bool
is_condemned l content_hash = Sets.member l.condemned_set content_hash

unfoldable pub verdict : VerdictLedger → String → Option String
verdict l content_hash = elim (Dict.get l.verdicts content_hash) [
  | none ↦ none
  | some status ↦ status
]

-- `if not dest.exists(): dest.write_bytes(content)`
unfoldable pub store_blob : Dict Text → String → Text → Dict Text
store_blob blobs digest content = elim (Dict.get blobs digest) [
  | none ↦ Dict.put blobs digest content
  | some blob ↦ blobs
]

-- `backup` of a file whose content `read_bytes` gives; `none` is no such file or no permission.
unfoldable pub backup :
    (Text → String) → VerdictLedger → Option Text → VerdictLedger × Option String
unfolding store_blob
backup digest l none = (l, none)
backup digest l (some content) = elim l.root [
  | none ↦ (l, none)
  | some r ↦
      let d : String = digest content in
      (
        record l { root = some (record r { pre_images = store_blob r.pre_images d content }) },
        some d,
      )
]
