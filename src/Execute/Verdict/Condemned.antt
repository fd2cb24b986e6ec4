-- ===== src/Execute/Verdict/Condemned.antt =====
-- What is condemned stays condemned, in this process and in the next.
use the_soverign_imperia_cit.Base.{
  String, ◌≡◌, refl, sym, ap, ◌∙◌, List, [], ◌∷◌, ◌++◌, Bool, true, false, Option, none, some,
  str_eq, ◌||◌, ◌&&◌, any, arith, eq_iff, if◌then◌else◌,
}
use the_soverign_imperia_cit.Base.Dict.{Dict}
use the_soverign_imperia_cit.Base.Sets
use the_soverign_imperia_cit.Base.Text.{Text}
use the_soverign_imperia_cit.Execute.Verdict.{
  VerdictLine, blank_line, broken_line, verdict_line, LedgerRoot, VerdictLedger, capital, is_given,
  append_verdict, enter, load_verdicts, open_ledger, record_status, is_condemned,
}

-- Calls of `record`: a digest and a status.
unfoldable pub record_all : VerdictLedger → List (String × String) → VerdictLedger
unfolding record_status
record_all l [] = l
record_all l ((d, s) ∷ calls) = record_all (record_status l d s) calls

is_condemned-record_status :
    (l : VerdictLedger) (d s j : String)
    → is_condemned (record_status l d s) j ≡ ((str_eq d j && str_eq s capital) || is_condemned l j)
unfolding record_status is_condemned
is_condemned-record_status l d s j = ground (arith, eq_iff d j, Sets.member-add l.condemned_set d j)

-- After any calls of `record`, exactly those digests are condemned that were so before or that a
-- call gave the status CAPITAL, whatever the other calls said of them, earlier or later.
pub is_condemned-record_all :
    (l : VerdictLedger) (calls : List (String × String)) (j : String)
    → is_condemned (record_all l calls) j
      ≡ (any (λ c. str_eq c.0 j && str_eq c.1 capital) calls || is_condemned l j)
unfolding record_all
is_condemned-record_all l [] j = refl
is_condemned-record_all l ((d, s) ∷ calls) j = ground (
  arith,
  is_condemned-record_all (record_status l d s) calls j,
  is_condemned-record_status l d s j,
)

-- Every line is JSON or blank, and a digest is a text that is not empty.
abbrev pub AreRead : List VerdictLine → Type 0
AreRead [] = Unit
AreRead (broken_line ∷ lines) = ⊥
AreRead (blank_line ∷ lines) = AreRead lines
AreRead (verdict_line d s ∷ lines) = AreRead lines

abbrev pub AreNamed : List (String × String) → Type 0
AreNamed [] = Unit
AreNamed ((d, s) ∷ calls) = (str_eq d "" ≡ false) × AreNamed calls

AreRead-append :
    (lines : List VerdictLine) (d s : Option String)
    → AreRead lines
    → AreRead (lines ++ verdict_line d s ∷ [])
AreRead-append [] d s h = tt
AreRead-append (broken_line ∷ lines) d s h = h
AreRead-append (blank_line ∷ lines) d s h = AreRead-append lines d s h
AreRead-append (verdict_line a b ∷ lines) d s h = AreRead-append lines d s h

load_verdicts-append :
    (lines : List VerdictLine) (line : VerdictLine) (l : VerdictLedger)
    → AreRead lines
    → load_verdicts (lines ++ line ∷ []) l ≡ load_verdicts (line ∷ []) (load_verdicts lines l)
unfolding load_verdicts
load_verdicts-append [] line l h = refl
load_verdicts-append (broken_line ∷ lines) line l h = absurd h
load_verdicts-append (blank_line ∷ lines) line l h = load_verdicts-append lines line l h
load_verdicts-append (verdict_line a b ∷ lines) line l h = load_verdicts-append lines line _ h

-- The root plays no part in the loading of lines.
rooted :
    (lines : List VerdictLine) (l : VerdictLedger) (r : Option LedgerRoot)
    → load_verdicts lines (record l { root = r }) ≡ record (load_verdicts lines l) { root = r }
unfolding load_verdicts enter
rooted [] l r = refl
rooted (broken_line ∷ lines) l r = refl
rooted (blank_line ∷ lines) l r = rooted lines l r
rooted (verdict_line none b ∷ lines) l r = rooted lines l r
rooted (verdict_line (some d) b ∷ lines) l r =
    ap (load_verdicts lines) (swap (str_eq d "")) ∙ rooted lines _ r
  where
    swap :
        (e : Bool)
        → (if (if e then false else true)
            then enter (record l { root = r }) d b
            else record l { root = r })
          ≡ record (if (if e then false else true) then enter l d b else l) { root = r }
    swap true = refl
    swap false = refl

abbrev pub empty_ledger : LedgerRoot → VerdictLedger
empty_ledger r = record { root = some r; verdicts = []; condemned_set = [] }

entered :
    (l : VerdictLedger) (d s : String)
    → str_eq d "" ≡ false
    → load_verdicts (verdict_line (some d) (some s) ∷ []) l ≡ enter l d (some s)
unfolding load_verdicts is_given
entered l d s n = rw n refl

-- One call on a ledger just opened leaves what opening the file with the new line gives.
one :
    (lines : List VerdictLine) (blobs : Dict Text) (d s : String)
    → AreRead lines
    → str_eq d "" ≡ false
    → record_status (open_ledger (some (record { lines = lines; pre_images = blobs }))) d s
      ≡ open_ledger (
          some
            (record { lines = lines ++ verdict_line (some d) (some s) ∷ []; pre_images = blobs }))
unfolding record_status open_ledger enter
one lines blobs d s h n =
    let r : LedgerRoot = record { lines = lines; pre_images = blobs } in
    let line : VerdictLine = verdict_line (some d) (some s) in
    let r' : LedgerRoot = record { lines = lines ++ line ∷ []; pre_images = blobs } in
    let x : VerdictLedger = load_verdicts lines (empty_ledger r) in
    let root_of_x : x.root ≡ some r = ap (λ l. l.root) (rooted lines (empty_ledger r) (some r)) in
    ap (λ q. record (enter x d (some s)) { root = append_verdict q line }) root_of_x
    ∙ sym (
        load_verdicts-append lines line (empty_ledger r') h
        ∙ ap (load_verdicts (line ∷ [])) (rooted lines (empty_ledger r) (some r'))
        ∙ entered (record x { root = some r' }) d s n)

run_from :
    (lines : List VerdictLine) (blobs : Dict Text) (calls : List (String × String))
    → AreRead lines
    → AreNamed calls
    → (after : List VerdictLine) × AreRead after
      × (record_all (open_ledger (some (record { lines = lines; pre_images = blobs }))) calls
          ≡ open_ledger (some (record { lines = after; pre_images = blobs })))
unfolding record_all
run_from lines blobs [] h n = (lines, h, refl)
run_from lines blobs ((d, s) ∷ calls) h n =
    let line = verdict_line (some d) (some s) in
    let (after, h', e) =
      run_from (lines ++ line ∷ []) blobs calls (AreRead-append lines (some d) (some s) h) n.1 in
    (after, h', ap (λ l. record_all l calls) (one lines blobs d s h n.0) ∙ e)

root-open_ledger : (r : LedgerRoot) → (open_ledger (some r)).root ≡ some r
unfolding open_ledger
root-open_ledger r = ap (λ l. l.root) (rooted r.lines (empty_ledger r) (some r))

-- From a file whose lines are all JSON or blank and calls whose digests are not empty, the ledger
-- that a new process opens on the file that is left is the ledger of this process.
pub open_ledger-record_all :
    (r : LedgerRoot) (calls : List (String × String))
    → AreRead r.lines
    → AreNamed calls
    → open_ledger (record_all (open_ledger (some r)) calls).root
      ≡ record_all (open_ledger (some r)) calls
open_ledger-record_all r calls h n =
    let (after, h', e) = run_from r.lines r.pre_images calls h n in
    let r' : LedgerRoot = record { lines = after; pre_images = r.pre_images } in
    ap (λ l. open_ledger l.root) e ∙ ap open_ledger (root-open_ledger r') ∙ sym e
