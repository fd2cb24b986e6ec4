-- ===== src/Examples/Control.antt =====
-- Delegation, trust, the dual gate and the sacrosanct registry at concrete inputs
-- (src/citadel/services/authority).
use the_soverign_imperia_cit.Base.{
  ◌≡◌, ◌≢◌, ◌↔◌, refl, List, [], ◌∷◌, true, false, leb, arith, if◌then◌else◌, String,
}
use the_soverign_imperia_cit.Base.Text.{codes}
use the_soverign_imperia_cit.Base.Sets
use the_soverign_imperia_cit.Base.Dict
use the_soverign_imperia_cit.Authority.Fasces.{
  write_file, delete_path, grants, effective_mask, attenuate,
}
use the_soverign_imperia_cit.Authority.Pomerium.{Pomerium, in_domi, norm, split_at_slash}
use the_soverign_imperia_cit.Base.Text.{starts_with, occurs_in, lower}
use the_soverign_imperia_cit.Authority.Lease.{LeaseReaper}
use the_soverign_imperia_cit.Authority.Empire.{Imperium, permits, delegate}
use the_soverign_imperia_cit.Authority.Empire.Delegation
use the_soverign_imperia_cit.Authority.Empire.Delegation.{Appointment, chain}
use the_soverign_imperia_cit.Authority.Trust
use the_soverign_imperia_cit.Authority.Trust.{
  Verdict, pass, fail, capital, record_verdict, is_citizen, requires_dual_gate,
}
use the_soverign_imperia_cit.Authority.Trust.History
use the_soverign_imperia_cit.Authority.Trust.History.{Entry, run, condemned, clean_passes}
use the_soverign_imperia_cit.Authority.Intercessio.{Gate, dual_gate, approved, sorted}
use the_soverign_imperia_cit.Authority.Intercessio.Families
use the_soverign_imperia_cit.Authority.Intercessio.Families.{HasPassed}
use the_soverign_imperia_cit.Authority.Tribune.{SacrosanctRegistry}

abbrev guarded : Pomerium
guarded = record {
  domi_prefixes = codes "/repo" ∷ [];
  militiae_prefixes = [];
  default_zone = "militiae";
}

abbrev officer : Imperium
officer = record {
  imperium_id = "o";
  rank = "r";
  mask = 0xffff_0000_0000_003f;
  pomerium = guarded;
  lease_id = "l";
}

abbrev legate : Appointment
legate = record { legate_id = "a"; requested_mask = 3; lease_id = "la"; rank = "legatus" }

officer_may : permits (chain officer (legate ∷ [])) write_file (codes "/tmp") ≡ true
unfolding chain permits delegate grants effective_mask in_domi occurs_in norm lower attenuate
officer_may = refl

permits-chain_example : permits officer write_file (codes "/tmp") ≡ true
permits-chain_example =
    Delegation.permits-chain officer (legate ∷ []) write_file (codes "/tmp") officer_may

permits-domi_example : permits (chain officer (legate ∷ [])) delete_path (codes "/repo/a") ≡ false
unfolding in_domi norm split_at_slash starts_with occurs_in lower
permits-domi_example =
    Delegation.permits-domi officer (legate ∷ []) delete_path (codes "/repo/a") (omega arith) refl

abbrev no_leases : LeaseReaper
no_leases = record { heap = []; leases = []; revoked = []; counter = 0 }

abbrev passes : List Entry
passes =
    record { component = "g"; verdict = pass; axe = false }
    ∷ record { component = "g"; verdict = pass; axe = true }
    ∷ record { component = "g"; verdict = pass; axe = false }
    ∷ []

citizen_test :
    (is_citizen (run (Trust.init 2) passes) "g" ≡ true)
    × (is_citizen (run (Trust.init 3) passes) "g" ≡ false)
unfolding is_citizen run record_verdict Trust.init Dict.get Dict.put Sets.member
citizen_test = (refl, refl)

is_citizen-run_example :
    is_citizen (run (Trust.init 2) passes) "g"
    ≡ (if condemned "g" passes then false else leb 2 (clean_passes "g" passes))
is_citizen-run_example = History.is_citizen-run 2 passes "g"

abbrev gates : List Gate
gates =
    record { family = "gemini"; passed = true }
    ∷ record { family = "claude"; passed = true }
    ∷ record { family = "claude"; passed = true }
    ∷ record { family = "other"; passed = false }
    ∷ []

dual_gate_test : dual_gate gates ≡ (true, approved ("claude" ∷ "gemini" ∷ []))
unfolding dual_gate Sets.add sorted
dual_gate_test = refl

dual_gate_iff_example :
    ((dual_gate gates).0 ≡ true)
    ↔ ((f : String) × (g : String) × (f ≢ g) × HasPassed f gates × HasPassed g gates)
dual_gate_iff_example = Families.dual_gate_iff gates

abbrev registry : SacrosanctRegistry
registry = record { protected = 1 ∷ 7 ∷ []; violations = [] }
