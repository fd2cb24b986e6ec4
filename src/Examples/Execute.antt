-- ===== src/Examples/Execute.antt =====
-- The theorems on verdicts, admission, sequences, changes and memory at concrete inputs.
use the_soverign_imperia_cit.Base.{
  ℕ, ◌+◌, ◌≤◌, String, List, [], ◌∷◌, map, ◌≡◌, refl, length, select, true, false, none, some, inr,
  arith,
}
use the_soverign_imperia_cit.Base.Dict
use the_soverign_imperia_cit.Base.Text.{Text, codes}
use the_soverign_imperia_cit.Execute.Blueprint.{Blueprint, RunSpec}
use the_soverign_imperia_cit.Execute.Policy.{Ratio}
use the_soverign_imperia_cit.Execute.Verdict.{LedgerRoot, VerdictLedger, blank_line, open_ledger}
use the_soverign_imperia_cit.Execute.Verdict.Condemned.{record_all, open_ledger-record_all}
use the_soverign_imperia_cit.Execute.Verdict.Backups.{AreAddressed}
use the_soverign_imperia_cit.Execute.Arbitrator.{new_arbitrator, is_recent}
use the_soverign_imperia_cit.Execute.Arbitrator.Rate.{arbitrate_all, admitted_within}
use the_soverign_imperia_cit.Execute.Sequencer.{by_tier, sequence}
use the_soverign_imperia_cit.Execute.Sequencer.Groups.{firsts, of_key, sequence_groups}
use the_soverign_imperia_cit.Execute.Coding
use the_soverign_imperia_cit.Execute.Coding.{World, CodingTools}
use the_soverign_imperia_cit.Execute.Local.Hardware.{weight, fit_run}
use the_soverign_imperia_cit.Execute.Local.Fits.{Fits, fit_run-Fits}

abbrev calls : List (String × String)
calls = ("aa", "CAPITAL") ∷ ("aa", "PASS") ∷ ("bb", "FAIL") ∷ []

abbrev root : LedgerRoot
root = record { lines = blank_line ∷ []; pre_images = [] }

open_ledger-record_all_example :
    open_ledger (record_all (open_ledger (some root)) calls).root
    ≡ record_all (open_ledger (some root)) calls
open_ledger-record_all_example = open_ledger-record_all root calls tt (refl, (refl, (refl, tt)))

-- A digest that tells the empty file from all others.
abbrev digest : Text → String
digest [] = "empty"
digest (c ∷ content) = "other"

abbrev ledger : VerdictLedger
ledger = record { root = some root; verdicts = []; condemned_set = [] }

no_blobs : AreAddressed digest []
unfolding Dict.get
no_blobs d b e = ground arith

abbrev task : String → Blueprint
task tier = record {
  task_id = "t";
  instruction = codes "rename";
  assigned_tier = tier;
  context = [];
  context_token_budget = 8000;
  injection_anchors = [];
  allowed_files = "a.py" ∷ [];
}

abbrev requests : List (ℕ × Blueprint)
requests = (0, task "cheap") ∷ (10, task "cheap") ∷ (20, task "cheap") ∷ []

admitted_within_example :
    length (select (is_recent 20) (arbitrate_all (new_arbitrator 2) [] requests).1) ≤ 2
admitted_within_example =
    admitted_within 2 0 requests (omega arith, (omega arith, (omega arith, tt)))

abbrev mixed : List Blueprint
mixed = task "cheap" ∷ task "ultra" ∷ task "cheap" ∷ []

sequence_groups_example :
    sequence by_tier mixed ≡ some (map (λ k. of_key by_tier k mixed) (firsts by_tier [] mixed))
sequence_groups_example = sequence_groups by_tier mixed

abbrev spec : RunSpec
spec = record {
  model = codes "qwen 7b";
  quantization = "Q4_K_M";
  n_gpu_layers = 0;
  n_ctx = 4096;
  threads = 1;
  max_tokens = 1024;
}

-- An engine that always writes the same file, and a verifier that wants one file in the sandbox.
abbrev tools : CodingTools ℕ
tools = record {
  patterns = record { code_fence = λ t. some t; file_blocks = λ t. [] };
  name = "ollama";
  available = λ e. (e, true);
  generate = λ e prompt s. (e + 1, inr (codes "x = 1"));
  workspace = "/home/ws";
  sandbox = "/tmp/s/ws";
  verify = λ e d. (e, true, []);
  digest = digest;
  show_int = λ n. [];
  is_ignored = λ path. false;
  run_spec = spec;
}

abbrev world : World ℕ
world = record {
  engine = 0;
  files = ("a.py", codes "x = 0") ∷ [];
  elsewhere = [];
  ledger = some ledger;
}

-- A GPU of 6 GB.
abbrev six : Ratio
six = record { num = 6; den = 1 }

fit_run-Fits_example : Fits (λ name. none) six spec (fit_run (λ name. none) six (task "cheap") spec)
unfolding weight
fit_run-Fits_example =
    fit_run-Fits (λ name. none) six (task "cheap") spec (omega arith) (omega arith)
