-- ===== src/Examples/Optimizer.antt =====
-- The optimizer at a concrete input (src/citadel/services/execute/optimizer.py).
use the_soverign_imperia_cit.Base.{ℕ, ◌+◌, ◌++◌, [], ◌∷◌, ◌≡◌, refl, true, false, none, some, inr}
use the_soverign_imperia_cit.Base.Dict
use the_soverign_imperia_cit.Base.Text.{codes, starts_with, ends_with}
use the_soverign_imperia_cit.Execute.Coding.{World, CodingTools, execute}
use the_soverign_imperia_cit.Execute.Paths.{read_at}
use the_soverign_imperia_cit.Execute.Optimizer.{OptimizerTools, is_system_path, optimize}

abbrev coding : CodingTools ℕ
coding = record {
  patterns = record { code_fence = λ t. none; file_blocks = λ t. [] };
  name = "ollama";
  available = λ e. (e, true);
  generate = λ e prompt s. (e + 1, inr (codes "x = 1"));
  workspace = "/home/ws";
  sandbox = "/tmp/s/ws";
  verify = λ e d. (e, true, []);
  digest = λ content. "digest";
  show_int = λ n. [];
  is_ignored = λ path. false;
  run_spec = record {
    model = [];
    quantization = "Q4_K_M";
    n_gpu_layers = 0;
    n_ctx = 4096;
    threads = 1;
    max_tokens = 1024;
  };
}

abbrev tools : OptimizerTools ℕ
tools = record {
  coding = coding;
  verify = none;
  parse = λ content. (true, []);
  differ = λ before after. before ++ after;
  copy_root = "/tmp/c/ws";
}

abbrev world : World ℕ
world = record {
  engine = 0;
  files = ("tools/a.py", codes "x = 0") ∷ [];
  elsewhere = [];
  ledger = none;
}

-- In the mode that proposes, an absolute path is written for real.
proposed_for_real :
    (optimize tools
      (record world { elsewhere = ("/etc/a", []) ∷ [] })
      "/etc/a"
      []
      (some false)).0.elsewhere
    ≡ ("/etc/a", codes "x = 1") ∷ []
unfolding optimize execute read_at Dict.get ends_with Dict.put
proposed_for_real = refl

own_code : is_system_path "tools/a.py" ≡ true
unfolding is_system_path starts_with
own_code = refl

user_code : is_system_path "app/a.py" ≡ false
unfolding is_system_path starts_with
user_code = refl
