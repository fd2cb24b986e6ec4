-- ===== src/Execute/Local/Hardware.antt =====
-- src/citadel/services/execute/local/hra.py: the arbitrator that fits a model into the memory of the
-- GPU. Where the code computes with floats in GB, sizes are exact fractions of a byte here; the
-- size_of for the number of parameters in a model's name is a parameter.
use the_soverign_imperia_cit.Base.{
  ℕ, ◌+◌, ◌*◌, ◌-◌, ◌/◌, ◌^◌, min, String, [], ◌∷◌, true, false, Option, none, some, ltb, ◌==◌,
  if◌then◌else◌,
}
use the_soverign_imperia_cit.Base.Dict
use the_soverign_imperia_cit.Base.Dict.{Dict}
use the_soverign_imperia_cit.Base.Text.{Text}
use the_soverign_imperia_cit.Execute.Blueprint.{
  Blueprint, RunSpec, model_backend_unavailable, model_too_large, no_reason,
}
use the_soverign_imperia_cit.Execute.Arbitrator.{ArbitrationDecision, decide}
use the_soverign_imperia_cit.Execute.Policy.{Ratio}

abbrev pub gb : ℕ
gb = 1024 ^ 3

-- Hundredths of a byte for each parameter of the model.
abbrev pub quant_bytes_per_param : Dict ℕ
quant_bytes_per_param = ("Q4_K_M", 55) ∷ ("Q5_K_M", 68) ∷ ("Q8_0", 106) ∷ ("F16", 200) ∷ []

abbrev pub kv_bytes_per_token : ℕ
kv_bytes_per_token = 512 * 1024

abbrev pub min_ctx : ℕ
min_ctx = 256

abbrev pub billion : ℕ
billion = 10 ^ 9

-- Billions of parameters, by default 7.
unfoldable pub params_billion : (Text → Option Ratio) → Text → Ratio
params_billion size_of model_name = elim (size_of model_name) [
  | none ↦ record { num = 7; den = 1 }
  | some params ↦ params
]

unfoldable pub per_param : String → ℕ
per_param quant = elim (Dict.get quant_bytes_per_param quant) [ none ↦ 55 | some n ↦ n ]

-- The bytes of the weights.
unfoldable pub weight : (Text → Option Ratio) → Text → String → Ratio
unfolding params_billion per_param
weight size_of model_name quant =
    let params = params_billion size_of model_name in
    record { num = params.num * billion * per_param quant; den = params.den * 100 }

-- The bytes of the memory of the GPU.
abbrev pub memory : Ratio → Ratio
memory vram_gb = record { num = vram_gb.num * gb; den = vram_gb.den }

-- The bytes of `tokens` in the cache and the weights, and those of the memory, over one denominator.
abbrev pub needed : Ratio → Ratio → ℕ → ℕ
needed weights mem tokens =
    weights.num * mem.den + tokens * (kv_bytes_per_token * (weights.den * mem.den))

abbrev pub offered : Ratio → Ratio → ℕ
offered weights mem = mem.num * weights.den

-- `int(kv_budget_gb * _GB / _KV_BYTES_PER_TOKEN) if kv_budget_gb > 0 else 0`
unfoldable pub fit_ctx : Ratio → Ratio → ℕ
fit_ctx weights mem =
    (offered weights mem - weights.num * mem.den) / (kv_bytes_per_token * (weights.den * mem.den))

-- What the model backend says of the hardware: the memory and the tier of models for it.
pub record ModelSpec : Type 0 where
  pub general_model : Text
  pub quantization : String
  pub n_gpu_layers : ℕ
  pub max_context_tokens : ℕ
  pub thread_count : ℕ

pub record Profile : Type 0 where
  pub vram_gb : Ratio
  pub spec : ModelSpec

-- `if blueprint.context_token_budget: n_ctx = min(n_ctx, budget)`
unfoldable pub requested_ctx : ModelSpec → ℕ → ℕ
requested_ctx spec budget =
    if budget == 0 then spec.max_context_tokens else min spec.max_context_tokens budget

unfoldable pub planned_run : ModelSpec → ℕ → ℕ → RunSpec
unfolding requested_ctx
planned_run spec budget max_tokens = record {
  model = spec.general_model;
  quantization = spec.quantization;
  n_gpu_layers = spec.n_gpu_layers;
  n_ctx = requested_ctx spec budget;
  threads = spec.thread_count;
  max_tokens = max_tokens;
}

abbrev pub admit_run : Blueprint → RunSpec → ArbitrationDecision
admit_run b run = record {
  admit = true;
  tier = b.assigned_tier;
  reason = no_reason;
  run_spec = some run;
}

-- The part of `arbitrate` on the memory of a GPU.
unfoldable pub fit_run : (Text → Option Ratio) → Ratio → Blueprint → RunSpec → ArbitrationDecision
unfolding weight fit_ctx
fit_run size_of vram_gb b run =
    let weights = weight size_of run.model run.quantization in
    let mem = memory vram_gb in
    if ltb (offered weights mem) (needed weights mem run.n_ctx)
    then if ltb (fit_ctx weights mem) min_ctx
      then decide false b.assigned_tier model_too_large
      else admit_run b (record run { n_ctx = min run.n_ctx (fit_ctx weights mem) })
    else admit_run b run

-- `arbitrate`; `none` is a backend that cannot be loaded. Memory 0 is no GPU.
unfoldable pub arbitrate_hardware :
    (Text → Option Ratio) → Option Profile → ℕ → Blueprint → ArbitrationDecision
unfolding planned_run fit_run
arbitrate_hardware size_of none max_tokens b =
    decide false b.assigned_tier model_backend_unavailable
arbitrate_hardware size_of (some profile) max_tokens b =
    let run = planned_run profile.spec b.context_token_budget max_tokens in
    if profile.vram_gb.num == 0 then admit_run b run else fit_run size_of profile.vram_gb b run
