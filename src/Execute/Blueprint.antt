-- ===== src/Execute/Blueprint.antt =====
-- src/citadel/services/execute/blueprint.py: the task and the result. A reason keeps its data and
-- leaves out the words around it. An executor is a function on a state of its own, since it may
-- call models, files and the network.
use the_soverign_imperia_cit.Base.{
  ℕ, String, List, Bool, Option, none, some, ◌||◌, str_eq, if◌then◌else◌,
}
use the_soverign_imperia_cit.Base.Text.{Text}

pub data Status : Type 0 where
  pass needs_fix blocked error : Status
  other : String → Status

pub data Reason : Type 0 where
  no_reason rate_limited architecturally_blocked no_target_file no_run_spec not_a_file : Reason
  model_backend_unavailable model_too_large : Reason
  context_over_budget : ℕ → ℕ → Reason
  engine_unavailable : String → Reason
  exception : Text → Reason
  incomplete_generation : List String → Reason
  condemned : String → Reason
  verification_failed : Text → Reason
  exit_code : ℕ → Reason
  given : Text → Reason

pub record Blueprint : Type 0 where
  pub task_id : String
  pub instruction : Text
  pub assigned_tier : String
  pub context : Text
  pub context_token_budget : ℕ
  pub injection_anchors : List String
  pub allowed_files : List String

unfoldable pub is_valid_tier : String → Bool
is_valid_tier t =
    str_eq t "cheap" || (str_eq t "standard" || (str_eq t "strong" || str_eq t "ultra"))

-- `__post_init__`: `none` is the ValueError.
unfoldable pub post_init : Blueprint → Option Blueprint
unfolding is_valid_tier
post_init b = if is_valid_tier b.assigned_tier then some b else none

pub record ExecutionResult : Type 0 where
  pub task_id : String
  pub status : Status
  pub output : Text
  pub tier_used : String
  pub reason : Reason

abbrev pub Executor : Type 0 → Type 0
Executor W = W → Blueprint → W × ExecutionResult

unfoldable pub is_pass : ExecutionResult → Bool
is_pass r = elim r.status [ pass ↦ Bool.true | _ ↦ Bool.false ]

-- The RunSpec of local/engine.py.
pub record RunSpec : Type 0 where
  pub model : Text
  pub quantization : String
  pub n_gpu_layers : ℕ
  pub n_ctx : ℕ
  pub threads : ℕ
  pub max_tokens : ℕ
