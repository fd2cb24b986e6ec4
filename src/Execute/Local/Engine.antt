-- ===== src/Execute/Local/Engine.antt =====
-- src/citadel/services/execute/local/engine.py: the llama.cpp and the Ollama engines. The model
-- backend and the HTTP calls are parameters, with one answer for each call; the left side of a sum is an exception.
use the_soverign_imperia_cit.Base.{
  ℕ, List, [], ◌∷◌, ◌++◌, map, Bool, true, false, ◌⊎◌, inl, inr, Option, none, some, length, ◌==◌,
  if◌then◌else◌,
}
use the_soverign_imperia_cit.Base.Text.{Text, codes, strip, lower, same}
use the_soverign_imperia_cit.Execute.Blueprint.{RunSpec}

-- A backend of tools/model_backend.py: `embed` is none when it has no such attribute.
pub record Backend (B V : Type 0) : Type 0 where
  pub is_fully_operational : B → Text ⊎ Bool
  pub generate : B → Text → ℕ → Text ⊎ Text
  pub embed : B → Option (Text → List V)

-- What loading gives: no module, an exception of `get_backend`, or the backend.
pub data Loaded (B : Type 0) : Type 0 where
  no_module failed : Loaded B
  loaded : B → Loaded B

abbrev pub truth : Text ⊎ Bool → Bool
truth (inl exc) = false
truth (inr ok) = ok

module _ {B : Type 0} where
  abbrev pub loaded_backend : Loaded B → Option B
  loaded_backend no_module = none
  loaded_backend failed = none
  loaded_backend (loaded b) = some b

  -- `_get_backend` on the field `_backend`: what is there stays, else it is loaded.
  unfoldable pub get_backend : Loaded B → Option B → Option B
  get_backend source none = loaded_backend source
  get_backend source (some b) = some b

  module _ {V : Type 0} (backend : Backend B V) (source : Loaded B) where
    unfoldable pub available_llama : Option B → Bool
    unfolding get_backend
    available_llama held = elim (get_backend source held) [
      | none ↦ false
      | some b ↦ truth (backend.is_fully_operational b)
    ]

    unfoldable pub generate_llama : Option B → Text → RunSpec → Text ⊎ Text
    unfolding get_backend
    generate_llama held prompt spec = elim (get_backend source held) [
      | none ↦ inl (codes "llama_cpp backend unavailable")
      | some b ↦ backend.generate b prompt spec.max_tokens
    ]

    -- `none` is the NotImplementedError.
    unfoldable pub embed_llama : Option B → List Text → Option (List (List V))
    unfolding get_backend
    embed_llama held texts = elim (get_backend source held) [
      | none ↦ none
      | some b ↦ elim (backend.embed b) [ none ↦ none | some embed ↦ some (map embed texts) ]
    ]

pub record Options : Type 0 where
  pub num_ctx : ℕ
  pub num_thread : ℕ
  pub num_gpu : Option ℕ

pub data Payload : Type 0 where
  generate_payload : Text → Text → Options → Payload
  embed_payload : Text → List Text → Payload
  embedding_payload : Text → Text → Payload

-- The fields of an answer that `get` finds; `embeddings` is none when it is missing or no list.
pub record Reply (V : Type 0) : Type 0 where
  pub response : Option Text
  pub embeddings : Option (List (List V))
  pub embedding : Option (List V)

unfoldable pub options_of : RunSpec → Options
options_of spec = record {
  num_ctx = spec.n_ctx;
  num_thread = spec.threads;
  num_gpu = if spec.n_gpu_layers == 0 then none else some spec.n_gpu_layers;
}

-- `rstrip("/")`: every slash at the end goes.
unfoldable pub strip_slashes : Text → Text
strip_slashes [] = []
strip_slashes (c ∷ host) = elim (strip_slashes host) [
  | [] ↦ if c == 47 then [] else c ∷ []
  | d ∷ rest ↦ c ∷ d ∷ rest
]

abbrev pub or_text : Option Text → Text → Text
or_text none other = other
or_text (some []) other = other
or_text (some (c ∷ s)) other = c ∷ s

-- `host or os.environ.get("CITADEL_OLLAMA_HOST") or "http://localhost:11434"`
unfoldable pub resolve_host : Option Text → Option Text → Text
unfolding strip_slashes
resolve_host host environment =
    strip_slashes (or_text host (or_text environment (codes "http://localhost:11434")))

module _ {V : Type 0} (http_post : Text → Payload → Text ⊎ Reply V)
    (http_get : Text → Text ⊎ Reply V) (host : Text) where
  unfoldable pub available_ollama : Bool
  available_ollama = elim (http_get (host ++ codes "/api/tags")) [ inl exc ↦ false | inr r ↦ true ]

  abbrev pub response_of : Option Text → Text
  response_of none = []
  response_of (some t) = t

  unfoldable pub generate_ollama : Text → RunSpec → Text ⊎ Text
  unfolding options_of strip
  generate_ollama prompt spec =
      elim (http_post (host ++ codes "/api/generate")
        (generate_payload spec.model prompt (options_of spec))) [
          | inl exc ↦ inl exc
          | inr r ↦ inr (strip (response_of r.response))
        ]

  abbrev pub vector_of : Option (List V) → List V
  vector_of none = []
  vector_of (some v) = v

  -- One call for each text; the first exception ends it.
  unfoldable pub embed_each : Text → List Text → Text ⊎ List (List V)
  embed_each model [] = inr []
  embed_each model (text ∷ texts) =
      elim (http_post (host ++ codes "/api/embeddings") (embedding_payload model text)) [
        | inl exc ↦ inl exc
        | inr r ↦ elim (embed_each model texts) [
          | inl exc ↦ inl exc
          | inr vectors ↦ inr (vector_of r.embedding ∷ vectors)
        ]
      ]

  -- The batch, if it has a vector for each text.
  unfoldable pub whole_batch : List Text → Text ⊎ Reply V → Option (List (List V))
  whole_batch texts (inl exc) = none
  whole_batch texts (inr r) = elim r.embeddings [
    | none ↦ none
    | some vectors ↦ if length vectors == length texts then some vectors else none
  ]

  unfoldable pub embed_ollama : List Text → Text → Text ⊎ List (List V)
  unfolding embed_each whole_batch
  embed_ollama [] model = inr []
  embed_ollama (text ∷ texts) model =
      elim (whole_batch (text ∷ texts)
        (http_post (host ++ codes "/api/embed") (embed_payload model (text ∷ texts)))) [
          | some vectors ↦ inr vectors
          | none ↦ embed_each model (text ∷ texts)
        ]

pub data EngineKind : Type 0 where
  llama_cpp ollama : EngineKind

-- `os.environ.get("CITADEL_LOCAL_ENGINE", "llama_cpp")`
abbrev pub chosen : Option Text → Text
chosen none = codes "llama_cpp"
chosen (some e) = e

-- `get_local_engine`, whose second argument is the environment variable; `none` is the ValueError.
unfoldable pub get_local_engine : Option Text → Option Text → Option EngineKind
unfolding same lower
get_local_engine name environment =
    let key = map lower (or_text name (chosen environment)) in
    if same key (codes "llama_cpp")
    then some llama_cpp
    else if same key (codes "ollama")
    then some ollama
    else none
