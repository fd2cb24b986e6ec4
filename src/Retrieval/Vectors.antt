-- ===== src/Retrieval/Vectors.antt =====
-- src/citadel/services/retrieval/vector_store.py: the vector store over its local backend. Floats, the
-- products that NumPy computes when it is installed, and the decimal text of a number are
-- parameters. The file is what was saved last.
pub mod Entries
pub mod Ids
pub mod Ranked
pub mod Replaced
use the_soverign_imperia_cit.Base.{
  ℕ, zero, suc, ◌+◌, String, List, [], ◌∷◌, Bool, true, false, not, ◌&&◌, ◌||◌, Option, none, some,
  map, str_eq, length, take, select, ◌==◌, if◌then◌else◌,
}
use the_soverign_imperia_cit.Base.Dict
use the_soverign_imperia_cit.Base.Dict.{Dict}
use the_soverign_imperia_cit.Base.Text.{Text, append}

pub record Floats (F : Type 0) : Type 0 where
  pub zero : F
  pub one : F
  pub add : F → F → F
  pub sub : F → F → F
  pub ratio : ℕ → ℕ → F
  pub round4 : F → F
  pub sum : List F → F
  pub mul : F → F → F
  pub div : F → F → F
  pub sqrt : F → F
  pub is_zero : F → Bool
  pub lt : F → F → Bool
  pub ge : F → F → Bool

-- The norm of a query, and the cosines from the matrix product.
pub record Numpy (F : Type 0) : Type 0 where
  pub norm : List F → F
  pub cosines : List F → F → List (List F) → List F

pub record VectorRecord (F : Type 0) : Type 0 where
  pub id : String
  pub path : String
  pub index : ℕ
  pub start_byte : ℕ
  pub end_byte : ℕ
  pub content_hash : String
  pub file_hash : String
  pub embed_model : String
  pub dim : ℕ
  pub vector : List F
  pub text : Text

-- `f"{path}#{index}"`
unfoldable pub chunk_id : (ℕ → String) → String → ℕ → String
unfolding append
chunk_id str path index = append path (append "#" (str index))

abbrev pub is_nil : {F : Type 0} → List F → Bool
is_nil [] = true
is_nil (x ∷ xs) = false

-- `x * y for x, y in zip(a, b)`
abbrev pub products : {F : Type 0} → Floats F → List F → List F → List F
products fl [] b = []
products fl (x ∷ a) [] = []
products fl (x ∷ a) (y ∷ b) = fl.mul x y ∷ products fl a b

unfoldable pub cosine : {F : Type 0} → Floats F → List F → List F → F
cosine fl a b =
    let na = fl.sqrt (fl.sum (products fl a a)) in
    let nb = fl.sqrt (fl.sum (products fl b b)) in
    if is_nil a || (is_nil b || not (length a == length b))
    then fl.zero
    else if fl.is_zero na || fl.is_zero nb
    then fl.zero
    else fl.div (fl.sum (products fl a b)) (fl.mul na nb)

-- All vectors are as wide as the query.
abbrev pub same_width : {F : Type 0} → ℕ → List (List F) → Bool
same_width n [] = true
same_width n (v ∷ vectors) = (length v == n) && same_width n vectors

-- The branch of NumPy; `none` falls through to the plain cosines.
abbrev numpy_cosines :
    {F : Type 0} → Floats F → Option (Numpy F) → List F → List (List F) → Option (List F)
numpy_cosines fl none query vectors = none
numpy_cosines fl (some np) query vectors =
    let qn = np.norm query in
    if fl.is_zero qn
    then some (map (λ v. fl.zero) vectors)
    else if same_width (length query) vectors
    then some (np.cosines query qn vectors)
    else none

unfoldable pub batch_cosine :
    {F : Type 0} → Floats F → Option (Numpy F) → List F → List (List F) → List F
unfolding cosine
batch_cosine fl np query [] = []
batch_cosine fl np query (v ∷ vectors) = elim (numpy_cosines fl np query (v ∷ vectors)) [
  | some scores ↦ scores
  | none ↦ map (λ w. cosine fl query w) (v ∷ vectors)
]

abbrev pub Records : Type 0 → Type 0
Records F = Dict (VectorRecord F)

-- The payload of the file.
pub record Payload (F : Type 0) : Type 0 where
  pub model : String
  pub dim : ℕ
  pub records : Records F

-- `_LocalBackend`. A file that is absent or does not parse is `none`.
pub record LocalBackend (F : Type 0) : Type 0 where
  pub file : Option (Payload F)
  pub model : String
  pub dim : ℕ
  pub records : Records F

abbrev loaded : {F : Type 0} → Option (Payload F) → String → Records F
loaded none model = []
loaded (some data_) model = if str_eq data_.model model then data_.records else []

-- The constructor with `_load`.
unfoldable pub open_backend : {F : Type 0} → Option (Payload F) → String → ℕ → LocalBackend F
open_backend file model dim = record {
  file = file;
  model = model;
  dim = dim;
  records = loaded file model;
}

unfoldable pub save : {F : Type 0} → LocalBackend F → LocalBackend F
save b = record b { file = some (record { model = b.model; dim = b.dim; records = b.records }) }

unfoldable pub put_all : {F : Type 0} → Records F → List (VectorRecord F) → Records F
put_all d [] = d
put_all d (r ∷ rs) = put_all (Dict.put d r.id r) rs

unfoldable pub upsert : {F : Type 0} → LocalBackend F → List (VectorRecord F) → LocalBackend F × ℕ
unfolding put_all save
upsert b records = (save (record b { records = put_all b.records records }), length records)

-- The keys of the records with the path.
unfoldable pub victims : {F : Type 0} → Records F → String → List String
victims [] path = []
victims ((rid, rec) ∷ d) path =
    let rest = victims d path in if str_eq rec.path path then rid ∷ rest else rest

unfoldable pub remove_all : {F : Type 0} → Records F → List String → Records F
remove_all d [] = d
remove_all d (rid ∷ rids) = remove_all (Dict.remove d rid) rids

unfoldable pub delete_by_path : {F : Type 0} → LocalBackend F → String → LocalBackend F × ℕ
unfolding victims remove_all save
delete_by_path b path =
    let rids = victims b.records path in
    let b' = record b { records = remove_all b.records rids } in
    (if is_nil rids then b' else save b', length rids)

unfoldable pub count : {F : Type 0} → LocalBackend F → ℕ
count b = length b.records

unfoldable pub first_hash : {F : Type 0} → Records F → String → Option String
first_hash [] path = none
first_hash ((rid, rec) ∷ d) path =
    if str_eq rec.path path then some rec.file_hash else first_hash d path

unfoldable pub stored_file_hash : {F : Type 0} → LocalBackend F → String → Option String
unfolding first_hash
stored_file_hash b path = first_hash b.records path

abbrev pub Scored : Type 0 → Type 0
Scored F = F × VectorRecord F

abbrev pub zip : {F : Type 0} → List F → List (VectorRecord F) → List (Scored F)
zip [] rs = []
zip (s ∷ scores) [] = []
zip (s ∷ scores) (r ∷ rs) = (s, r) ∷ zip scores rs

-- One step of the stable sort by score, the highest first: what is not below stays in front.
unfoldable pub insert : {F : Type 0} → Floats F → Scored F → List (Scored F) → List (Scored F)
insert fl x [] = x ∷ []
insert fl x (y ∷ ys) = let rest = insert fl x ys in if fl.lt x.0 y.0 then y ∷ rest else x ∷ y ∷ ys

unfoldable pub sort_scored : {F : Type 0} → Floats F → List (Scored F) → List (Scored F)
unfolding insert
sort_scored fl [] = []
sort_scored fl (x ∷ xs) = insert fl x (sort_scored fl xs)

abbrev pub values : {F : Type 0} → Records F → List (VectorRecord F)
values [] = []
values ((rid, rec) ∷ d) = rec ∷ values d

unfoldable pub backend_query :
    {F : Type 0} → Floats F → Option (Numpy F) → LocalBackend F → List F → ℕ → List (Scored F)
unfolding batch_cosine sort_scored
backend_query fl np b vector top_k =
    let records = values b.records in
    take top_k
      (sort_scored fl (zip (batch_cosine fl np vector (map (λ r. r.vector) records)) records))

-- `VectorStore.query`
unfoldable pub query :
    {F : Type 0} → Floats F → Option (Numpy F) → LocalBackend F → List F → ℕ → F → List (Scored F)
unfolding backend_query
query fl np b vector top_k min_score =
    select (λ p. fl.ge p.0 min_score) (backend_query fl np b vector top_k)
