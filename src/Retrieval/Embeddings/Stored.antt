-- ===== src/Retrieval/Embeddings/Stored.antt =====
-- What the embedding cache remembers.
use the_soverign_imperia_cit.Base.{
  String, ◌≡◌, refl, ◌∙◌, List, [], ◌∷◌, ◌&&◌, Option, none, some, arith, str_eq, eq_iff,
  Bool-cases, Option-cases, inl, inr, if◌then◌else◌,
}
use the_soverign_imperia_cit.Base.Dict
use the_soverign_imperia_cit.Base.Dict.{Dict, get-put}
use the_soverign_imperia_cit.Base.Sets
use the_soverign_imperia_cit.Retrieval.Embeddings.{
  EmbedCache, open_cache, hit, collect, get_many, update, put_many,
}

-- The last value under a key among some entries, and else what there was.
abbrev pub latest : {V : Type 0} → Dict V → String → Option V → Option V
latest [] k before = before
latest ((h, v) ∷ e) k before = latest e k (if str_eq h k then some v else before)

pub get-update :
    {V : Type 0} (d e : Dict V) (k : String) → Dict.get (update d e) k ≡ latest e k (Dict.get d k)
unfolding update
get-update d [] k = refl
get-update d ((h, v) ∷ e) k = rw (get-update (Dict.put d h v) e k, get-put d h k v) refl

abbrev or_else : {V : Type 0} → Option V → Option V → Option V
or_else none o = o
or_else (some v) o = some v

or_else_again : {V : Type 0} (a b : Option V) → or_else a (or_else a b) ≡ or_else a b
or_else_again none b = refl
or_else_again (some v) b = refl

get-hit :
    {V : Type 0} (found mem : Dict V) (h k : String)
    → Dict.get (hit found h (Dict.get mem h)) k
      ≡ (if str_eq h k then or_else (Dict.get mem k) (Dict.get found k) else Dict.get found k)
get-hit found mem h k = elim (Option-cases (Dict.get mem h)) [
  | inl e ↦ rw e (ground (arith, eq_iff h k, e))
  | inr (v, e) ↦ rw e (ground (arith, get-put found h k v, eq_iff h k, e))
]

get-collect :
    {V : Type 0} (mem : Dict V) (hashes : List String) (found : Dict V) (k : String)
    → Dict.get (collect mem hashes found) k ≡ (
        if Sets.member hashes k
        then or_else (Dict.get mem k) (Dict.get found k)
        else Dict.get found k)
unfolding collect Sets.member
get-collect mem [] found k = refl
get-collect mem (h ∷ hashes) found k =
    rw (get-collect mem hashes (hit found h (Dict.get mem h)) k, get-hit found mem h k)
      (ground (arith, or_else_again (Dict.get mem k) (Dict.get found k)))

or_else-none : {V : Type 0} (a : Option V) → or_else a none ≡ a
or_else-none none = refl
or_else-none (some v) = refl

pub get-get_many :
    {F : Type 0} (c : EmbedCache F) (hashes : List String) (k : String)
    → Dict.get (get_many c hashes) k ≡ (if Sets.member hashes k then Dict.get c.mem k else none)
unfolding get_many Dict.get
get-get_many c hashes k = rw (get-collect c.mem hashes [] k, or_else-none (Dict.get c.mem k)) refl

-- A cache is given some vectors, at least one, and a cache for some model is opened on its file. When the
-- models differ, it finds nothing: vectors of different models never mix. When they agree, it finds
-- for each of the hashes it is asked for the last vector given under it, else the one that the first
-- cache had, and nothing for any other hash.
pub get_many-put_many :
    {F : Type 0} (c : EmbedCache F) (h : String) (v : List F) (vectors : Dict (List F))
    (model : String) (hashes : List String) (k : String)
    → Dict.get (get_many (open_cache (put_many c ((h, v) ∷ vectors)).file model) hashes) k ≡ (
        if str_eq c.model model && Sets.member hashes k
        then latest ((h, v) ∷ vectors) k (Dict.get c.mem k)
        else none)
unfolding open_cache put_many update Dict.get
get_many-put_many c h v vectors model hashes k =
    get-get_many (open_cache (put_many c ((h, v) ∷ vectors)).file model) hashes k
    ∙ elim (Bool-cases (str_eq c.model model)) [
      | inl e ↦ rw (e, get-update (Dict.put c.mem h v) vectors k, get-put c.mem h k v) refl
      | inr e ↦ rw e (ground arith)
    ]
