-- ===== src/Retrieval/Chunker/Numbered.antt =====
-- The paths and the indices of a text's chunks.
use mathlib.Core.Path.{subst}
use the_soverign_imperia_cit.Base.{
  ℕ, zero, suc, ◌+◌, ◌≤◌, String, ◌≡◌, refl, List, [], ◌∷◌, Bool, true, false, Option, none, some,
  arith, length, leb, ltb, Bool-cases, inl, inr, if◌then◌else◌,
}
use the_soverign_imperia_cit.Base.Text.{Text}
use the_soverign_imperia_cit.Retrieval.Chunker.{
  Chunk, Window, chunk_at, window_end, has_text, prepend, chunk_loop, window_of, chunk_text,
  chunk_file,
}

-- The chunks have one path, and ascending indices from a number on.
abbrev pub IsNumbered : String → ℕ → List Chunk → Type 0
IsNumbered path n [] = Unit
IsNumbered path n (c ∷ cs) = (c.path ≡ path) × (n ≤ c.index) × IsNumbered path (suc c.index) cs

abbrev IsListed : String → ℕ → Option (List Chunk) → Type 0
IsListed path n none = Unit
IsListed path n (some cs) = IsNumbered path n cs

prepend-IsListed :
    (w : Window) (index start end : ℕ) (r : Option (List Chunk)) (b : Bool)
    → IsListed w.path (if b then index + 1 else index) r
    → IsListed w.path index (prepend r b (chunk_at w index start end))
unfolding chunk_at
prepend-IsListed w index start end none b h = tt
prepend-IsListed w index start end (some cs) true h =
    (refl, omega arith, subst (λ n. IsNumbered w.path n cs) (omega arith) h)
prepend-IsListed w index start end (some cs) false h = h

last :
    (path : String) (r : Option (List Chunk)) (b : Bool) (n : ℕ)
    → IsListed path n r
    → IsListed path n (if b then some [] else r)
last path r true n h = tt
last path r false n h = h

chunk_loop-IsListed :
    (fuel : ℕ) (w : Window) (index start : ℕ)
    → IsListed w.path index (chunk_loop fuel w index start)
unfolding chunk_loop
chunk_loop-IsListed zero w index start = tt
chunk_loop-IsListed (suc fuel) w index start = elim (Bool-cases (ltb start (length w.lines))) [
  | inr e ↦ rw e tt
  | inl e ↦ rw e (
      prepend-IsListed w index start (window_end w start) _ (has_text w start) (
        last w.path _ (leb (length w.lines) (window_end w start)) _
          (chunk_loop-IsListed fuel w _ (start + w.step))))
]

pub chunk_file-IsNumbered :
    (hash_text : Text → String) (file : Option Text) (rel : String) (max_lines overlap : ℕ)
    (cs : List Chunk)
    → chunk_file hash_text file rel max_lines overlap ≡ some cs
    → IsNumbered rel 0 cs
unfolding chunk_file chunk_text
chunk_file-IsNumbered hash_text none rel max_lines overlap cs e = subst (IsListed rel 0) e tt
chunk_file-IsNumbered hash_text (some text) rel max_lines overlap cs e =
    let w = window_of hash_text text rel max_lines overlap in
    subst (IsListed rel 0) e (chunk_loop-IsListed (suc (length w.lines)) w 0 0)
