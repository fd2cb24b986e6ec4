-- ===== src/Retrieval/Chunker/Windows.antt =====
-- What the chunks of a text are.
use the_soverign_imperia_cit.Base.{
  ℕ, zero, suc, ◌+◌, ◌-◌, ◌≤◌, ◌<◌, String, ◌≡◌, refl, ◌⊎◌, inl, inr, List, [], ◌∷◌, true, Option,
  some, length, take, drop, nth, ltb, leb, Bool-cases, All, arith,
}
use the_soverign_imperia_cit.Base.Text.{Text}
use the_soverign_imperia_cit.Retrieval.Chunker.{
  Chunk, Window, byte_length, concat, body_of, chunk_at, window_end, has_text, prepend, chunk_loop,
  splitlines, window_of, chunk_text,
}
use the_soverign_imperia_cit.Retrieval.Chunker.Ink.{ink, is_empty-strip, ink-concat}
use the_soverign_imperia_cit.Retrieval.Chunker.Offsets.{
  concat-splitlines, offset, nth-line_byte_offsets, offset-window,
}

-- The byte range of a chunk is as long as its text, and its digest is that of its text.
abbrev pub IsExact : (Text → String) → Chunk → Type 0
IsExact hash_text c =
    (c.start_byte + byte_length c.text ≡ c.end_byte) × (c.content_hash ≡ hash_text c.text)

-- The bytes of a line lie within one of the chunks.
abbrev pub Covers : List Text → ℕ → List Chunk → Type 0
Covers lines i [] = ⊥
Covers lines i (c ∷ chunks) =
    ((c.start_byte ≤ offset lines i) × (offset lines (suc i) ≤ c.end_byte)) ⊎ Covers lines i chunks

offset_mono : (lines : List Text) (i j : ℕ) → i ≤ j → offset lines i ≤ offset lines j
offset_mono lines i j h = omega (arith, offset-window lines i (j - i) j (omega arith))

module _ (w : Window) where
  abbrev size : ℕ
  size = length w.lines

  chunk_at-IsExact :
      (index start : ℕ)
      → start ≤ size
      → IsExact w.hash_text (chunk_at w index start (window_end w start))
  unfolding chunk_at body_of
  chunk_at-IsExact index start h = (
    omega (
      arith,
      nth-line_byte_offsets w.lines start h,
      nth-line_byte_offsets w.lines (window_end w start) (omega arith),
      offset-window w.lines start (window_end w start - start) (window_end w start) (omega arith),
    ),
    refl,
  )

  chunk_at-covers :
      (index start i : ℕ)
      → start ≤ i
      → i < window_end w start
      → ((chunk_at w index start (window_end w start)).start_byte ≤ offset w.lines i)
        × (offset w.lines (suc i) ≤ (chunk_at w index start (window_end w start)).end_byte)
  unfolding chunk_at
  chunk_at-covers index start i p q = (
    omega (arith, nth-line_byte_offsets w.lines start (omega arith), offset_mono w.lines start i p),
    omega (
      arith,
      nth-line_byte_offsets w.lines (window_end w start) (omega arith),
      offset_mono w.lines (suc i) (window_end w start) (omega arith),
    ),
  )

  has_text_of_ink :
      (start i : ℕ)
      → start ≤ i
      → i < window_end w start
      → ink (nth [] w.lines i) ≡ true
      → has_text w start ≡ true
  unfolding has_text body_of
  has_text_of_ink start i p q h =
      rw
        (
          is_empty-strip (concat (take (window_end w start - start) (drop start w.lines))),
          ink-concat w.lines start (window_end w start - start) i p (omega arith) h,
        )
        refl

  -- From a line on, the loop ends, its chunks are exact, and they cover every line with text.
  abbrev IsDone : ℕ → Option (List Chunk) → Type 0
  IsDone start r =
      (chunks : List Chunk) × (r ≡ some chunks)
      × All (IsExact w.hash_text) chunks
      × ((i : ℕ) → start ≤ i → i < size → ink (nth [] w.lines i) ≡ true → Covers w.lines i chunks)

  prepend-IsDone :
      (index start : ℕ) (rest : Option (List Chunk))
      → start < size
      → 1 ≤ w.max_lines
      → IsDone (window_end w start) rest
      → IsDone start (prepend rest (has_text w start) (chunk_at w index start (window_end w start)))
  prepend-IsDone index start rest s m (chunks, e, exact, covers) =
      elim (Bool-cases (has_text w start)) [
        | inl t ↦
            rw (e, t)
              (
                chunk_at w index start (window_end w start) ∷ chunks,
                refl,
                (chunk_at-IsExact index start (omega arith), exact),
                λ i p q h. elim (Bool-cases (ltb i (window_end w start))) [
                  | inl l ↦ inl (chunk_at-covers index start i p (ground arith))
                  | inr l ↦ inr (covers i (ground arith) q h)
                ],
              )
        | inr t ↦
            rw (e, t)
              (
                chunks,
                refl,
                exact,
                λ i p q h. elim (Bool-cases (ltb i (window_end w start))) [
                  | inl l ↦ absurd (ground (arith, has_text_of_ink start i p (ground arith) h, t))
                  | inr l ↦ covers i (ground arith) q h
                ],
              )
      ]

  later-IsDone :
      (start later : ℕ) (r : Option (List Chunk)) → start ≤ later → IsDone start r → IsDone later r
  later-IsDone start later r h (chunks, e, exact, covers) =
      (chunks, e, exact, λ i p q ik. covers i (omega arith) q ik)

  end-IsDone : (start : ℕ) → size ≤ start → IsDone start (some [])
  end-IsDone start h = ([], refl, tt, λ i p q ik. absurd (omega arith))

  chunk_loop-IsDone :
      (fuel index start : ℕ)
      → 1 ≤ fuel
      → size < start + fuel
      → 1 ≤ w.max_lines
      → 1 ≤ w.step
      → w.step ≤ w.max_lines
      → IsDone start (chunk_loop fuel w index start)
  unfolding chunk_loop
  chunk_loop-IsDone zero index start g f m s t = absurd (omega arith)
  chunk_loop-IsDone (suc fuel) index start g f m s t = elim (Bool-cases (ltb start size)) [
    | inr e ↦ rw e (end-IsDone start (ground arith))
    | inl e ↦ rw e (elim (Bool-cases (leb size (window_end w start))) [
      | inl last ↦ rw last (
          prepend-IsDone index start (some []) (ground arith) m
            (end-IsDone (window_end w start) (ground arith)))
      | inr more ↦ rw more (
          prepend-IsDone index start _ (ground arith) m (
            later-IsDone (start + w.step) (window_end w start) _ (ground arith)
              (chunk_loop-IsDone fuel _ (start + w.step) (ground arith) (ground arith) m s t)))
    ])
  ]

-- The loop ends; the chunks are exact; the lines make the text; the chunks cover the lines with text.
abbrev pub IsChunked : (Text → String) → Text → Option (List Chunk) → Type 0
IsChunked hash_text text out =
    (chunks : List Chunk) × (out ≡ some chunks)
    × All (IsExact hash_text) chunks
    × (concat (splitlines text) ≡ text)
    × ((i : ℕ)
        → i < length (splitlines text)
        → ink (nth [] (splitlines text) i) ≡ true
        → Covers (splitlines text) i chunks)

-- With windows of at least one line, the loop of `chunk_text` ends, for every text and overlap. Each
-- chunk's byte range is as long as its text and its digest is that of its text; the lines put
-- together are the text; and each line that is more than white space lies in the byte range of a
-- chunk.
pub chunk_text-IsChunked :
    (hash_text : Text → String) (text : Text) (path : String) (max_lines overlap : ℕ)
    → 1 ≤ max_lines
    → IsChunked hash_text text (chunk_text hash_text text path max_lines overlap)
unfolding chunk_text
chunk_text-IsChunked hash_text text path max_lines overlap h =
    let (chunks, e, exact, covers) =
      chunk_loop-IsDone (window_of hash_text text path max_lines overlap)
        (suc (length (splitlines text))) 0 0 (omega arith) (omega arith) h (omega arith)
        (omega arith) in
    (chunks, e, exact, concat-splitlines text, λ i p q. covers i (omega arith) p q)
