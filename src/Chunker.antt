-- ===== src/Chunker.antt =====
-- kernel/chunker.py, `DocumentChunker.chunk`: the sliding window over a document. The content is the
-- list of its characters; paths and metadata are left to the caller. The window loop runs on fuel.
pub mod Slices
pub mod Stitching
use Prim.Native.Nat.{min}
use hermes_kernel_v.Prelude.{
  ℕ, zero, suc, ◌+◌, ◌-◌, Bool, true, false, ◌||◌, List, [], ◌∷◌, Option, none, some, length, take,
  leb, eqb, if◌then◌else◌,
}

pub record Chunk (A : Type 0) : Type 0 where
  pub text : List A
  pub start : ℕ
  pub end : ℕ

pub record Chunker : Type 0 where
  pub chunk_size : ℕ
  pub overlap : ℕ

-- The checks of `__init__`; `ValueError` is `none`.
unfoldable pub make_chunker : ℕ → ℕ → Option Chunker
make_chunker chunk_size overlap =
    if eqb chunk_size 0
    then none
    else if leb chunk_size overlap
    then none
    else some (record { chunk_size = chunk_size; overlap = overlap })

abbrev pub drop : {A : Type 0} → ℕ → List A → List A
drop zero l = l
drop (suc n) [] = []
drop (suc n) (x ∷ l) = drop n l

-- content[start:end]
abbrev pub slice : {A : Type 0} → List A → ℕ → ℕ → List A
slice content start end = take (end - start) (drop start content)

module _ {A : Type 0} where
  -- The loop from a window's start on.
  unfoldable pub chunks_from : (fuel : ℕ) → Chunker → List A → ℕ → List (Chunk A)
  chunks_from zero k content start = []
  chunks_from (suc fuel) k content start =
      let n = length content in
      let end = min (start + k.chunk_size) n in
      let rest = chunks_from fuel k content (start + (k.chunk_size - k.overlap)) in
      if leb n start
      then []
      else record { text = slice content start end; start = start; end = end }
        ∷ (if leb n end then [] else rest)

  -- Every window starts later than the one before, so that one round for each character is enough.
  unfoldable pub chunk : Chunker → List A → List (Chunk A)
  unfolding chunks_from
  chunk k content = chunks_from (length content) k content 0
