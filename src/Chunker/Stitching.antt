-- ===== src/Chunker/Stitching.antt =====
-- The chunks of a document, put together again, are the document.
use Prim.Native.Nat.{min}
use hermes_kernel_v.Prelude.{
  ℕ, zero, suc, ◌+◌, ◌-◌, ◌≤◌, ◌<◌, ◌≡◌, refl, sym, ap, subst, ◌∙◌, inl, inr, Bool, true, List, [],
  ◌∷◌, ◌++◌, Option, none, some, length, take, ltb, leb, leb→le, leb_false→lt, le→leb, lt→leb_false,
  All, Bool-cases, arith,
}
use mathlib.Core.List.{append-nil}
use hermes_kernel_v.Chunker.{Chunk, Chunker, drop, slice, chunks_from, chunk, make_chunker}
use hermes_kernel_v.Chunker.Slices.{
  drop-drop, take-drop, drop-append, take-all, length-take, length-drop,
}

module _ {A : Type 0} where
  -- The new part of each chunk after the first.
  abbrev pub news : ℕ → List (Chunk A) → List A
  news overlap [] = []
  news overlap (c ∷ cs) = drop overlap c.text ++ news overlap cs

  abbrev pub stitch : ℕ → List (Chunk A) → List A
  stitch overlap [] = []
  stitch overlap (c ∷ cs) = c.text ++ news overlap cs

module _ {A : Type 0} (k : Chunker) (content : List A) where
  abbrev end_of : ℕ → ℕ
  end_of start = min (start + k.chunk_size) (length content)

  abbrev window : ℕ → Chunk A
  window start = record {
    text = slice content start (end_of start);
    start = start;
    end = end_of start;
  }

  chunks_from-last :
      (fuel start : ℕ)
      → start < length content
      → length content ≤ start + k.chunk_size
      → chunks_from (suc fuel) k content start ≡ window start ∷ []
  unfolding chunks_from
  chunks_from-last fuel start h l =
      rw
        (
          lt→leb_false (length content) start h,
          le→leb (length content) (end_of start) (omega arith),
          chunks_from,
        )
        refl

  chunks_from-next :
      (fuel start : ℕ)
      → start + k.chunk_size < length content
      → chunks_from (suc fuel) k content start
        ≡ window start ∷ chunks_from fuel k content (start + (k.chunk_size - k.overlap))
  unfolding chunks_from
  chunks_from-next fuel start h =
      rw
        (
          lt→leb_false (length content) start (omega arith),
          lt→leb_false (length content) (end_of start) (omega arith),
          chunks_from,
        )
        refl

  text-last :
      (start : ℕ)
      → start ≤ length content
      → length content ≤ start + k.chunk_size
      → (window start).text ≡ drop start content
  text-last start h l =
      take-all (end_of start - start) (drop start content)
        (omega (arith, length-drop start content h))

  text-next :
      (start : ℕ)
      → start + k.chunk_size < length content
      → (window start).text ≡ take k.chunk_size (drop start content)
  text-next start h = ap (λ n. take n (drop start content)) (omega arith)

  -- The content from a window's start on, cut after the overlap and at the window's end.
  cut :
      (start : ℕ)
      → k.overlap < k.chunk_size
      → start + k.chunk_size < length content
      → drop k.overlap (take k.chunk_size (drop start content))
          ++ drop (start + k.chunk_size) content
        ≡ drop (start + k.overlap) content
  cut start small h =
      let l = drop start content in
      let long = length-drop start content (omega arith) in
      ap (λ r. drop k.overlap (take k.chunk_size l) ++ r)
        (sym (drop-drop k.chunk_size start (start + k.chunk_size) content refl))
      ∙ sym (
          drop-append k.overlap (take k.chunk_size l) (drop k.chunk_size l)
            (omega (arith, length-take k.chunk_size l (omega (arith, long)))))
      ∙ ap (drop k.overlap) (take-drop k.chunk_size l)
      ∙ drop-drop k.overlap start (start + k.overlap) content refl

  news-chunks_from :
      (fuel start : ℕ)
      → k.overlap < k.chunk_size
      → start + k.overlap < length content
      → length content ≤ start + fuel
      → news k.overlap (chunks_from fuel k content start) ≡ drop (start + k.overlap) content
  news-chunks_from zero start small h enough = absurd (omega arith)
  news-chunks_from (suc fuel) start small h enough =
      elim (Bool-cases (leb (length content) (start + k.chunk_size))) [
        | inl last ↦
            let end = leb→le (length content) (start + k.chunk_size) last in
            ap (news k.overlap) (chunks_from-last fuel start (omega arith) end)
            ∙ append-nil (drop k.overlap (window start).text)
            ∙ ap (drop k.overlap) (text-last start (omega arith) end)
            ∙ drop-drop k.overlap start (start + k.overlap) content refl
        | inr next ↦
            let more = leb_false→lt (length content) (start + k.chunk_size) next in
            let start' = start + (k.chunk_size - k.overlap) in
            let rest : news k.overlap (chunks_from fuel k content start')
                ≡ drop (start + k.chunk_size) content =
              news-chunks_from fuel start' small (omega arith) (omega arith)
              ∙ ap (λ n. drop n content) (omega arith) in
            ap (news k.overlap) (chunks_from-next fuel start more)
            ∙ ap (λ r. drop k.overlap (window start).text ++ r) rest
            ∙ ap (λ t. drop k.overlap t ++ drop (start + k.chunk_size) content)
                (text-next start more)
            ∙ cut start small more
      ]

  stitch-chunks_from :
      (fuel : ℕ)
      → k.overlap < k.chunk_size
      → 0 < length content
      → length content ≤ suc fuel
      → stitch k.overlap (chunks_from (suc fuel) k content 0) ≡ content
  stitch-chunks_from fuel small some_text enough =
      elim (Bool-cases (leb (length content) (0 + k.chunk_size))) [
        | inl last ↦
            let end = leb→le (length content) (0 + k.chunk_size) last in
            ap (stitch k.overlap) (chunks_from-last fuel 0 some_text end)
            ∙ append-nil (window 0).text
            ∙ text-last 0 (omega arith) end
        | inr next ↦
            let more = leb_false→lt (length content) (0 + k.chunk_size) next in
            let start' = 0 + (k.chunk_size - k.overlap) in
            let rest : news k.overlap (chunks_from fuel k content start')
                ≡ drop k.chunk_size content =
              news-chunks_from fuel start' small (omega arith) (omega arith)
              ∙ ap (λ n. drop n content) (omega arith) in
            ap (stitch k.overlap) (chunks_from-next fuel 0 more)
            ∙ ap (λ r. (window 0).text ++ r) rest
            ∙ ap (λ t. t ++ drop k.chunk_size content) (text-next 0 more)
            ∙ take-drop k.chunk_size content
      ]

  -- A window on the content, not empty and no longer than the chunk size.
  pub record IsWindow (c : Chunk A) : Type 0 where
    pub in_order : c.start < c.end
    pub inside : c.end ≤ length content
    pub bounded : c.end ≤ c.start + k.chunk_size
    pub cut_out : c.text ≡ slice content c.start c.end

  window-IsWindow :
      (start : ℕ) → 0 < k.chunk_size → start < length content → IsWindow (window start)
  window-IsWindow start size h = record {
    in_order = omega arith;
    inside = omega arith;
    bounded = omega arith;
    cut_out = refl;
  }

  chunks_from-IsWindow :
      (fuel start : ℕ)
      → k.overlap < k.chunk_size
      → start < length content
      → All IsWindow (chunks_from fuel k content start)
  unfolding chunks_from
  chunks_from-IsWindow zero start small h = tt
  chunks_from-IsWindow (suc fuel) start small h =
      let w = window-IsWindow start (omega arith) h in
      elim (Bool-cases (leb (length content) (start + k.chunk_size))) [
        | inl last ↦
            subst (All IsWindow) (sym (chunks_from-last fuel start h (leb→le _ _ last))) (w, tt)
        | inr next ↦
            let more = leb_false→lt (length content) (start + k.chunk_size) next in
            subst (All IsWindow) (sym (chunks_from-next fuel start more)) (
              w,
              chunks_from-IsWindow fuel (start + (k.chunk_size - k.overlap)) small (omega arith),
            )
      ]

abbrev is_proper : Option Chunker → Bool
is_proper none = true
is_proper (some k) = ltb k.overlap k.chunk_size

make_chunker-is_proper : (size overlap : ℕ) → is_proper (make_chunker size overlap) ≡ true
unfolding make_chunker
make_chunker-is_proper size overlap = ground arith

ltb→lt : (a b : ℕ) → ltb a b ≡ true → a < b
ltb→lt a b h = ground arith

-- With a chunker that can be made, the chunks of a text are windows on it that are not empty and no
-- longer than the chunk size, and the first one, followed by each later one without its overlap, is
-- the text: nothing is lost and the overlaps are exact.
pub chunk-stitches :
    {A : Type 0} (size overlap : ℕ) (k : Chunker) (content : List A)
    → make_chunker size overlap ≡ some k
    → (All (IsWindow k content) (chunk k content)) × (stitch k.overlap (chunk k content) ≡ content)
unfolding chunk
chunk-stitches size overlap k [] made = (tt, refl)
chunk-stitches size overlap k (x ∷ l) made =
    let small =
      ltb→lt k.overlap k.chunk_size
        (subst (λ o. is_proper o ≡ true) made (make_chunker-is_proper size overlap)) in
    (
      chunks_from-IsWindow k (x ∷ l) (length (x ∷ l)) 0 small (omega arith),
      stitch-chunks_from k (x ∷ l) (length l) small (omega arith) (omega arith),
    )
