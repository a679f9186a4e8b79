-- ===== src/Examples/Chunker.antt =====
-- The chunker at a concrete input.
use hermes_kernel_v.Prelude.{ℕ, ◌≡◌, refl, List, [], ◌∷◌, some, All}
use hermes_kernel_v.Chunker.{Chunker, make_chunker, chunk}
use hermes_kernel_v.Chunker.Stitching.{IsWindow, stitch, chunk-stitches}

abbrev threes : Chunker
threes = record { chunk_size = 3; overlap = 1 }

abbrev text : List ℕ
text = 1 ∷ 2 ∷ 3 ∷ 4 ∷ 5 ∷ 6 ∷ []

made : make_chunker 3 1 ≡ some threes
unfolding make_chunker
made = refl

chunk-stitches_example :
    (All (IsWindow threes text) (chunk threes text)) × (stitch 1 (chunk threes text) ≡ text)
chunk-stitches_example = chunk-stitches 3 1 threes text made
