-- ===== src/Prelude/Order.antt =====
-- The order of texts by their characters' numbers, which is Python's on `str`.
use Prim.Native.Nat.{Ordering}
use Prim.Native.Char.{Char, code}
use Prim.Native.String.{String, [], ◌∷◌, compare}
use mathlib.Core.Path.{◌≡◌, refl}
use Prim.Native.String.compare
use mathlib.Core.Bool.{Bool, true, false}
use native.Mathlib.Omega.{arith}
use hermes_kernel_v.Prelude.Tests.{ltb, if◌then◌else◌}
use text.Mathlib.TextPositions.{compare_refl}

abbrev pub not_gt : Ordering → Bool
not_gt Ordering.gt = false
not_gt _ = true

-- s <= t
unfoldable pub text_leb : String → String → Bool
text_leb s t = not_gt (compare s t)

pub text_leb_refl : (s : String) → text_leb s s ≡ true
unfolding text_leb
text_leb_refl s = rw (compare_refl s) refl

text_leb-nil : (t : String) → text_leb [] t ≡ true
unfolding text_leb
text_leb-nil [] = refl
text_leb-nil (d ∷ t) = rw (compare.nil-cons d t) refl

text_leb-cons_nil : (c : Char) (s : String) → text_leb (c ∷ s) [] ≡ false
unfolding text_leb
text_leb-cons_nil c s = rw (compare.cons-nil c s) refl

text_leb-cons :
    (c d : Char) (s t : String)
    → text_leb (c ∷ s) (d ∷ t) ≡ (
        if ltb (code c) (code d)
        then true
        else if ltb (code d) (code c)
        then false
        else text_leb s t)
unfolding text_leb
text_leb-cons c d s t = rw (compare.cons-cons c d s t) (ground arith)

pub text_leb-total : (s t : String) → text_leb s t ≡ false → text_leb t s ≡ true
text_leb-total [] t h = ground (arith, text_leb-nil t)
text_leb-total (c ∷ s) [] h = text_leb-nil (c ∷ s)
text_leb-total (c ∷ s) (d ∷ t) h =
    ground (arith, text_leb-total s t, text_leb-cons c d s t, text_leb-cons d c t s)

pub text_leb_trans :
    (s t u : String) → text_leb s t ≡ true → text_leb t u ≡ true → text_leb s u ≡ true
text_leb_trans [] t u h k = text_leb-nil u
text_leb_trans (c ∷ s) [] u h k = ground (arith, text_leb-cons_nil c s)
text_leb_trans (c ∷ s) (d ∷ t) [] h k = ground (arith, text_leb-cons_nil d t)
text_leb_trans (c ∷ s) (d ∷ t) (e ∷ u) h k = ground (
  arith,
  text_leb_trans s t u,
  text_leb-cons c d s t,
  text_leb-cons d e t u,
  text_leb-cons c e s u,
)
