-- ===== src/Prelude/Texts.antt =====
-- Python sets of texts, as lists that are only asked for their members.
use Prim.Native.Nat.{ℕ, suc, ◌≤◌, ◌<◌}
use Prim.Native.String.{String}
use mathlib.Core.Path.{◌≡◌, refl}
use mathlib.Core.Logic.{◌⊎◌, inl, inr}
use mathlib.Core.Bool.{Bool, true, false, not, ◌&&◌, ◌||◌}
use mathlib.Core.List.{List, [], ◌∷◌, ◌++◌}
use native.Mathlib.Omega.{arith}
use text.Mathlib.Text.{◌==◌}
use text.Mathlib.TextEquality.{eq_iff}
use text.Mathlib.TextPositions.{eq_refl}
use hermes_kernel_v.Prelude.Lists.{length}
use hermes_kernel_v.Prelude.Tests.{Bool-cases, if◌then◌else◌}

-- x in s
unfoldable pub has : String → List String → Bool
has x [] = false
has x (y ∷ ys) = y == x || has x ys

-- How many of the texts are not in the set.
unfoldable pub outside : List String → List String → ℕ
outside s [] = 0
outside s (u ∷ us) = let rest = outside s us in if has u s then rest else suc rest

-- No text occurs twice.
unfoldable pub distinct_texts : List String → Bool
unfolding has
distinct_texts [] = true
distinct_texts (x ∷ xs) = not (has x xs) && distinct_texts xs

pub has-cons : (x y : String) (ys : List String) → has x (y ∷ ys) ≡ (y == x || has x ys)
unfolding has
has-cons x y ys = refl

pub has-cons_self : (x : String) (ys : List String) → has x (x ∷ ys) ≡ true
unfolding has
has-cons_self x ys = ground (arith, eq_refl x)

pub has-cases :
    (x y : String) (ys : List String) → has x (y ∷ ys) ≡ true → (y ≡ x) ⊎ (has x ys ≡ true)
has-cases x y ys m = elim (Bool-cases (y == x)) [
  | inl same ↦ inl ((eq_iff y x).0 same)
  | inr other ↦ inr (ground (arith, m, other, has-cons x y ys))
]

pub has-later : (x y : String) (ys : List String) → has x ys ≡ true → has x (y ∷ ys) ≡ true
has-later x y ys m = ground (arith, m, has-cons x y ys)

pub has-nil : (x : String) → has x [] ≡ false
unfolding has
has-nil x = refl

pub has-append : (x : String) (s t : List String) → has x (s ++ t) ≡ (has x s || has x t)
unfolding has
has-append x [] t = refl
has-append x (y ∷ s) t = ground (arith, has-append x s t)

pub outside-le : (x : String) (s us : List String) → outside (x ∷ s) us ≤ outside s us
unfolding outside has
outside-le x s [] = omega arith
outside-le x s (u ∷ us) = ground (arith, outside-le x s us)

-- Adding a text that is among the counted ones makes the count fall.
pub outside-add :
    (x : String) (s us : List String)
    → has x us ≡ true
    → has x s ≡ false
    → outside (x ∷ s) us < outside s us
unfolding outside has
outside-add x s [] m n = ground (arith, m)
outside-add x s (u ∷ us) m n = elim (Bool-cases (u == x)) [
  | inl same ↦ ground (arith, outside-le x s us, eq_iff u x, eq_iff x u, same, n)
  | inr other ↦ ground (arith, outside-add x s us, eq_iff u x, eq_iff x u, other, m, n)
]

pub distinct_texts-concat :
    (xs : List String) (x : String)
    → distinct_texts xs ≡ true
    → has x xs ≡ false
    → distinct_texts (xs ++ x ∷ []) ≡ true
unfolding distinct_texts
distinct_texts-concat [] x d n = refl
distinct_texts-concat (y ∷ ys) x d n = ground (
  arith,
  distinct_texts-concat ys x,
  has-append y ys (x ∷ []),
  eq_iff x y,
  eq_iff y x,
  d,
  n,
  has-cons x y ys,
)

pub outside-le-length : (s us : List String) → outside s us ≤ length us
unfolding outside
outside-le-length s [] = omega arith
outside-le-length s (u ∷ us) = ground (arith, outside-le-length s us)
