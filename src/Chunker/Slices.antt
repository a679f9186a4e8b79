-- ===== src/Chunker/Slices.antt =====
-- How `take` and `drop` cut a list.
use hermes_kernel_v.Prelude.{
  ℕ, zero, suc, ◌+◌, ◌≤◌, ◌≡◌, refl, ap, List, [], ◌∷◌, ◌++◌, length, take, arith,
}
use hermes_kernel_v.Chunker.{drop}

module _ {A : Type 0} where
  pub drop-drop : (a b c : ℕ) (l : List A) → b + a ≡ c → drop a (drop b l) ≡ drop c l
  drop-drop a zero c l h = ap (λ n. drop n l) (omega arith)
  drop-drop a (suc b) zero l h = absurd (omega arith)
  drop-drop zero (suc b) (suc c) [] h = refl
  drop-drop (suc a) (suc b) (suc c) [] h = refl
  drop-drop a (suc b) (suc c) (x ∷ l) h = drop-drop a b c l (omega arith)

  pub take-drop : (n : ℕ) (l : List A) → take n l ++ drop n l ≡ l
  take-drop zero l = refl
  take-drop (suc n) [] = refl
  take-drop (suc n) (x ∷ l) = ap (λ r. x ∷ r) (take-drop n l)

  pub drop-append : (n : ℕ) (xs ys : List A) → n ≤ length xs → drop n (xs ++ ys) ≡ drop n xs ++ ys
  drop-append zero xs ys h = refl
  drop-append (suc n) [] ys h = absurd (omega arith)
  drop-append (suc n) (x ∷ xs) ys h = drop-append n xs ys (omega arith)

  pub take-all : (n : ℕ) (l : List A) → length l ≤ n → take n l ≡ l
  take-all zero [] h = refl
  take-all zero (x ∷ l) h = absurd (omega arith)
  take-all (suc n) [] h = refl
  take-all (suc n) (x ∷ l) h = ap (λ r. x ∷ r) (take-all n l (omega arith))

  pub length-take : (n : ℕ) (l : List A) → n ≤ length l → length (take n l) ≡ n
  length-take zero l h = refl
  length-take (suc n) [] h = absurd (omega arith)
  length-take (suc n) (x ∷ l) h = ap suc (length-take n l (omega arith))

  pub length-drop : (n : ℕ) (l : List A) → n ≤ length l → length (drop n l) + n ≡ length l
  length-drop zero l h = omega arith
  length-drop (suc n) [] h = absurd (omega arith)
  length-drop (suc n) (x ∷ l) h = omega (arith, length-drop n l (omega arith))
