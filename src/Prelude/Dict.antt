-- ===== src/Prelude/Dict.antt =====
-- A Python dict with text keys: entries in the order of insertion; an assignment to a key that is
-- there keeps its place.
use Prim.Native.String.{String}
use mathlib.Core.Path.{◌≡◌, refl, ap}
use mathlib.Core.Logic.{◌≢◌, inl, inr}
use mathlib.Core.Bool.{Bool, true, false, ◌&&◌}
use mathlib.Core.Option.{Option, none, some}
use mathlib.Core.List.{List, [], ◌∷◌}
use native.Mathlib.Omega.{arith}
use text.Mathlib.Text.{◌==◌}
use text.Mathlib.TextEquality.{eq_iff}
use text.Mathlib.TextPositions.{eq_refl}
use hermes_kernel_v.Prelude.Tests.{Bool-cases, if◌then◌else◌}

abbrev pub Dict {ℓ} : Type ℓ → Type ℓ
Dict V = List (String × V)

module _ {ℓ} {V : Type ℓ} where
  -- d.get(k)
  unfoldable pub get : String → Dict V → Option V
  get k [] = none
  get k ((j, v) ∷ d) = if j == k then some v else get k d

  -- d[k] = v
  unfoldable pub put : String → V → Dict V → Dict V
  put k v [] = (k, v) ∷ []
  put k v ((j, w) ∷ d) = if j == k then (j, v) ∷ d else (j, w) ∷ put k v d

  -- d.pop(k, None)
  unfoldable pub pop : String → Dict V → Dict V
  pop k [] = []
  pop k ((j, w) ∷ d) = let rest = pop k d in if j == k then rest else (j, w) ∷ rest

  -- list(d.values())
  abbrev pub values : Dict V → List V
  values [] = []
  values ((k, v) ∷ d) = v ∷ values d

  -- d.setdefault(k, v)
  abbrev pub set_default : String → V → Dict V → Dict V
  set_default k v d = elim (get k d) [ none ↦ put k v d | some _ ↦ d ]

  -- d.get(k, v)
  abbrev pub get_or : String → V → Dict V → V
  get_or k v d = elim (get k d) [ none ↦ v | some w ↦ w ]

module _ {ℓ} {V : Type ℓ} where
  pub get-put :
      (k j : String) (v : V) (d : Dict V) → get j (put k v d) ≡ (if k == j then some v else get j d)
  unfolding get put
  get-put k j v [] = refl
  get-put k j v ((i, w) ∷ d) = ground (arith, get-put k j v d, eq_iff i k, eq_iff i j, eq_iff k j)

  pub get-pop : (k j : String) (d : Dict V) → get j (pop k d) ≡ (if k == j then none else get j d)
  unfolding get pop
  get-pop k j [] = ground arith
  get-pop k j ((i, w) ∷ d) = ground (arith, get-pop k j d, eq_iff i k, eq_iff i j, eq_iff k j)

  pub get-put_self : (k : String) (v : V) (d : Dict V) → get k (put k v d) ≡ some v
  get-put_self k v d = simp (get-put, eq_refl)

module _ {ℓ} {V : Type ℓ} where
  pub get_or-put_self : (k : String) (v w : V) (d : Dict V) → get_or k v (put k w d) ≡ w
  get_or-put_self k v w d = rw (get-put_self k w d, get_or) refl

  pub get_or-put_ne :
      (k j : String) (v w : V) (d : Dict V) → k ≢ j → get_or j v (put k w d) ≡ get_or j v d
  get_or-put_ne k j v w d h =
      let other : (k == j) ≡ false = ground (arith, eq_iff k j) in
      rw (get-put k j w d, other, get_or) refl

module _ {ℓ} {V : Type ℓ} (p : String → V → Bool) where
  -- Every entry passes the test.
  abbrev pub all_entries : Dict V → Bool
  all_entries [] = true
  all_entries ((k, v) ∷ d) = p k v && all_entries d

  pub all_entries-put :
      (k : String) (v : V) (d : Dict V)
      → all_entries d ≡ true
      → p k v ≡ true
      → all_entries (put k v d) ≡ true
  unfolding put
  all_entries-put k v [] h e = ground (arith, e)
  all_entries-put k v ((j, w) ∷ d) h e = elim (Bool-cases (j == k)) [
    | inl same ↦ let q : j ≡ k = (eq_iff j k).0 same in rw (same, q) (ground (arith, e, h))
    | inr other ↦ rw other (ground (arith, all_entries-put k v d, e, h))
  ]

  pub all_entries-pop :
      (k : String) (d : Dict V) → all_entries d ≡ true → all_entries (pop k d) ≡ true
  unfolding pop
  all_entries-pop k [] h = refl
  all_entries-pop k ((j, w) ∷ d) h = ground (arith, all_entries-pop k d, h)

  pub all_entries-get :
      (k : String) (v : V) (d : Dict V) → all_entries d ≡ true → get k d ≡ some v → p k v ≡ true
  unfolding get
  all_entries-get k v [] h e = ground (arith, e)
  all_entries-get k v ((j, w) ∷ d) h e = elim (Bool-cases (j == k)) [
    | inl same ↦
        let q : j ≡ k = (eq_iff j k).0 same in
        let f : some w ≡ some v = rw same at e in ground (arith, h, f, q)
    | inr other ↦ all_entries-get k v d (ground (arith, h)) (rw other at e)
  ]

module _ {ℓ} {V : Type ℓ} where
  pub put-put : (k : String) (v w : V) (d : Dict V) → put k v (put k w d) ≡ put k v d
  unfolding put
  put-put k v w [] = ground (arith, eq_iff k k)
  put-put k v w ((j, u) ∷ d) = elim (Bool-cases (j == k)) [
    | inl same ↦ rw (same, same, put) refl
    | inr other ↦ rw (other, other, put) (ap (λ l. (j, u) ∷ l) (put-put k v w d))
  ]

pub get-empty {ℓ} : {V : Type ℓ} (k : String) → get {V = V} k [] ≡ none
unfolding get
get-empty k = refl

pub ruleset dict_laws = (get-put, get-pop, get-empty, eq_refl)
