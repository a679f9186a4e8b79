-- ===== src/Planner/Ordering/Correct.antt =====
-- The order in which a plan is executed: dependencies first, or a cycle is named.
use hermes_kernel_v.Prelude.{
  ℕ, zero, suc, ◌<◌, String, ◌≡◌, refl, sym, subst, ap, ◌∙◌, ◌⊎◌, inl, inr, true, false, ◌||◌,
  eq_iff, List, [], ◌∷◌, ◌++◌, Option, some, arith, is_some, Bool-cases, Option-cases, Bool-ext,
  ◌==◌, length,
}
use hermes_kernel_v.Prelude.Dict
use hermes_kernel_v.Prelude.Dict.{Dict, get-put}
use hermes_kernel_v.Prelude.Texts.{
  has, outside, distinct_texts, has-cons, has-cons_self, has-nil, outside-add,
}
use hermes_kernel_v.Planner.Domain.{PlanStep}
use hermes_kernel_v.Planner.Ordering.{
  Progress, Sorting, done, cycle_at, step_ids, place, chain, visit, index, by_id, toposort,
  nothing_placed,
}
use hermes_kernel_v.Planner.Ordering.Walks.{Leads, one, next, Leads-Starts, nil-split}
use hermes_kernel_v.Planner.Ordering.Visiting.{
  IsOrdered, Visited, fine, loops, visit_all-Visited, place-IsOrdered, visited_still, some_found,
}

module _ (known : String → Option PlanStep) (ids : List String)
    (own_id : (x : String) (s : PlanStep) → known x ≡ some s → s.step_id ≡ x)
    (listed : (x : String) (s : PlanStep) → known x ≡ some s → has x ids ≡ true) where
  place-Visited :
      (stack : List String) (sid : String) (step : PlanStep) (p : Progress) (o : Sorting)
      → known sid ≡ some step
      → has sid p.visited ≡ false
      → has sid stack ≡ false
      → Visited known (sid ∷ stack) step.dependencies p o
      → Visited known stack (sid ∷ []) p (chain o (λ q. done (place sid step q)))
  place-Visited stack sid step p _ e new off (loops c w) = loops c w
  place-Visited stack sid step p _ e new off (fine q j grows kept here) =
      let new' : has sid q.visited ≡ false = kept sid (has-cons_self sid stack) ∙ new in
      fine (place sid step q) (place-IsOrdered known own_id sid step q j e new' here)
        (λ x h. visited_still known own_id sid step q j e new' here x (grows x h))
        (λ x h.
          ground
            (arith, kept x, has-cons x sid stack, has-cons x sid q.visited, eq_iff sid x, h, off))
        (λ x m k. ground (arith, m, has-cons x sid [], has-nil x, has-cons x sid q.visited))

  stays_put :
      (stack : List String) (sid : String) (p : Progress)
      → IsOrdered known p
      → (is_some (known sid) ≡ true → has sid p.visited ≡ true)
      → Visited known stack (sid ∷ []) p (done p)
  stays_put stack sid p i h =
      fine p i (λ x m. m) (λ x m. refl)
        (λ x m k.
          let e : sid ≡ x = ground (arith, m, has-cons x sid [], has-nil x, eq_iff sid x) in
          subst (λ y. has y p.visited ≡ true) e
            (h (subst (λ y. is_some (known y) ≡ true) (sym e) k)))

  -- Each text of the longer stack leads to the dependency.
  Leads-down :
      (stack : List String) (sid d : String) (step : PlanStep)
      → known sid ≡ some step
      → has d step.dependencies ≡ true
      → ((x : String) → has x stack ≡ true → Leads known x sid)
      → (x : String) → has x (sid ∷ stack) ≡ true
      → Leads known x d
  Leads-down stack sid d step e l above x m = elim (Bool-cases (sid == x)) [
    | inl same ↦ subst (λ y. Leads known y d) ((eq_iff sid x).0 same) (one d step e l)
    | inr other ↦ next sid d step (above x (ground (arith, m, other, has-cons x sid stack))) e l
  ]

  pub visit-Visited :
      (fuel : ℕ) (stack : List String) (sid : String) (p : Progress)
      → outside stack ids < fuel
      → IsOrdered known p
      → ((x : String) → has x stack ≡ true → Leads known x sid)
      → Visited known stack (sid ∷ []) p (visit known fuel stack sid p)
  unfolding visit
  visit-Visited zero stack sid p h i above = absurd (omega arith)
  visit-Visited (suc fuel) stack sid p h i above = elim (Bool-cases (has sid p.visited)) [
    | inl old ↦ rw (old, visit) (stays_put stack sid p i (λ k. old))
    | inr new ↦ elim (Bool-cases (has sid stack)) [
      | inl on ↦ rw (new, on, visit) (loops sid (above sid on))
      | inr off ↦ elim (Option-cases (known sid)) [
        | inl unknown ↦
            rw (new, off, unknown, visit)
              (stays_put stack sid p i (λ k. absurd (cc (k, ap is_some unknown))))
        | inr (step, e) ↦
            let less = outside-add sid stack ids (listed sid step e) off in
            rw (new, off, e, visit)
              (place-Visited stack sid step p _ e new off (
                visit_all-Visited known (sid ∷ stack)
                  (λ dep q. visit known fuel (sid ∷ stack) dep q) step.dependencies p
                  (λ d q l j.
                    visit-Visited fuel (sid ∷ stack) d q (omega arith) j
                      (Leads-down stack sid d step e l above))
                  i))
      ]
    ]
  ]

index-get :
    (x : String) (s : PlanStep) (steps : List PlanStep) (d : Dict PlanStep)
    → Dict.get x (index steps d) ≡ some s
    → ((s.step_id ≡ x) × (has x (step_ids steps) ≡ true)) ⊎ (Dict.get x d ≡ some s)
unfolding index
index-get x s [] d h = inr h
index-get x s (t ∷ steps) d h = elim (index-get x s steps (Dict.put t.step_id t d) h) [
  | inl (p, m) ↦ inl (p, ground (arith, m, has-cons x t.step_id (step_ids steps)))
  | inr g ↦ elim (Bool-cases (t.step_id == x)) [
    | inl same ↦
        let e : some t ≡ some s = rw (get-put t.step_id x t d, same) at g in
        let q : t ≡ s = cc in
        inl (
          subst (λ (z : PlanStep). z.step_id ≡ x) q ((eq_iff t.step_id x).0 same),
          ground (arith, same, has-cons x t.step_id (step_ids steps)),
        )
    | inr other ↦ inr (rw (get-put t.step_id x t d, other) at g)
  ]
]

index-has :
    (x : String) (steps : List PlanStep) (d : Dict PlanStep)
    → (has x (step_ids steps) || is_some (Dict.get x d)) ≡ true
    → is_some (Dict.get x (index steps d)) ≡ true
unfolding index
index-has x [] d h = rw has-nil at h
index-has x (t ∷ steps) d h =
    index-has x steps (Dict.put t.step_id t d)
      (ground (arith, h, get-put t.step_id x t d, has-cons x t.step_id (step_ids steps)))

distinct-nil : distinct_texts [] ≡ true
unfolding distinct_texts
distinct-nil = refl

outside-nil : (us : List String) → outside [] us ≡ length us
unfolding outside
outside-nil [] = refl
outside-nil (u ∷ us) = rw (has-nil u, outside) (ap suc (outside-nil us))

length-step_ids : (steps : List PlanStep) → length (step_ids steps) ≡ length steps
length-step_ids [] = refl
length-step_ids (s ∷ steps) = ap suc (length-step_ids steps)

-- The steps in an order in which each stands behind all that it depends on.
pub record Places (steps order : List PlanStep) : Type 0 where
  pub single : distinct_texts (step_ids order) ≡ true
  pub all_there : (x : String) → has x (step_ids order) ≡ has x (step_ids steps)
  pub own :
      (xs ys : List PlanStep) (s : PlanStep) → order ≡ xs ++ s ∷ ys → by_id steps s.step_id ≡ some s
  pub before :
      (xs ys : List PlanStep) (s : PlanStep) (d : String)
      → order ≡ xs ++ s ∷ ys
      → has d s.dependencies ≡ true
      → has d (step_ids steps) ≡ true
      → has d (step_ids xs) ≡ true

pub data IsSorted (steps : List PlanStep) : Sorting → Type 0 where
  sorted :
      (p : Progress)
      → Places steps p.order
      → ((x : String) → Leads (by_id steps) x x → ⊥)
      → IsSorted steps (done p)
  cyclic : (c : String) → Leads (by_id steps) c c → IsSorted steps (cycle_at c)

module _ (steps : List PlanStep) where
  by_id-own : (x : String) (s : PlanStep) → by_id steps x ≡ some s → s.step_id ≡ x
  unfolding by_id
  by_id-own x s h = elim (index-get x s steps [] h) [
    | inl (p, m) ↦ p
    | inr g ↦ absurd (cc (g, Dict.get-empty {V = PlanStep} x))
  ]

  pub by_id-listed :
      (x : String) (s : PlanStep) → by_id steps x ≡ some s → has x (step_ids steps) ≡ true
  unfolding by_id
  by_id-listed x s h = elim (index-get x s steps [] h) [
    | inl (p, m) ↦ m
    | inr g ↦ absurd (cc (g, Dict.get-empty {V = PlanStep} x))
  ]

  by_id-has : (x : String) → has x (step_ids steps) ≡ true → is_some (by_id steps x) ≡ true
  unfolding by_id
  by_id-has x m = index-has x steps [] (ground (arith, m))

  some-listed : (x : String) → is_some (by_id steps x) ≡ true → has x (step_ids steps) ≡ true
  some-listed x h = elim (Option-cases (by_id steps x)) [
    | inl none_there ↦ absurd (cc (h, ap is_some none_there))
    | inr (s, e) ↦ by_id-listed x s e
  ]

  nothing-IsOrdered : IsOrdered (by_id steps) nothing_placed
  nothing-IsOrdered = record {
    same = λ x. refl;
    found = λ x m. absurd (cc (m, has-nil x));
    single = distinct-nil;
    own = λ xs ys s h. absurd (nil-split xs ys s h);
    before = λ xs ys s d h m k. absurd (nil-split xs ys s h);
    closed = λ x d s m f l k. absurd (cc (m, has-nil x));
    acyclic = λ x m w. absurd (cc (m, has-nil x));
  }

  IsOrdered-IsSorted :
      (o : Sorting) → Visited (by_id steps) [] (step_ids steps) nothing_placed o → IsSorted steps o
  IsOrdered-IsSorted _ (loops c w) = cyclic c w
  IsOrdered-IsSorted _ (fine p i grows kept here) =
      sorted p
        (record {
          single = i.single;
          all_there = λ x.
              sym (i.same x)
              ∙ Bool-ext (has x p.visited) (has x (step_ids steps))
                  (λ m. some-listed x (i.found x m)) (λ m. here x m (by_id-has x m));
          own = i.own;
          before = λ xs ys s d h m k. i.before xs ys s d h m (by_id-has d k);
        })
        (λ x w.
          let s = Leads-Starts (by_id steps) x x w in
          i.acyclic x
            (here x (by_id-listed x s.step s.found) (some_found (by_id steps) x s.step s.found)) w)

-- A plan's steps are put in an order in which every step stands, once, behind all the steps of the
-- plan that it depends on, and then no step depends on itself, directly or through others; or an id
-- is named that depends on itself. Of steps that share an id the last is taken, and a dependency on
-- an id that no step has is passed over. The recursion's fuel is enough.
pub toposort-IsSorted : (steps : List PlanStep) → IsSorted steps (toposort steps)
unfolding toposort
toposort-IsSorted steps = IsOrdered-IsSorted steps (toposort steps) (
    visit_all-Visited (by_id steps) [] (λ sid p. visit (by_id steps) (suc (length steps)) [] sid p)
      (step_ids steps) nothing_placed
      (λ sid q m j.
        visit-Visited (by_id steps) (step_ids steps) (by_id-own steps) (by_id-listed steps)
          (suc (length steps)) [] sid q
          (omega (arith, outside-nil (step_ids steps), length-step_ids steps)) j
          (λ x n. absurd (cc (n, has-nil x))))
      (nothing-IsOrdered steps))
