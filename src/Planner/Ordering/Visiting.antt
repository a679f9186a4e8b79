-- ===== src/Planner/Ordering/Visiting.antt =====
-- A visit keeps the order right, visits what it should, and ends.
use mathlib.Core.List.{map-append}
use hermes_kernel_v.Prelude.{
  String, ◌≡◌, refl, sym, subst, ap, ◌∙◌, ◌⊎◌, inl, inr, true, false, eq_iff, List, [], ◌∷◌, ◌++◌,
  Option, some, arith, is_some, Bool-cases, ◌==◌,
}
use hermes_kernel_v.Prelude.Texts.{
  has, distinct_texts, has-cons, has-cons_self, has-nil, has-append, distinct_texts-concat,
}
use hermes_kernel_v.Planner.Domain.{PlanStep}
use hermes_kernel_v.Planner.Ordering.{
  Progress, Sorting, done, cycle_at, step_ids, place, chain, visit_all,
}
use hermes_kernel_v.Planner.Ordering.Walks.{Leads, one, next, Starts, Leads-Starts, concat-split}

-- What is placed stands in order, with all it depends on before it.
pub record IsOrdered (known : String → Option PlanStep) (p : Progress) : Type 0 where
  pub same : (x : String) → has x p.visited ≡ has x (step_ids p.order)
  pub found : (x : String) → has x p.visited ≡ true → is_some (known x) ≡ true
  pub single : distinct_texts (step_ids p.order) ≡ true
  pub own :
      (xs ys : List PlanStep) (s : PlanStep) → p.order ≡ xs ++ s ∷ ys → known s.step_id ≡ some s
  pub before :
      (xs ys : List PlanStep) (s : PlanStep) (d : String)
      → p.order ≡ xs ++ s ∷ ys
      → has d s.dependencies ≡ true
      → is_some (known d) ≡ true
      → has d (step_ids xs) ≡ true
  pub closed :
      (x d : String) (s : PlanStep)
      → has x p.visited ≡ true
      → known x ≡ some s
      → has d s.dependencies ≡ true
      → is_some (known d) ≡ true
      → has d p.visited ≡ true
  pub acyclic : (x : String) → has x p.visited ≡ true → Leads known x x → ⊥

-- How a visit of these ids ends that has the texts of the stack above it.
pub data Visited (known : String → Option PlanStep) (stack todo : List String) (p : Progress)
    : Sorting → Type 0 where
  fine :
      (q : Progress)
      → IsOrdered known q
      → ((x : String) → has x p.visited ≡ true → has x q.visited ≡ true)
      → ((x : String) → has x stack ≡ true → has x q.visited ≡ has x p.visited)
      → ((x : String) → has x todo ≡ true → is_some (known x) ≡ true → has x q.visited ≡ true)
      → Visited known stack todo p (done q)
  loops : (c : String) → Leads known c c → Visited known stack todo p (cycle_at c)

module _ (known : String → Option PlanStep) where
  Visited-cons :
      (stack sids : List String) (sid : String) (p q : Progress) (o : Sorting)
      → ((x : String) → has x p.visited ≡ true → has x q.visited ≡ true)
      → ((x : String) → has x stack ≡ true → has x q.visited ≡ has x p.visited)
      → (is_some (known sid) ≡ true → has sid q.visited ≡ true)
      → Visited known stack sids q o
      → Visited known stack (sid ∷ sids) p o
  Visited-cons stack sids sid p q _ grows kept here (fine r i grows' kept' all) =
      fine r i (λ x h. grows' x (grows x h)) (λ x h. kept' x h ∙ kept x h)
        (λ x m k. elim (Bool-cases (sid == x)) [
          | inl same ↦
              let e : sid ≡ x = (eq_iff sid x).0 same in
              subst (λ y. has y r.visited ≡ true) e
                (grows' sid (here (subst (λ y. is_some (known y) ≡ true) (sym e) k)))
          | inr other ↦ all x (ground (arith, m, other, has-cons x sid sids)) k
        ])
  Visited-cons stack sids sid p q _ grows kept here (loops c w) = loops c w

  chain-Visited :
      (stack sids : List String) (sid : String) (p : Progress) (o : Sorting)
      (k : Progress → Sorting)
      → Visited known stack (sid ∷ []) p o
      → ((q : Progress) → IsOrdered known q → Visited known stack sids q (k q))
      → Visited known stack (sid ∷ sids) p (chain o k)
  chain-Visited stack sids sid p _ k (fine q j grows kept here) rest =
      Visited-cons stack sids sid p q (k q) grows kept (here sid (has-cons_self sid [])) (rest q j)
  chain-Visited stack sids sid p _ k (loops c w) rest = loops c w

  pub visit_all-Visited :
      (stack : List String) (f : String → Progress → Sorting) (sids : List String) (p : Progress)
      → ((sid : String) (q : Progress)
          → has sid sids ≡ true
          → IsOrdered known q
          → Visited known stack (sid ∷ []) q (f sid q))
      → IsOrdered known p
      → Visited known stack sids p (visit_all f sids p)
  unfolding visit_all
  visit_all-Visited stack f [] p each i =
      fine p i (λ x h. h) (λ x h. refl) (λ x m k. absurd (cc (m, has-nil x)))
  visit_all-Visited stack f (sid ∷ sids) p each i =
      chain-Visited stack sids sid p (f sid p) (λ q. visit_all f sids q)
        (each sid p (has-cons_self sid sids) i)
        (λ q j.
          visit_all-Visited stack f sids q
            (λ x r m. each x r (ground (arith, m, has-cons x sid sids))) j)

pub some_found :
    (known : String → Option PlanStep) (x : String) (s : PlanStep)
    → known x ≡ some s
    → is_some (known x) ≡ true
some_found known x s e = rw e refl

same_step : (s t : PlanStep) (o : Option PlanStep) → o ≡ some s → o ≡ some t → s ≡ t
same_step s t o e f = cc

-- A chain that starts at a visited step stays among the visited ones.
Leads-visited :
    (known : String → Option PlanStep) (q : Progress) (a b : String)
    → IsOrdered known q
    → has a q.visited ≡ true
    → Leads known a b
    → is_some (known b) ≡ true
    → has b q.visited ≡ true
Leads-visited known q a _ i m (one b s e l) k = i.closed a b s m e l k
Leads-visited known q a _ i m (next b c s w e l) k =
    i.closed b c s (Leads-visited known q a b i m w (some_found known b s e)) e l k

module _ (known : String → Option PlanStep)
    (own_id : (x : String) (s : PlanStep) → known x ≡ some s → s.step_id ≡ x) (sid : String)
    (step : PlanStep) (q : Progress) (i : IsOrdered known q) (e : known sid ≡ some step)
    (new : has sid q.visited ≡ false)
    (deps : (d : String)
      → has d step.dependencies ≡ true
      → is_some (known d) ≡ true
      → has d q.visited ≡ true) where
  Starts-acyclic : Starts known sid sid → ⊥
  Starts-acyclic h =
      let first : step ≡ h.step = same_step step h.step (known sid) e h.found in
      let l : has h.dep step.dependencies ≡ true =
        subst (λ (t : PlanStep). has h.dep t.dependencies ≡ true) (sym first) h.listed in
      elim h.onward [
        | inl same ↦
            let m =
              deps h.dep l
                (subst (λ x. is_some (known x) ≡ true) (sym same) (some_found known sid step e)) in
            cc (subst (λ x. has x q.visited ≡ true) same m, new)
        | inr w ↦
            let g = Leads-Starts known h.dep sid w in
            let m = deps h.dep l (some_found known h.dep g.step g.found) in
            cc (Leads-visited known q h.dep sid i m w (some_found known sid step e), new)
      ]

  ids-concat : step_ids (q.order ++ step ∷ []) ≡ step_ids q.order ++ sid ∷ []
  ids-concat =
      map-append (λ (s : PlanStep). s.step_id) q.order (step ∷ [])
      ∙ ap (λ x. step_ids q.order ++ x ∷ []) (own_id sid step e)

  visited_or_new :
      (x : String) → has x (sid ∷ q.visited) ≡ true → (sid ≡ x) ⊎ (has x q.visited ≡ true)
  visited_or_new x m = elim (Bool-cases (sid == x)) [
    | inl same ↦ inl ((eq_iff sid x).0 same)
    | inr other ↦ inr (ground (arith, m, other, has-cons x sid q.visited))
  ]

  pub visited_still : (x : String) → has x q.visited ≡ true → has x (sid ∷ q.visited) ≡ true
  visited_still x m = ground (arith, m, has-cons x sid q.visited)

  pub place-IsOrdered : IsOrdered known (place sid step q)
  place-IsOrdered = record {
    same = λ x. rw ids-concat (
        ground (
          arith,
          has-cons x sid q.visited,
          has-append x (step_ids q.order) (sid ∷ []),
          has-cons x sid [],
          has-nil x,
          i.same x,
        ));
    found = λ x m. elim (visited_or_new x m) [
      | inl same ↦ subst (λ y. is_some (known y) ≡ true) same (some_found known sid step e)
      | inr old ↦ i.found x old
    ];
    single =
        rw ids-concat
          (distinct_texts-concat (step_ids q.order) sid i.single (sym (i.same sid) ∙ new));
    own = λ xs ys s h. elim (concat-split q.order xs ys step s h) [
      | inl (p, t) ↦
          subst (λ (z : PlanStep). known z.step_id ≡ some z) t
            (subst (λ x. known x ≡ some step) (sym (own_id sid step e)) e)
      | inr (zs, p) ↦ i.own xs zs s p
    ];
    before = λ xs ys s d h m k. elim (concat-split q.order xs ys step s h) [
      | inl (p, t) ↦
          let l : has d step.dependencies ≡ true =
            subst (λ (z : PlanStep). has d z.dependencies ≡ true) (sym t) m in
          subst (λ (z : List PlanStep). has d (step_ids z) ≡ true) p (sym (i.same d) ∙ deps d l k)
      | inr (zs, p) ↦ i.before xs zs s d p m k
    ];
    closed = λ x d s m f l k. visited_still d (elim (visited_or_new x m) [
      | inl same ↦
          let t : step ≡ s =
            same_step step s (known x) (subst (λ y. known y ≡ some step) same e) f in
          deps d (subst (λ (z : PlanStep). has d z.dependencies ≡ true) (sym t) l) k
      | inr old ↦ i.closed x d s old f l k
    ]);
    acyclic = λ x m w. elim (visited_or_new x m) [
      | inl same ↦
          Starts-acyclic (Leads-Starts known sid sid (subst (λ y. Leads known y y) (sym same) w))
      | inr old ↦ i.acyclic x old w
    ];
  }
