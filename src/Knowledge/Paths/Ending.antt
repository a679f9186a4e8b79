-- ===== src/Knowledge/Paths/Ending.antt =====
-- The search comes to an end: each round takes an entity from the queue, and each is queued once.
use hermes_kernel_v.Prelude.{
  ℕ, zero, suc, ◌+◌, ◌≤◌, ◌<◌, String, ◌≡◌, ◌⊎◌, inl, inr, refl, sym, subst, ap, true, ◌==◌, eq_iff,
  List, [], ◌∷◌, Option, some, arith, Bool-cases, length, length-append,
}
use hermes_kernel_v.Prelude.Texts.{has, outside, has-cons_self, outside-add}
use hermes_kernel_v.Knowledge.Domain.{Relation}
use hermes_kernel_v.Knowledge.{other_end}
use hermes_kernel_v.Knowledge.Paths.{Search, offer, scan, search}
use hermes_kernel_v.Knowledge.Paths.Routes.{Listed}
use hermes_kernel_v.Knowledge.Paths.Searching.{IsSearch, scan-IsSearch, leave_queue}

module _ (adj : String → List Relation) (ids : List String)
    (within : (u : String) (r : Relation) → Listed r (adj u) → has (other_end u r) ids ≡ true) where
  -- What the search has still to do.
  abbrev work : Search → ℕ
  work s = outside s.seen ids + length s.queue

  offer-work :
      (cur : String) (s : Search) (r : Relation)
      → Listed r (adj cur)
      → work (offer cur s r) ≤ work s
  offer-work cur s r l = elim (Bool-cases (has (other_end cur r) s.seen)) [
    | inl old ↦ rw old (omega arith)
    | inr new ↦ rw new (
        omega (
          arith,
          outside-add (other_end cur r) s.seen ids (within cur r l) new,
          length-append s.queue (other_end cur r ∷ []),
        ))
  ]

  scan-work :
      (cur : String) (rs : List Relation) (s : Search)
      → ((r : Relation) → Listed r rs → Listed r (adj cur))
      → work (scan cur rs s) ≤ work s
  unfolding scan
  scan-work cur [] s l = omega arith
  scan-work cur (r ∷ rs) s l = omega (
    arith,
    scan-work cur rs (offer cur s r) (λ q m. l q (inr m)),
    offer-work cur s r (l r (inl refl)),
  )

  -- How the search ends: with the entity that it looks for, or with nothing left to look at.
  pub record IsOver (from_id to : String) (o : Option Search) : Type 0 where
    pub last : Search
    pub cur : String
    pub left : List Relation
    pub returned : o ≡ some last
    pub kept : IsSearch adj from_id cur left last
    pub over : (has to last.seen ≡ true) ⊎ ((last.queue ≡ []) × (left ≡ []))

  pub search-IsOver :
      (fuel : ℕ) (from_id to other : String) (queue : List String) (s : Search)
      → s.queue ≡ queue
      → work s < fuel
      → IsSearch adj from_id other [] s
      → IsOver from_id to (search fuel adj to queue s)
  unfolding search
  search-IsOver zero from_id to other queue s e h i = absurd (omega arith)
  search-IsOver (suc fuel) from_id to other [] s e h i = record {
    last = s;
    cur = other;
    left = [];
    returned = ap (λ (q : List String). some (record s { queue = q })) (sym e);
    kept = i;
    over = inr (e, refl);
  }
  search-IsOver (suc fuel) from_id to other (cur ∷ rest) s e h i =
      let on : has cur s.seen ≡ true = i.queued cur (rw e (has-cons_self cur rest)) in
      let j = leave_queue adj from_id cur other rest s e i in
      elim (Bool-cases (cur == to)) [
        | inl same ↦
            rw (same, search)
              (record {
                last = record s { queue = rest };
                cur = cur;
                left = adj cur;
                returned = refl;
                kept = j;
                over = inl (subst (λ x. has x s.seen ≡ true) ((eq_iff cur to).0 same) on);
              })
        | inr more ↦
            let t = scan cur (adj cur) (record s { queue = rest }) in
            rw (more, search)
              (search-IsOver fuel from_id to cur t.queue t refl
                (omega (
                  arith,
                  scan-work cur (adj cur) (record s { queue = rest }) (λ r l. l),
                  ap length e,
                ))
                (scan-IsSearch adj from_id cur (adj cur) (record s { queue = rest }) on (λ r l. l)
                  j))
      ]
