-- ===== src/Knowledge/Paths/Correct.antt =====
-- A path is found just where there is a route.
use mathlib.Core.List.{reverse, reverse-append}
use hermes_kernel_v.Prelude.{
  ℕ, zero, suc, ◌<◌, String, ◌≡◌, ◌⊎◌, inl, inr, refl, sym, subst, true, false, not, ◌&&◌, ◌==◌,
  eq_iff, eq_refl, List, [], ◌∷◌, ◌++◌, some, arith, Bool-cases, is_none, length, both-and,
}
use hermes_kernel_v.Prelude.Dict
use hermes_kernel_v.Prelude.Dict.{Dict}
use hermes_kernel_v.Prelude.Texts.{has, outside-le-length, has-cases, has-cons_self, has-nil}
use hermes_kernel_v.Knowledge.Domain.{Relation, KnowledgeGraph}
use hermes_kernel_v.Knowledge.{other_end, in_graph}
use hermes_kernel_v.Knowledge.Paths.{
  Search, PathResult, path, no_path, trace, reversed, read_back, beginning, adjacent, ends,
  find_path,
}
use hermes_kernel_v.Knowledge.Paths.Routes.{
  Listed, Route, stop, hop, adjacent-Listed, adjacent-ends,
}
use hermes_kernel_v.Knowledge.Paths.Searching.{Trail, at, back, IsSearch, not_keyed}
use hermes_kernel_v.Knowledge.Paths.Ending.{search-IsOver}

-- The relations read back from `prev`.
record IsTraced (g : KnowledgeGraph) (from_id to : String) (o : PathResult) : Type 0 where
  rs : List Relation
  returned : o ≡ path rs
  route : Route g to from_id (reverse rs)

module _ (g : KnowledgeGraph) (from_id to cur : String) (left : List Relation) (s : Search)
    (i : IsSearch (adjacent g) from_id cur left s) where
  trace-IsTraced :
      (fuel : ℕ) (v : String) (n : ℕ) (rs : List Relation)
      → Trail s.prev from_id v n
      → n < fuel
      → Route g to v (reverse rs)
      → IsTraced g from_id to (trace fuel s.prev from_id v rs)
  unfolding trace
  trace-IsTraced zero v n rs t h w = absurd (omega arith)
  trace-IsTraced (suc fuel) _ _ rs at h w =
      rw (eq_refl from_id, trace) (record { rs = rs; returned = refl; route = w })
  trace-IsTraced (suc fuel) _ _ rs (back v p r n e away t) h w =
      let (m, l, q) = i.keyed v p r e in
      let (listed, touching) = (adjacent-Listed g r p).0 l in
      let w' : Route g to p (r ∷ reverse rs) =
        hop p r (reverse rs) listed touching (subst (λ x. Route g to x (reverse rs)) (sym q) w) in
      rw (away, e, trace)
        (trace-IsTraced fuel p n (rs ++ r ∷ []) t (omega arith)
          (subst (Route g to p) (sym (reverse-append rs (r ∷ []))) w'))

  -- Where nothing is left to look at, every entity on a route from a seen one has been seen.
  Route-seen :
      (a : String) (rs : List Relation)
      → s.queue ≡ []
      → left ≡ []
      → has a s.seen ≡ true
      → Route g to a rs
      → has to s.seen ≡ true
  Route-seen a rs e f m stop = m
  Route-seen _ rs e f m (hop a r rs' listed touching w) =
      Route-seen (other_end a r) rs' e f
        (elim (i.closed a r m ((adjacent-Listed g r a).1 (listed, touching))) [
          | inl w' ↦ absurd (cc (subst (λ (q : List String). has a q ≡ true) e w', has-nil a))
          | inr h ↦ elim h [ inl done ↦ done | inr more ↦ absurd (subst (Listed r) f more.1) ]
        ])
        w

  -- An entity that was seen has an entry in `prev`, or is where the search began.
  Trail-entry :
      (v : String) (n : ℕ)
      → Trail s.prev from_id v n
      → (is_none (Dict.get v s.prev) && not (from_id == v)) ≡ false
  Trail-entry _ _ at = ground (arith, eq_refl from_id)
  Trail-entry _ _ (back v p r n e away t) = rw e refl

-- What is found of the way between two entities.
pub data IsFound (g : KnowledgeGraph) (from_id to : String) : PathResult → Type 0 where
  reached : (rs : List Relation) → Route g to from_id rs → IsFound g from_id to (path rs)
  unreachable : ((rs : List Relation) → Route g to from_id rs → ⊥) → IsFound g from_id to no_path

only_start : (from_id v : String) → has v (from_id ∷ []) ≡ true → Trail [] from_id v 0
only_start from_id v m = elim (has-cases v from_id [] m) [
  | inl e ↦ subst (λ x. Trail [] from_id x 0) e at
  | inr none_left ↦ absurd (cc (none_left, has-nil v))
]

module _ (g : KnowledgeGraph) (from_id to : String) where
  traced-IsFound : (o : PathResult) → IsTraced g from_id to o → IsFound g from_id to (reversed o)
  traced-IsFound o t =
      subst (λ q. IsFound g from_id to (reversed q)) (sym t.returned)
        (reached (reverse t.rs) t.route)

  read_back-IsFound :
      (cur : String) (left : List Relation) (s : Search)
      → IsSearch (adjacent g) from_id cur left s
      → ((has to s.seen ≡ true) ⊎ ((s.queue ≡ []) × (left ≡ [])))
      → IsFound g from_id to (read_back from_id to (some s))
  read_back-IsFound cur left s i over = elim (Bool-cases (has to s.seen)) [
    | inl seen ↦
        let (n, le, t) = i.traced to seen in
        rw (Trail-entry g from_id to cur left s i to n t) (
          traced-IsFound (trace (suc (length s.prev)) s.prev from_id to []) (
            trace-IsTraced g from_id to cur left s i (suc (length s.prev)) to n [] t (omega arith)
              stop))
    | inr unseen ↦
        let entry = not_keyed (adjacent g) from_id cur to left s i unseen in
        let away : (from_id == to) ≡ false = elim (Bool-cases (from_id == to)) [
          | inl same ↦
              absurd (
                cc (subst (λ x. has x s.seen ≡ true) ((eq_iff from_id to).0 same) i.source, unseen))
          | inr other ↦ other
        ] in
        rw (entry, away)
          (unreachable (λ rs w. elim over [
            | inl seen ↦ absurd (cc (seen, unseen))
            | inr done ↦ absurd (
                cc (
                  Route-seen g from_id to cur left s i from_id rs done.0 done.1 i.source w,
                  unseen,
                ))
          ]))
  ]

  starts : IsSearch (adjacent g) from_id from_id [] (beginning from_id)
  starts = record {
    source = has-cons_self from_id [];
    queued = λ v m. m;
    keyed = λ v p r e. absurd (cc (e, Dict.get-empty {V = String × Relation} v));
    traced = λ v m. (0, omega arith, only_start from_id v m);
    closed = λ u r m k. inl m;
  }

-- Between two entities of the graph `find_path` finds a path, which leads from the one to the other
-- along relations of the graph, if there is any such route, however long; if it finds none, there is
-- none. The search and the reading back of the path come to an end, and meet no missing key. The
-- bound on the depth has no effect.
pub find_path-IsFound :
    (g : KnowledgeGraph) (from_id to : String) (max_depth : ℕ)
    → in_graph g from_id ≡ true
    → in_graph g to ≡ true
    → IsFound g from_id to (find_path g from_id to max_depth)
unfolding find_path
find_path-IsFound g from_id to max_depth h k =
    let all = ends (Dict.values g.relations) in
    let o =
      search-IsOver (adjacent g) all (λ u r l. adjacent-ends g r u l) (suc (suc (length all)))
        from_id to from_id (from_id ∷ []) (beginning from_id) refl
        (omega (arith, outside-le-length (from_id ∷ []) all)) (starts g from_id to) in
    rw (both-and (in_graph g from_id) (in_graph g to) h k) (
      subst (λ q. IsFound g from_id to (read_back from_id to q)) (sym o.returned)
        (read_back-IsFound g from_id to o.cur o.left o.last o.kept o.over))
