-- ===== src/Knowledge/Paths/Routes.antt =====
-- Routes along the relations of a graph, and what the adjacency lists hold.
use hermes_kernel_v.Prelude.{
  String, ◌≡◌, ◌↔◌, ◌⊎◌, inl, inr, refl, sym, subst, ap, Bool, true, ◌==◌, eq_iff, eq_refl, List,
  [], ◌∷◌, ◌++◌, arith, Bool-cases, and-both, if◌then◌else◌,
}
use hermes_kernel_v.Prelude.Dict
use hermes_kernel_v.Prelude.Dict.{Dict, get_or-put_self, get_or-put_ne}
use hermes_kernel_v.Prelude.Texts.{has, has-cons}
use hermes_kernel_v.Knowledge.Domain.{Relation, KnowledgeGraph}
use hermes_kernel_v.Knowledge.{other_end, touches}
use hermes_kernel_v.Knowledge.Paths.{note, enter, adjacency, adjacent, ends}

abbrev pub Listed : Relation → List Relation → Type 0
Listed r [] = ⊥
Listed r (x ∷ xs) = (x ≡ r) ⊎ Listed r xs

-- The relations lead from one entity to the other, each in its direction or, where it is
-- bidirectional, in either.
pub data Route (g : KnowledgeGraph) (to : String) : String → List Relation → Type 0 where
  stop : Route g to to []
  hop :
      (a : String) (r : Relation) (rs : List Relation)
      → Listed r (Dict.values g.relations)
      → touches a r ≡ true
      → Route g to (other_end a r) rs
      → Route g to a (r ∷ rs)

pub Listed-append :
    (r : Relation) (xs ys : List Relation) → Listed r (xs ++ ys) ↔ (Listed r xs ⊎ Listed r ys)
Listed-append r [] ys = (inr, λ h. elim h [ inl no_way ↦ absurd no_way | inr k ↦ k ])
Listed-append r (x ∷ xs) ys =
    let ih = Listed-append r xs ys in
    (
      λ h. elim h [
        | inl e ↦ inl (inl e)
        | inr k ↦ elim (ih.0 k) [ inl l ↦ inl (inr l) | inr l ↦ inr l ]
      ],
      λ h. elim h [
        | inl k ↦ elim k [ inl e ↦ inl e | inr l ↦ inr (ih.1 (inl l)) ]
        | inr l ↦ inr (ih.1 (inr l))
      ],
    )

first_ends :
    (u : String) (x : Relation) (rs : List Relation)
    → has (other_end u x) (x.source_id ∷ x.target_id ∷ ends rs) ≡ true
first_ends u x rs = ground (
  arith,
  eq_refl x.target_id,
  eq_refl x.source_id,
  has-cons (other_end u x) x.source_id (x.target_id ∷ ends rs),
  has-cons (other_end u x) x.target_id (ends rs),
)

nothing_noted : (u : String) → Dict.get_or {V = List Relation} u [] [] ≡ []
unfolding Dict.get
nothing_noted u = refl

module _ (r : Relation) (u : String) where
  abbrev At : Dict (List Relation) → Type 0
  At adj = Listed r (Dict.get_or u [] adj)

  note-Listed :
      (k : String) (x : Relation) (adj : Dict (List Relation))
      → At (note k x adj) ↔ (At adj ⊎ ((k ≡ u) × (x ≡ r)))
  note-Listed k x adj = elim (Bool-cases (k == u)) [
    | inl same ↦
        let e : k ≡ u = (eq_iff k u).0 same in
        let split = Listed-append r (Dict.get_or u [] adj) (x ∷ []) in
        let p : Dict.get_or u [] (note k x adj) ≡ Dict.get_or u [] adj ++ x ∷ [] =
          rw e (get_or-put_self u [] (Dict.get_or u [] adj ++ x ∷ []) adj) in
        (
          λ h. elim (split.0 (subst (Listed r) p h)) [
            | inl l ↦ inl l
            | inr l ↦ elim l [ inl q ↦ inr (e, q) | inr no_way ↦ absurd no_way ]
          ],
          λ h.
              subst (Listed r) (sym p) (split.1 (elim h [ inl l ↦ inl l | inr l ↦ inr (inl l.1) ])),
        )
    | inr other ↦
        let p : Dict.get_or u [] (note k x adj) ≡ Dict.get_or u [] adj =
          get_or-put_ne k u [] (Dict.get_or k [] adj ++ x ∷ []) adj
            (ground (arith, eq_iff k u, other)) in
        (
          λ h. inl (subst (Listed r) p h),
          λ h. elim h [
            | inl l ↦ subst (Listed r) (sym p) l
            | inr l ↦ absurd (cc ((eq_iff k u).1 l.0, other))
          ],
        )
  ]

  touched :
      (x : Relation)
      → touches u x ≡ true
      → (x.source_id ≡ u) ⊎ ((x.bidirectional ≡ true) × (x.target_id ≡ u))
  touched x h = elim (Bool-cases (x.source_id == u)) [
    | inl same ↦ inl ((eq_iff x.source_id u).0 same)
    | inr other ↦
        let (b, t) = and-both x.bidirectional (x.target_id == u) (rw other at h) in
        inr (b, (eq_iff x.target_id u).0 t)
  ]

  touches_source : (x : Relation) → x.source_id ≡ u → touches u x ≡ true
  touches_source x e = ground (arith, (eq_iff x.source_id u).1 e)

  touches_target : (x : Relation) → x.bidirectional ≡ true → x.target_id ≡ u → touches u x ≡ true
  touches_target x b e = ground (arith, (eq_iff x.target_id u).1 e, b)

  enter-Listed :
      (x : Relation) (adj : Dict (List Relation))
      → At (enter x adj) ↔ (At adj ⊎ ((touches u x ≡ true) × (x ≡ r)))
  enter-Listed x adj =
      let first = note-Listed x.source_id x adj in
      let second = note-Listed x.target_id x (note x.source_id x adj) in
      let pick = λ (b : Bool).
        if b then note x.target_id x (note x.source_id x adj) else note x.source_id x adj in
      elim (Bool-cases x.bidirectional) [
        | inl both ↦ (
          λ h. elim (second.0 (subst At (ap pick both) h)) [
            | inl k ↦ elim (first.0 k) [ inl l ↦ inl l | inr l ↦ inr (touches_source x l.0, l.1) ]
            | inr l ↦ inr (touches_target x both l.0, l.1)
          ],
          λ h. subst At (sym (ap pick both)) (elim h [
            | inl l ↦ second.1 (inl (first.1 (inl l)))
            | inr l ↦ elim (touched x l.0) [
              | inl e ↦ second.1 (inl (first.1 (inr (e, l.1))))
              | inr e ↦ second.1 (inr (e.1, l.1))
            ]
          ]),
        )
        | inr single ↦ (
          λ h. elim (first.0 (subst At (ap pick single) h)) [
            | inl l ↦ inl l
            | inr l ↦ inr (touches_source x l.0, l.1)
          ],
          λ h. subst At (sym (ap pick single)) (elim h [
            | inl l ↦ first.1 (inl l)
            | inr l ↦ elim (touched x l.0) [
              | inl e ↦ first.1 (inr (e, l.1))
              | inr e ↦ absurd (cc (e.0, single))
            ]
          ]),
        )
      ]

  -- The lists hold the relations that can be met at an entity, and no others.
  adjacency-Listed :
      (rs : List Relation) (adj : Dict (List Relation))
      → At (adjacency rs adj) ↔ (At adj ⊎ (Listed r rs × (touches u r ≡ true)))
  unfolding adjacency
  adjacency-Listed [] adj = (inl, λ h. elim h [ inl l ↦ l | inr l ↦ absurd l.0 ])
  adjacency-Listed (x ∷ rs) adj =
      let ih = adjacency-Listed rs (enter x adj) in
      let here = enter-Listed x adj in
      (
        λ h. elim (ih.0 h) [
          | inl k ↦ elim (here.0 k) [
            | inl l ↦ inl l
            | inr l ↦ inr (inl l.1, subst (λ (q : Relation). touches u q ≡ true) l.1 l.0)
          ]
          | inr l ↦ inr (inr l.0, l.1)
        ],
        λ h. elim h [
          | inl l ↦ ih.1 (inl (here.1 (inl l)))
          | inr l ↦ elim l.0 [
            | inl e ↦
                ih.1
                  (inl (here.1 (inr (subst (λ (q : Relation). touches u q ≡ true) (sym e) l.1, e))))
            | inr k ↦ ih.1 (inr (k, l.1))
          ]
        ],
      )

  -- A relation leads to an id among the ends.
  ends-has : (rs : List Relation) → Listed r rs → has (other_end u r) (ends rs) ≡ true
  unfolding ends
  ends-has [] l = absurd l
  ends-has (x ∷ rs) (inl e) =
      subst (λ (q : Relation). has (other_end u q) (ends (x ∷ rs)) ≡ true) e (first_ends u x rs)
  ends-has (x ∷ rs) (inr l) = ground (
    arith,
    ends-has rs l,
    has-cons (other_end u r) x.source_id (x.target_id ∷ ends rs),
    has-cons (other_end u r) x.target_id (ends rs),
  )

module _ (g : KnowledgeGraph) (r : Relation) (u : String) where
  pub adjacent-Listed :
      Listed r (adjacent g u) ↔ (Listed r (Dict.values g.relations) × (touches u r ≡ true))
  adjacent-Listed =
      let h = adjacency-Listed r u (Dict.values g.relations) [] in
      (
        λ l. elim (h.0 l) [ inl k ↦ absurd (subst (Listed r) (nothing_noted u) k) | inr k ↦ k ],
        λ l. h.1 (inr l),
      )

  pub adjacent-ends :
      Listed r (adjacent g u) → has (other_end u r) (ends (Dict.values g.relations)) ≡ true
  adjacent-ends l = ends-has r u (Dict.values g.relations) (adjacent-Listed.0 l).0
