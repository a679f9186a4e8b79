-- ===== src/Knowledge/Paths/Searching.antt =====
-- The search keeps every entity that it has seen reachable, and loses no way out of one.
use hermes_kernel_v.Prelude.{
  ℕ, suc, ◌≤◌, String, ◌≡◌, ◌⊎◌, inl, inr, refl, sym, subst, ap, ◌∙◌, true, false, ◌==◌, eq_iff,
  List, [], ◌∷◌, ◌++◌, Option, none, some, arith, Bool-cases, Option-cases, length,
}
use hermes_kernel_v.Prelude.Dict
use hermes_kernel_v.Prelude.Dict.{Dict, get-put}
use hermes_kernel_v.Prelude.Texts.{
  has, has-cons, has-cons_self, has-cases, has-later, has-nil, has-append,
}
use hermes_kernel_v.Knowledge.Domain.{Relation}
use hermes_kernel_v.Knowledge.{other_end}
use hermes_kernel_v.Knowledge.Paths.{Search, offer, scan}
use hermes_kernel_v.Knowledge.Paths.Routes.{Listed}

-- So many entries of `prev` lead back from the entity to the beginning.
pub data Trail (prev : Dict (String × Relation)) (from_id : String) : String → ℕ → Type 0 where
  at : Trail prev from_id from_id 0
  back :
      (v p : String) (r : Relation) (n : ℕ)
      → Dict.get v prev ≡ some (p, r)
      → (v == from_id) ≡ false
      → Trail prev from_id p n
      → Trail prev from_id v (suc n)

-- A trail stays one when an entry with a new key is made.
Trail-put :
    (prev : Dict (String × Relation)) (from_id k v : String) (e : String × Relation) (n : ℕ)
    → Dict.get k prev ≡ none
    → Trail prev from_id v n
    → Trail (Dict.put k e prev) from_id v n
Trail-put prev from_id k _ e _ new at = at
Trail-put prev from_id k _ e _ new (back v p r n g away t) =
    let apart : (k == v) ≡ false = elim (Bool-cases (k == v)) [
      | inl same ↦
          absurd
            (cc (new, subst (λ x. Dict.get x prev ≡ some (p, r)) (sym ((eq_iff k v).0 same)) g))
      | inr other ↦ other
    ] in
    back v p r n (get-put k v e prev ∙ rw apart g) away (Trail-put prev from_id k p e n new t)

length-put :
    (prev : Dict (String × Relation)) (k : String) (e : String × Relation)
    → Dict.get k prev ≡ none
    → length (Dict.put k e prev) ≡ suc (length prev)
unfolding Dict.put Dict.get
length-put [] k e new = refl
length-put ((j, w) ∷ prev) k e new = ground (arith, length-put prev k e, new)

-- What holds while the relations of one entity are looked at, of which these are left.
pub record IsSearch (adj : String → List Relation) (from_id cur : String) (left : List Relation)
    (s : Search) : Type 0 where
  pub source : has from_id s.seen ≡ true
  pub queued : (v : String) → has v s.queue ≡ true → has v s.seen ≡ true
  pub keyed :
      (v p : String) (r : Relation)
      → Dict.get v s.prev ≡ some (p, r)
      → (has v s.seen ≡ true) × Listed r (adj p) × (other_end p r ≡ v)
  pub traced :
      (v : String) → has v s.seen ≡ true → (n : ℕ) × (n ≤ length s.prev) × Trail s.prev from_id v n
  pub closed :
      (u : String) (r : Relation)
      → has u s.seen ≡ true
      → Listed r (adj u)
      → (has u s.queue ≡ true) ⊎ ((has (other_end u r) s.seen ≡ true) ⊎ ((u ≡ cur) × Listed r left))

met_end :
    (u cur : String) (q r : Relation) (s : Search)
    → u ≡ cur
    → r ≡ q
    → has (other_end cur r) s.seen ≡ true
    → has (other_end u q) s.seen ≡ true
met_end u cur q r s same e old =
    subst (λ x. has x s.seen ≡ true) (ap (other_end cur) e ∙ sym (ap (λ x. other_end x q) same)) old

same_pair :
    (a b : String) (r q : Relation)
    → ◌≡◌ {A = Option (String × Relation)} (some (a, r)) (some (b, q))
    → (a ≡ b) × (r ≡ q)
same_pair a b r q e = (cc, cc)

in_queue :
    (v x : String) (queue : List String)
    → has v (queue ++ x ∷ []) ≡ true
    → (has v queue ≡ true) ⊎ (x ≡ v)
in_queue v x queue m = elim (Bool-cases (has v queue)) [
  | inl there ↦ inl there
  | inr absent ↦ inr (
      ground
        (arith, m, absent, has-append v queue (x ∷ []), has-cons v x [], has-nil v, eq_iff x v))
]

last_in_queue : (x : String) (queue : List String) → has x (queue ++ x ∷ []) ≡ true
last_in_queue x queue = ground (arith, has-append x queue (x ∷ []), has-cons_self x [])

pub apart :
    (x y : String) (seen : List String) → has x seen ≡ false → has y seen ≡ true → (x == y) ≡ false
apart x y seen new old = elim (Bool-cases (x == y)) [
  | inl same ↦ absurd (cc (subst (λ z. has z seen ≡ true) (sym ((eq_iff x y).0 same)) old, new))
  | inr other ↦ other
]

module _ (adj : String → List Relation) (from_id : String) where
  pub not_keyed :
      (cur v : String) (left : List Relation) (s : Search)
      → IsSearch adj from_id cur left s
      → has v s.seen ≡ false
      → Dict.get v s.prev ≡ none
  not_keyed cur v left s i new = elim (Option-cases (Dict.get v s.prev)) [
    | inl e ↦ e
    | inr (e, g) ↦ absurd (cc ((i.keyed v e.0 e.1 g).0, new))
  ]

  offer-IsSearch :
      (cur : String) (r : Relation) (rs : List Relation) (s : Search)
      → has cur s.seen ≡ true
      → Listed r (adj cur)
      → IsSearch adj from_id cur (r ∷ rs) s
      → IsSearch adj from_id cur rs (offer cur s r)
  offer-IsSearch cur r rs s on l i =
      let nxt = other_end cur r in
      elim (Bool-cases (has (other_end cur r) s.seen)) [
        | inl old ↦ rw old (record {
          source = i.source;
          queued = i.queued;
          keyed = i.keyed;
          traced = i.traced;
          closed = λ u q m k. elim (i.closed u q m k) [
            | inl w ↦ inl w
            | inr h ↦ elim h [
              | inl done ↦ inr (inl done)
              | inr (same, at_cur) ↦ elim at_cur [
                | inl e ↦ inr (inl (met_end u cur q r s same e old))
                | inr later ↦ inr (inr (same, later))
              ]
            ]
          ];
        })
        | inr new ↦
            let fresh = not_keyed cur nxt (r ∷ rs) s i new in
            rw new (record {
              source = has-later from_id nxt s.seen i.source;
              queued = λ v m. elim (in_queue v nxt s.queue m) [
                | inl w ↦ has-later v nxt s.seen (i.queued v w)
                | inr e ↦ subst (λ x. has x (nxt ∷ s.seen) ≡ true) e (has-cons_self nxt s.seen)
              ];
              keyed = λ v p q g. elim (Bool-cases (nxt == v)) [
                | inl same ↦
                    let e : nxt ≡ v = (eq_iff nxt v).0 same in
                    let pair : ◌≡◌ {A = Option (String × Relation)} (some (cur, r)) (some (p, q)) =
                      rw (get-put nxt v (cur, r) s.prev, same) at g in
                    let (e_cur, e_r) = same_pair cur p r q pair in
                    (
                      subst (λ x. has x (nxt ∷ s.seen) ≡ true) e (has-cons_self nxt s.seen),
                      subst (λ x. Listed q (adj x)) e_cur
                          (subst (λ (x : Relation). Listed x (adj cur)) e_r l),
                      sym (ap (λ x. other_end x q) e_cur) ∙ sym (ap (other_end cur) e_r) ∙ e,
                    )
                | inr other ↦
                    let (m, k, e) =
                      i.keyed v p q (rw (get-put nxt v (cur, r) s.prev, other) at g) in
                    (has-later v nxt s.seen m, k, e)
              ];
              traced = λ v m. elim (has-cases v nxt s.seen m) [
                | inl e ↦
                    let (n, le, t) = i.traced cur on in
                    (
                      suc n,
                      omega (arith, length-put s.prev nxt (cur, r) fresh),
                      subst (λ x. Trail (Dict.put nxt (cur, r) s.prev) from_id x (suc n)) e
                          (back nxt cur r n (Dict.get-put_self nxt (cur, r) s.prev)
                            (apart nxt from_id s.seen new i.source)
                            (Trail-put s.prev from_id nxt cur (cur, r) n fresh t)),
                    )
                | inr old ↦
                    let (n, le, t) = i.traced v old in
                    (
                      n,
                      omega (arith, length-put s.prev nxt (cur, r) fresh),
                      Trail-put s.prev from_id nxt v (cur, r) n fresh t,
                    )
              ];
              closed = λ u q m k. elim (has-cases u nxt s.seen m) [
                | inl e ↦
                    inl (
                      subst (λ x. has x (s.queue ++ nxt ∷ []) ≡ true) e (last_in_queue nxt s.queue))
                | inr old ↦ elim (i.closed u q old k) [
                  | inl w ↦ inl (ground (arith, w, has-append u s.queue (nxt ∷ [])))
                  | inr h ↦ elim h [
                    | inl done ↦ inr (inl (has-later (other_end u q) nxt s.seen done))
                    | inr (same, at_cur) ↦ elim at_cur [
                      | inl e ↦
                          let here : nxt ≡ other_end u q =
                            sym (ap (λ x. other_end x r) same) ∙ ap (other_end u) e in
                          inr (
                            inl (
                              subst (λ x. has x (nxt ∷ s.seen) ≡ true) here
                                (has-cons_self nxt s.seen)))
                      | inr later ↦ inr (inr (same, later))
                    ]
                  ]
                ]
              ];
            })
      ]

  offer-seen :
      (cur v : String) (s : Search) (r : Relation)
      → has v s.seen ≡ true
      → has v (offer cur s r).seen ≡ true
  offer-seen cur v s r m = elim (Bool-cases (has (other_end cur r) s.seen)) [
    | inl old ↦ rw old m
    | inr new ↦ rw new (has-later v (other_end cur r) s.seen m)
  ]

  pub scan-IsSearch :
      (cur : String) (rs : List Relation) (s : Search)
      → has cur s.seen ≡ true
      → ((r : Relation) → Listed r rs → Listed r (adj cur))
      → IsSearch adj from_id cur rs s
      → IsSearch adj from_id cur [] (scan cur rs s)
  unfolding scan
  scan-IsSearch cur [] s on l i = i
  scan-IsSearch cur (r ∷ rs) s on l i =
      scan-IsSearch cur rs (offer cur s r) (offer-seen cur cur s r on) (λ q m. l q (inr m))
        (offer-IsSearch cur r rs s on (l r (inl refl)) i)

  -- An entity leaves the queue, and its relations are what is left to be looked at.
  pub leave_queue :
      (cur other : String) (rest : List String) (s : Search)
      → s.queue ≡ cur ∷ rest
      → IsSearch adj from_id other [] s
      → IsSearch adj from_id cur (adj cur) (record s { queue = rest })
  leave_queue cur other rest s e i = record {
    source = i.source;
    queued = λ v m. i.queued v (rw e (has-later v cur rest m));
    keyed = i.keyed;
    traced = i.traced;
    closed = λ u q m k. elim (i.closed u q m k) [
      | inl w ↦ elim (has-cases u cur rest (rw e at w)) [
        | inl same ↦ inr (inr (sym same, subst (λ x. Listed q (adj x)) (sym same) k))
        | inr later ↦ inl later
      ]
      | inr h ↦ elim h [ inl done ↦ inr (inl done) | inr no_more ↦ absurd no_more.1 ]
    ];
  }
