-- ===== src/Bus/Handlers.antt =====
-- kernel/bus.py: who is called for an event.
use hermes_kernel_v.Prelude.{
  String, ◌≡◌, refl, sym, ap, ◌∙◌, inl, inr, Bool, true, false, ◌&&◌, ◌==◌, eq_refl, List, [], ◌∷◌,
  ◌++◌, Option, none, some, is_some, is_none, map, arith, Bool-cases, and-both, if◌then◌else◌,
}
use hermes_kernel_v.Prelude.Dict
use hermes_kernel_v.Prelude.Dict.{Dict, get-put, get-put_self, get_or-put_self, all_entries}
use hermes_kernel_v.Bus.{
  Event, EventBus, HandlerEnd, returned, raised, stopped, handle_all, dispatch, handlers_of,
  subscribe, unsubscribe, unsubscribe_from, resolve_barriers,
}

abbrev pub goes_on : HandlerEnd → Bool
goes_on returned = true
goes_on raised = true
goes_on stopped = false

abbrev pub all_go_on : (String → HandlerEnd) → List String → Bool
all_go_on end [] = true
all_go_on end (h ∷ hs) = goes_on (end h) && all_go_on end hs

handled :
    (f : HandlerEnd) (h : String) (e : Event) (r : List (String × Event) × Bool)
    → goes_on f ≡ true
    → (elim f as (λ _. List (String × Event) × Bool) [
      | returned ↦ ((h, e) ∷ r.0, r.1)
      | raised ↦ ((h, e) ∷ r.0, r.1)
      | stopped ↦ ((h, e) ∷ [], false)
    ])
      ≡ ((h, e) ∷ r.0, r.1)
handled returned h e r g = refl
handled raised h e r g = refl
handled stopped h e r g = absurd (cc g)

handle_all-calls :
    (end : String → HandlerEnd) (e : Event) (hs : List String)
    → all_go_on end hs ≡ true
    → handle_all end e hs ≡ (map (λ h. (h, e)) hs, true)
unfolding handle_all
handle_all-calls end e [] g = refl
handle_all-calls end e (h ∷ hs) g =
    let (here, later) = and-both (goes_on (end h)) (all_go_on end hs) g in
    handled (end h) h e (handle_all end e hs) here
    ∙ ap (λ (r : List (String × Event) × Bool). ((h, e) ∷ r.0, r.1))
        (handle_all-calls end e hs later)

-- Where no handler of the event is cancelled, all handlers that are subscribed to its type get it, in
-- the order of their subscriptions and whatever errors they raise, and the waiting barriers are
-- settled after them.
pub dispatch-contains :
    (end : String → HandlerEnd) (e : Event) (bus : EventBus)
    → all_go_on end (handlers_of bus e.kind) ≡ true
    → dispatch end e bus ≡ (map (λ h. (h, e)) (handlers_of bus e.kind), resolve_barriers e bus)
unfolding dispatch
dispatch-contains end e bus g =
    ap (λ (r : List (String × Event) × Bool). (r.0, if r.1 then resolve_barriers e bus else bus))
      (handle_all-calls end e (handlers_of bus e.kind) g)

-- No type has the subscription.
abbrev pub is_fresh : String → Dict (Dict String) → Bool
is_fresh sub_id subs = all_entries (λ kind hs. is_none (Dict.get sub_id hs)) subs

pop-put :
    (k v : String) (d : Dict String)
    → is_none (Dict.get k d) ≡ true
    → Dict.pop k (Dict.put k v d) ≡ d
unfolding Dict.get Dict.put Dict.pop
pop-put k v [] h = ground (arith, eq_refl k)
pop-put k v ((j, w) ∷ d) h = elim (Bool-cases (j == k)) [
  | inl same ↦ absurd (cc (rw same at h))
  | inr other ↦
      rw (other, other) (ap (λ (l : Dict String). (j, w) ∷ l) (pop-put k v d (rw other at h)))
]

values-put :
    (k v : String) (d : Dict String)
    → is_none (Dict.get k d) ≡ true
    → Dict.values (Dict.put k v d) ≡ Dict.values d ++ v ∷ []
unfolding Dict.get Dict.put
values-put k v [] h = refl
values-put k v ((j, w) ∷ d) h = elim (Bool-cases (j == k)) [
  | inl same ↦ absurd (cc (rw same at h))
  | inr other ↦ rw other (ap (λ l. w ∷ l) (values-put k v d (rw other at h)))
]

abbrev with_sub : String → String → String → Dict (Dict String) → Dict (Dict String)
with_sub sub_id kind handler subs =
    Dict.put kind (Dict.put sub_id handler (Dict.get_or kind [] subs)) subs

none_there : (o : Option String) → is_none o ≡ true → is_some o ≡ false
none_there none h = refl
none_there (some v) h = absurd (cc h)

get_or-if :
    (b : Bool) (hs : Dict String) (o : Option (Dict String))
    → (elim (if b then some hs else o) as (λ _. Dict String) [ none ↦ [] | some w ↦ w ])
      ≡ (if b then hs else (elim o as (λ _. Dict String) [ none ↦ [] | some w ↦ w ]))
get_or-if true hs o = refl
get_or-if false hs o = refl

get_or-cons :
    (k j : String) (hs : Dict String) (subs : Dict (Dict String))
    → Dict.get_or k [] ((j, hs) ∷ subs) ≡ (if j == k then hs else Dict.get_or k [] subs)
unfolding Dict.get
get_or-cons k j hs subs = get_or-if (j == k) hs (Dict.get k subs)

fresh_in :
    (sub_id kind : String) (subs : Dict (Dict String))
    → is_fresh sub_id subs ≡ true
    → is_none (Dict.get sub_id (Dict.get_or kind [] subs)) ≡ true
unfolding Dict.get
fresh_in sub_id kind [] h = refl
fresh_in sub_id kind ((j, hs) ∷ subs) h =
    let (here, later) = and-both (is_none (Dict.get sub_id hs)) (is_fresh sub_id subs) h in
    elim (Bool-cases (j == kind)) [
      | inl same ↦ rw (get_or-cons kind j hs subs, same) here
      | inr other ↦ rw (get_or-cons kind j hs subs, other) (fresh_in sub_id kind subs later)
    ]

-- What unsubscribing gives back.
record IsUndone (subs : Dict (Dict String)) (r : Bool × Dict (Dict String)) : Type 0 where
  found : r.0 ≡ true
  restored : (k : String) → Dict.get_or k [] r.1 ≡ Dict.get_or k [] subs

module _ (sub_id j : String) (hs : Dict String) (subs : Dict (Dict String)) where
  unsubscribe_hit :
      is_some (Dict.get sub_id hs) ≡ true
      → unsubscribe_from sub_id ((j, hs) ∷ subs) ≡ (true, (j, Dict.pop sub_id hs) ∷ subs)
  unfolding unsubscribe_from
  unsubscribe_hit h = rw h refl

  unsubscribe_miss :
      is_some (Dict.get sub_id hs) ≡ false
      → unsubscribe_from sub_id ((j, hs) ∷ subs)
        ≡ ((unsubscribe_from sub_id subs).0, (j, hs) ∷ (unsubscribe_from sub_id subs).1)
  unfolding unsubscribe_from
  unsubscribe_miss h = rw h refl

  with_sub_here :
      (kind handler : String)
      → (j == kind) ≡ true
      → with_sub sub_id kind handler ((j, hs) ∷ subs) ≡ (j, Dict.put sub_id handler hs) ∷ subs
  unfolding Dict.put Dict.get
  with_sub_here kind handler same = rw (get_or-cons kind j hs subs, same) refl

  with_sub_later :
      (kind handler : String)
      → (j == kind) ≡ false
      → with_sub sub_id kind handler ((j, hs) ∷ subs) ≡ (j, hs) ∷ with_sub sub_id kind handler subs
  unfolding Dict.put Dict.get
  with_sub_later kind handler other =
      let e : Dict.get_or kind [] ((j, hs) ∷ subs) ≡ Dict.get_or kind [] subs =
        get_or-cons kind j hs subs ∙ ap (λ b. if b then hs else Dict.get_or kind [] subs) other in
      rw other
        (ap (λ (o : Dict String). (j, hs) ∷ Dict.put kind (Dict.put sub_id handler o) subs) e)

get_or-nil : (k : String) → Dict.get_or {V = Dict String} k [] [] ≡ []
unfolding Dict.get
get_or-nil k = refl

with_sub_only :
    (sub_id kind handler : String)
    → with_sub sub_id kind handler [] ≡ (kind, (sub_id, handler) ∷ []) ∷ []
unfolding Dict.put Dict.get
with_sub_only sub_id kind handler = refl

pop_only : (k v : String) → Dict.pop k ((k, v) ∷ []) ≡ []
unfolding Dict.pop
pop_only k v = rw (eq_refl k) refl

get_only : (k v : String) → is_some (Dict.get k ((k, v) ∷ [])) ≡ true
unfolding Dict.get
get_only k v = rw (eq_refl k) refl

undo :
    (sub_id kind handler : String) (subs : Dict (Dict String))
    → is_fresh sub_id subs ≡ true
    → IsUndone subs (unsubscribe_from sub_id (with_sub sub_id kind handler subs))
undo sub_id kind handler [] h =
    rw
      (
        with_sub_only sub_id kind handler,
        unsubscribe_hit sub_id kind ((sub_id, handler) ∷ []) [] (get_only sub_id handler),
        pop_only sub_id handler,
      )
      (record {
        found = refl;
        restored = λ k. get_or-cons k kind [] [] ∙ ground (arith, get_or-nil k);
      })
undo sub_id kind handler ((j, hs) ∷ subs) h =
    let (here, later) = and-both (is_none (Dict.get sub_id hs)) (is_fresh sub_id subs) h in
    elim (Bool-cases (j == kind)) [
      | inl same ↦
          rw
            (
              with_sub_here sub_id j hs subs kind handler same,
              unsubscribe_hit sub_id j (Dict.put sub_id handler hs) subs
                  (ap is_some (get-put_self sub_id handler hs)),
              pop-put sub_id handler hs here,
            )
            (record { found = refl; restored = λ k. refl })
      | inr other ↦
          let rest = undo sub_id kind handler subs later in
          let r = unsubscribe_from sub_id (with_sub sub_id kind handler subs) in
          rw
            (
              with_sub_later sub_id j hs subs kind handler other,
              unsubscribe_miss sub_id j hs (with_sub sub_id kind handler subs)
                  (none_there (Dict.get sub_id hs) here),
            )
            (record {
              found = rest.found;
              restored = λ k.
                  get_or-cons k j hs r.1
                  ∙ ap (λ (l : Dict String). if j == k then hs else l) (rest.restored k)
                  ∙ sym (get_or-cons k j hs subs);
            })
    ]

-- A subscription with a new id adds its handler after the others of the type, and unsubscribing it
-- returns True and gives each type the handlers that it had before.
pub unsubscribe-subscribe :
    (sub_id kind handler : String) (bus : EventBus)
    → is_fresh sub_id bus.subs ≡ true
    → (handlers_of (subscribe sub_id kind handler bus) kind ≡ handlers_of bus kind ++ handler ∷ [])
      × ((unsubscribe sub_id (subscribe sub_id kind handler bus)).0 ≡ true)
      × ((k : String)
          → handlers_of (unsubscribe sub_id (subscribe sub_id kind handler bus)).1 k
            ≡ handlers_of bus k)
unfolding subscribe unsubscribe
unsubscribe-subscribe sub_id kind handler bus h =
    let u = undo sub_id kind handler bus.subs h in
    (
      ap Dict.values (
            get_or-put_self kind [] (Dict.put sub_id handler (Dict.get_or kind [] bus.subs))
              bus.subs)
          ∙ values-put sub_id handler (Dict.get_or kind [] bus.subs)
              (fresh_in sub_id kind bus.subs h),
      u.found,
      λ k. ap Dict.values (u.restored k),
    )
