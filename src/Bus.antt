-- ===== src/Bus.antt =====
-- kernel/bus.py, `EventBus`: subscriptions, delivery and the barriers of `wait_for`. A future is an
-- index into the futures made so far, a handler is its name, and a type without subscribers is one
-- with none. A task of `_dispatch` is its handlers, one after the other, and then the barriers, which
-- it settles without a pause; whatever else the loop runs comes between. What a handler ends in is an
-- argument.
pub mod Barriers
pub mod Handlers
use hermes_kernel_v.Prelude.{
  ℕ, zero, suc, ◌+◌, String, Bool, true, false, List, [], ◌∷◌, ◌++◌, Option, none, some, length,
  get_elem?, set, eqb, leb, is_some, if◌then◌else◌,
}
use hermes_kernel_v.Prelude.Dict
use hermes_kernel_v.Prelude.Dict.{Dict}
use hermes_kernel_v.Prelude.Texts.{has}

pub record Event : Type 0 where
  pub kind : String
  pub payload : String

pub data Future : Type 0 where
  pending timed_out cancelled : Future
  resolved : Event → Future

pub record Waiter : Type 0 where
  pub types : List String
  pub future : ℕ

-- A call of `loop.call_later`.
pub record Timer : Type 0 where
  pub due : ℕ
  pub future : ℕ

pub record EventBus : Type 0 where
  pub subs : Dict (Dict String)
  pub waiters : List Waiter
  pub futures : List Future
  pub timers : List Timer

abbrev pub new_bus : EventBus
new_bus = record { subs = []; waiters = []; futures = []; timers = [] }

abbrev pub is_done : Option Future → Bool
is_done none = true
is_done (some pending) = false
is_done (some timed_out) = true
is_done (some cancelled) = true
is_done (some (resolved e)) = true

-- if not fut.done(): ...
abbrev pub settle : ℕ → Future → List Future → List Future
settle i f fs = if is_done (get_elem? fs i) then fs else set fs i f

unfoldable pub subscribe : (sub_id : String) → String → (handler : String) → EventBus → EventBus
subscribe sub_id kind handler bus = record bus {
  subs = Dict.put kind (Dict.put sub_id handler (Dict.get_or kind [] bus.subs)) bus.subs;
}

-- The loop over the types, up to the first that has the subscription.
unfoldable pub unsubscribe_from : String → Dict (Dict String) → Bool × Dict (Dict String)
unsubscribe_from sub_id [] = (false, [])
unsubscribe_from sub_id ((kind, handlers) ∷ subs) =
    let rest = unsubscribe_from sub_id subs in
    if is_some (Dict.get sub_id handlers)
    then (true, (kind, Dict.pop sub_id handlers) ∷ subs)
    else (rest.0, (kind, handlers) ∷ rest.1)

unfoldable pub unsubscribe : String → EventBus → Bool × EventBus
unfolding unsubscribe_from
unsubscribe sub_id bus =
    let r = unsubscribe_from sub_id bus.subs in (r.0, record bus { subs = r.1 })

-- list(self._subs.get(event.type, {}).values())
abbrev pub handlers_of : EventBus → String → List String
handlers_of bus kind = Dict.values (Dict.get_or kind [] bus.subs)

abbrev pub subscriber_count : String → EventBus → ℕ
subscriber_count kind bus = length (Dict.get_or kind [] bus.subs)

-- `except Exception` catches what a handler raises, and not a cancellation.
pub data HandlerEnd : Type 0 where
  returned raised stopped : HandlerEnd

-- The first loop of `_dispatch`: the calls made, and whether the task goes on.
unfoldable pub handle_all :
    (String → HandlerEnd) → Event → List String → List (String × Event) × Bool
handle_all end e [] = ([], true)
handle_all end e (h ∷ hs) =
    let rest = handle_all end e hs in
    elim (end h) [
      | returned ↦ ((h, e) ∷ rest.0, rest.1)
      | raised ↦ ((h, e) ∷ rest.0, rest.1)
      | stopped ↦ ((h, e) ∷ [], false)
    ]

-- The second loop of `_dispatch`: the waiters that are left, and the futures.
unfoldable pub resolve_waiters : Event → List Waiter → List Future → List Waiter × List Future
resolve_waiters e [] fs = ([], fs)
resolve_waiters e (w ∷ ws) fs = elim (is_done (get_elem? fs w.future)) [
  | true ↦ resolve_waiters e ws fs
  | false ↦ elim (has e.kind w.types) [
    | true ↦ resolve_waiters e ws (set fs w.future (resolved e))
    | false ↦ let r = resolve_waiters e ws fs in (w ∷ r.0, r.1)
  ]
]

unfoldable pub resolve_barriers : Event → EventBus → EventBus
unfolding resolve_waiters
resolve_barriers e bus =
    let r = resolve_waiters e bus.waiters bus.futures in record bus { waiters = r.0; futures = r.1 }

-- A dispatch that nothing comes between.
unfoldable pub dispatch :
    (String → HandlerEnd) → Event → EventBus → List (String × Event) × EventBus
unfolding handle_all resolve_barriers
dispatch end e bus =
    let r = handle_all end e (handlers_of bus e.kind) in
    (r.0, if r.1 then resolve_barriers e bus else bus)

-- The new future has the next index.
unfoldable pub wait_for : (now : ℕ) → List String → (timeout : ℕ) → EventBus → EventBus
wait_for now types timeout bus = record bus {
  waiters = bus.waiters ++ record { types = types; future = length bus.futures } ∷ [];
  futures = bus.futures ++ pending ∷ [];
  timers = bus.timers ++ record { due = now + timeout; future = length bus.futures } ∷ [];
}

-- The timers that are due fire. Each is for a future of its own, so that their order does not matter.
unfoldable pub fire_timers : (now : ℕ) → List Timer → List Future → List Timer × List Future
fire_timers now [] fs = ([], fs)
fire_timers now (t ∷ ts) fs = elim (leb t.due now) [
  | true ↦ fire_timers now ts (settle t.future timed_out fs)
  | false ↦ let r = fire_timers now ts fs in (t ∷ r.0, r.1)
]

unfoldable pub time_passes : (now : ℕ) → EventBus → EventBus
unfolding fire_timers
time_passes now bus =
    let r = fire_timers now bus.timers bus.futures in record bus { timers = r.0; futures = r.1 }

-- The caller cancels the future that it was given.
unfoldable pub give_up : ℕ → EventBus → EventBus
give_up i bus = record bus { futures = settle i cancelled bus.futures }

unfoldable pub cancel_waiters : List Waiter → List Future → List Future
cancel_waiters [] fs = fs
cancel_waiters (w ∷ ws) fs = cancel_waiters ws (settle w.future cancelled fs)

-- `clear` and `close`.
unfoldable pub clear : EventBus → EventBus
unfolding cancel_waiters
clear bus = record bus { subs = []; waiters = []; futures = cancel_waiters bus.waiters bus.futures }
