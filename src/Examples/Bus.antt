-- ===== src/Examples/Bus.antt =====
-- The event bus at concrete inputs.
use hermes_kernel_v.Prelude.{
  String, ◌≡◌, ◌++◌, refl, true, List, [], ◌∷◌, some, arith, get_elem?, map,
}
use hermes_kernel_v.Prelude.Dict
use hermes_kernel_v.Prelude.Texts.{has}
use hermes_kernel_v.Bus.{
  Event, Future, pending, resolved, EventBus, new_bus, HandlerEnd, raised, is_done, dispatch,
  handlers_of, resolve_barriers, subscribe, unsubscribe,
}
use hermes_kernel_v.Bus.Barriers.Lives.{Call, waits, resolves, passes, run, lives}
use hermes_kernel_v.Bus.Barriers.Endings.{barrier, run-lives, run-settles}
use hermes_kernel_v.Bus.Handlers.{dispatch-contains, unsubscribe-subscribe}

abbrev started : Event
started = record { kind = "agent.started"; payload = "a1" }

abbrev stopped_event : Event
stopped_event = record { kind = "agent.stopped"; payload = "a1" }

abbrev earlier : List Call
earlier = waits 0 ("agent.stopped" ∷ []) 5 ∷ []

abbrev later : List Call
later = resolves stopped_event ∷ resolves started ∷ passes 50 ∷ []

run-lives_example :
    get_elem? (run (earlier ++ waits 1 ("agent.started" ∷ []) 30 ∷ later) new_bus).futures 1
    ≡ some (lives (barrier earlier 1 ("agent.started" ∷ []) 30) later pending)
run-lives_example = run-lives earlier later 1 ("agent.started" ∷ []) 30

-- That is, the event.
barrier_gets_event :
    lives (barrier earlier 1 ("agent.started" ∷ []) 30) later pending ≡ resolved started
unfolding has
barrier_gets_event = refl

run-settles_example :
    (f : Future) × (get_elem?
        (run
          (earlier
            ++ waits 1 ("agent.started" ∷ []) 30
              ∷ ((resolves stopped_event ∷ []) ++ passes 31 ∷ resolves started ∷ []))
          new_bus).futures
        1
      ≡ some f)
    × (is_done (some f) ≡ true)
run-settles_example =
    run-settles earlier (resolves stopped_event ∷ []) (resolves started ∷ []) 1
      ("agent.started" ∷ []) 30 31 (omega arith)

abbrev listened : EventBus
listened = record new_bus { subs = ("agent.started", ("s1", "log") ∷ ("s2", "count") ∷ []) ∷ [] }

abbrev end_of : String → HandlerEnd
end_of h = raised

dispatch-contains_example : dispatch end_of started listened ≡ (
  map (λ h. (h, started)) (handlers_of listened "agent.started"),
  resolve_barriers started listened,
)
unfolding Dict.get
dispatch-contains_example = dispatch-contains end_of started listened refl

unsubscribe-subscribe_example :
    (handlers_of (subscribe "s3" "agent.started" "tell" listened) "agent.started"
      ≡ handlers_of listened "agent.started" ++ "tell" ∷ [])
    × ((unsubscribe "s3" (subscribe "s3" "agent.started" "tell" listened)).0 ≡ true)
    × ((k : String)
        → handlers_of (unsubscribe "s3" (subscribe "s3" "agent.started" "tell" listened)).1 k
          ≡ handlers_of listened k)
unfolding Dict.get
unsubscribe-subscribe_example = unsubscribe-subscribe "s3" "agent.started" "tell" listened refl
