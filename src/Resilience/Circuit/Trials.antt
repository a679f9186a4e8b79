-- ===== src/Resilience/Circuit/Trials.antt =====
-- How calls are counted: failures in a row while closed, and trials that are cancelled.
use hermes_kernel_v.Prelude.{
  ℕ, ◌+◌, ◌≤◌, String, ◌≡◌, false, List, [], ◌∷◌, some, arith, leb, length, get_elem?,
  get_elem?-set_self, get_elem?-lt, if◌then◌else◌,
}
use hermes_kernel_v.Prelude.Dict
use hermes_kernel_v.Resilience.Domain.{CircuitState, closed, open_circuit, half_open, cancelled}
use hermes_kernel_v.Resilience.Engine.{CircuitRuntime, ResilienceEngine}
use hermes_kernel_v.Resilience.Circuit.{
  on_failure, find_circuit, admit, rejected, enter, enter_at, settle, leave,
}

-- Failures of calls on one circuit, one after another.
abbrev pub fail_all :
    {Task : Type 0} → List ℕ → CircuitRuntime → ResilienceEngine Task → CircuitRuntime
fail_all [] rt e = rt
fail_all (t ∷ ts) rt e = fail_all ts (on_failure t rt e).0 (on_failure t rt e).1

abbrev pub tripped : CircuitRuntime → ℕ → CircuitState
tripped rt failures = if leb rt.config.failure_threshold failures then open_circuit else closed

module _ {Task : Type 0} where
  on_failure-counts :
      (t : ℕ) (rt : CircuitRuntime) (e : ResilienceEngine Task)
      → rt.state ≡ tripped rt rt.failure_count
      → ((on_failure t rt e).0.state ≡ tripped rt (rt.failure_count + 1))
        × ((on_failure t rt e).0.failure_count ≡ rt.failure_count + 1)
        × ((on_failure t rt e).0.config ≡ rt.config)
  unfolding on_failure
  on_failure-counts t rt e h = ground arith

  -- A closed circuit below its threshold counts every failure, and is open exactly from the
  -- failure on that brings the count to the threshold.
  pub fail_all-trips :
      (ts : List ℕ) (rt : CircuitRuntime) (e : ResilienceEngine Task)
      → rt.state ≡ tripped rt rt.failure_count
      → ((fail_all ts rt e).state ≡ tripped rt (rt.failure_count + length ts))
        × ((fail_all ts rt e).failure_count ≡ rt.failure_count + length ts)
  fail_all-trips [] rt e h = ground arith
  fail_all-trips (t ∷ ts) rt e h = ground (
    arith,
    on_failure-counts t rt e,
    fail_all-trips ts (on_failure t rt e).0 (on_failure t rt e).1,
  )

admit-spent :
    (t : ℕ) (rt : CircuitRuntime)
    → rt.state ≡ half_open
    → rt.config.half_open_max_calls ≤ rt.half_open_calls
    → admit t rt ≡ (false, rt)
unfolding admit
admit-spent t rt h k = ground arith

-- What may happen to a circuit whose trial calls were all cancelled: further attempts, and further
-- cancellations.
pub data Late : Type 0 where
  attempt : ℕ → Late
  cancel : ℕ → Late

module _ {Task : Type 0} (name : String) (address : ℕ) where
  abbrev pub late : Late → ResilienceEngine Task → ResilienceEngine Task
  late (attempt t) e = (enter name t e).1
  late (cancel t) e = leave {A = Unit {0}} address t cancelled e

  abbrev pub all_late : List Late → ResilienceEngine Task → ResilienceEngine Task
  all_late [] e = e
  all_late (a ∷ rest) e = all_late rest (late a e)

  -- The name leads to a circuit that is half open with its trial budget used up.
  pub record IsSpent (e : ResilienceEngine Task) : Type 0 where
    pub rt : CircuitRuntime
    pub named : Dict.get name e.circuits ≡ some address
    pub found : get_elem? e.heap address ≡ some rt
    pub half : rt.state ≡ half_open
    pub spent : rt.config.half_open_max_calls ≤ rt.half_open_calls

  enter-IsSpent :
      (t : ℕ) (e : ResilienceEngine Task)
      → IsSpent e
      → ((enter name t e).0 ≡ rejected) × IsSpent (enter name t e).1
  unfolding enter enter_at find_circuit
  enter-IsSpent t e s =
      let same =
        get_elem?-set_self e.heap address s.rt (get_elem?-lt e.heap address s.rt s.found) in
      let stays = admit-spent t s.rt s.half s.spent in
      (
        ground (arith, stays, s.named, s.found),
        record {
          rt = s.rt;
          named = ground (arith, stays, s.named, s.found);
          found = ground (arith, stays, s.named, s.found, same);
          half = s.half;
          spent = s.spent;
        },
      )

  late-IsSpent : (a : Late) (e : ResilienceEngine Task) → IsSpent e → IsSpent (late a e)
  unfolding leave settle
  late-IsSpent (attempt t) e s = (enter-IsSpent t e s).1
  late-IsSpent (cancel t) e s = record {
    rt = s.rt;
    named = ground (arith, s.named, s.found);
    found = ground (
      arith,
      s.found,
      get_elem?-set_self e.heap address s.rt (get_elem?-lt e.heap address s.rt s.found),
    );
    half = s.half;
    spent = s.spent;
  }

  all_late-IsSpent :
      (acts : List Late) (e : ResilienceEngine Task) → IsSpent e → IsSpent (all_late acts e)
  all_late-IsSpent [] e s = s
  all_late-IsSpent (a ∷ acts) e s = all_late-IsSpent acts (late a e) (late-IsSpent a e s)

  -- Once every trial call of a half-open circuit was cancelled rather than returned or failed, each
  -- later call under that name is rejected, at whatever time it comes and however many calls and
  -- cancellations went before it: the recovery timeout does not help.
  pub cancelled_trials_block :
      (acts : List Late) (now : ℕ) (e : ResilienceEngine Task)
      → IsSpent e
      → (enter name now (all_late acts e)).0 ≡ rejected
  cancelled_trials_block acts now e s =
      (enter-IsSpent now (all_late acts e) (all_late-IsSpent acts e s)).0
