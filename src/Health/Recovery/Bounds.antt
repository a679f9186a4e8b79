-- ===== src/Health/Recovery/Bounds.antt =====
-- Restarts are bounded and no report of an unhealthy component is lost.
use hermes_kernel_v.Prelude.{
  ℕ, ◌+◌, ◌≤◌, String, ◌≡◌, Bool, List, [], ◌∷◌, Option, length, filterb, ◌==◌, if◌then◌else◌,
}
use hermes_kernel_v.Health.Monitor.{HealthRecord}
use hermes_kernel_v.Health.Queue.{of_component}
use hermes_kernel_v.Health.Recovery.{
  Runtime, Recovered, RecoveryEngine, restart_count, on_unhealthy,
}

-- A report that a component is unhealthy, with what the collaborators do then.
pub record Report : Type 0 where
  pub runtime : Runtime
  pub recovery_id : String
  pub escalation_id : String
  pub component_id : String
  pub component_type : String
  pub rec : Option HealthRecord

abbrev pub handle : Report → RecoveryEngine → RecoveryEngine
handle p =
    on_unhealthy p.runtime p.recovery_id p.escalation_id p.component_id p.component_type p.rec

abbrev pub handle_all : List Report → RecoveryEngine → RecoveryEngine
handle_all [] r = r
handle_all (p ∷ reports) r = handle_all reports (handle p r)

module _ (c : String) where
  abbrev pub is_about : Recovered → Bool
  is_about e = e.component_id == c

  -- How often the component was declared recovered, and how many dead letters it has.
  abbrev pub recoveries : RecoveryEngine → ℕ
  recoveries r = length (filterb is_about r.events)

  abbrev pub letters : RecoveryEngine → ℕ
  letters r = length (filterb (of_component c) r.dlq.entries)

  abbrev pub reports_of : List Report → ℕ
  reports_of [] = 0
  reports_of (p ∷ reports) = (if p.component_id == c then 1 else 0) + reports_of reports

  -- The counter counts the events, within the bound.
  pub record IsCounted (r : RecoveryEngine) : Type 0 where
    pub counted : recoveries r ≡ restart_count c r
    pub bounded : restart_count c r ≤ r.max_restarts

  abbrev one_if : String → ℕ
  one_if k = if k == c then 1 else 0

  -- What one part of the decision tree does to the measures of component `c`.
  record Moves (r r' : RecoveryEngine) (events restarts added : ℕ) : Type 0 where
    events_by : recoveries r' ≡ recoveries r + events
    count_by : restart_count c r' ≡ restart_count c r + restarts
    letters_by : letters r + added ≤ letters r'
    same_limit : r'.max_restarts ≡ r.max_restarts

  -- One report: the counter goes up with the events, never past the limit, and the component it is
  -- about gains a recovery or a dead letter.
  record IsHandled (k : String) (r r' : RecoveryEngine) : Type 0 where
    keeps : IsCounted r'
    gains : recoveries r + letters r + one_if k ≤ recoveries r' + letters r'
    limit : r'.max_restarts ≡ r.max_restarts
