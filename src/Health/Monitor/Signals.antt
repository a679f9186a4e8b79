-- ===== src/Health/Monitor/Signals.antt =====
-- The signals that a sequence of probes of one component sends.
use hermes_kernel_v.Prelude.{ℕ, ◌≡◌, refl, Bool, true, false, List, [], ◌∷◌, ◌++◌, some, arith}
use hermes_kernel_v.Health.Monitor.{
  unhealthy, HealthCheck, HealthRecord, Signal, agent_unhealthy, agent_recovered, Probe, verdict,
  error, status_eq, apply_result, probe_once,
}

-- Alarms and all-clears take turns; the flag says whether an alarm stands.
abbrev pub alternates : Bool → List Signal → Bool
alternates down [] = true
alternates false (agent_unhealthy c e n ∷ l) = alternates true l
alternates true (agent_unhealthy c e n ∷ l) = false
alternates true (agent_recovered c n ∷ l) = alternates false l
alternates false (agent_recovered c n ∷ l) = false

abbrev pub is_down : HealthRecord → Bool
is_down rec = status_eq rec.status unhealthy

module _ (check : HealthCheck) where
  -- Probes at the given times: the record and all that was signalled.
  pub probe_all : List (ℕ × Probe) → HealthRecord → HealthRecord × List Signal
  probe_all [] rec = (rec, [])
  probe_all ((now, probe) ∷ probes) rec =
      let (rec', signals) = probe_once check now probe rec in
      let (rec'', more) = probe_all probes rec' in (rec'', signals ++ more)

  apply_result-alternates :
      (now : ℕ) (ok : Bool) (rec : HealthRecord) (more : List Signal)
      → alternates (is_down (apply_result check now ok rec).0) more ≡ true
      → alternates (is_down rec) ((apply_result check now ok rec).1 ++ more) ≡ true
  unfolding apply_result
  apply_result-alternates now ok rec more h = ground arith

  probe_once-alternates :
      (now : ℕ) (probe : Probe) (rec : HealthRecord) (more : List Signal)
      → alternates (is_down (probe_once check now probe rec).0) more ≡ true
      → alternates (is_down rec) ((probe_once check now probe rec).1 ++ more) ≡ true
  unfolding probe_once
  probe_once-alternates now (verdict ok) rec more h = apply_result-alternates now ok rec more h
  probe_once-alternates now (error text) rec more h =
      apply_result-alternates now false (record rec { last_error = some text }) more h

  -- Whatever the probes of a component give, it is never declared unhealthy twice without having
  -- been declared recovered in between, and never recovered without having been unhealthy.
  pub probe_all-alternates :
      (probes : List (ℕ × Probe)) (rec : HealthRecord)
      → alternates (is_down rec) (probe_all probes rec).1 ≡ true
  unfolding probe_all
  probe_all-alternates [] rec = refl
  probe_all-alternates ((now, probe) ∷ probes) rec =
      probe_once-alternates now probe rec _
        (probe_all-alternates probes (probe_once check now probe rec).0)
