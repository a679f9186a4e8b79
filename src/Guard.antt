-- ===== src/Guard.antt =====
-- kernel/capability_guard.py, `CapabilityGuard`. A guarded call is two operations, `enter` before
-- the handler and `leave` after it, since other calls run while the handler is awaited. The clock's
-- time in microseconds and the id of the audit entry that the operation makes are arguments. Event
-- bus and event store show as one journal.
pub mod Domain
pub mod Store
pub mod Access
pub mod Budget
use hermes_kernel_v.Prelude.{
  ℕ, zero, suc, ◌+◌, ◌-◌, ◌*◌, String, Bool, true, false, not, ◌&&◌, ◌||◌, List, [], ◌∷◌, ◌++◌,
  Option, none, some, is_none, any, length, leb, ltb, if◌then◌else◌,
}
use hermes_kernel_v.Prelude.Dict
use hermes_kernel_v.Prelude.Dict.{Dict}
use hermes_kernel_v.Guard.Domain.{
  Permission, matches, ResourceLimit, SandboxPolicy, allows, AuditResult, allowed, denied, error,
  limit_exceeded, AuditEntry,
}
use hermes_kernel_v.Guard.Store.{
  SecurityStore, put_policy, put_grant, put_audit, add_grant, list_audit,
}

pub record Usage : Type 0 where
  pub calls : ℕ
  pub cpu_us : ℕ

abbrev pub no_usage : Usage
no_usage = record { calls = 0; cpu_us = 0 }

pub data GuardEvent : Type 0 where
  plugin_sandboxed : String → ℕ → ResourceLimit → GuardEvent
  audit_logged : AuditEntry → GuardEvent
  permission_denied : String → String → String → GuardEvent
  resource_limit_exceeded : String → String → GuardEvent

pub record CapabilityGuard : Type 0 where
  pub policies : Dict SandboxPolicy
  pub grants : Dict (List Permission)
  pub usage : Dict Usage
  pub audit : List AuditEntry
  pub audit_limit : ℕ
  pub store : Option SecurityStore
  pub journal : List GuardEvent

abbrev pub init : Option SecurityStore → ℕ → CapabilityGuard
init store audit_limit = record {
  policies = [];
  grants = [];
  usage = [];
  audit = [];
  audit_limit = audit_limit;
  store = store;
  journal = [];
}

unfoldable pub emit : GuardEvent → CapabilityGuard → CapabilityGuard
emit event g = record g { journal = g.journal ++ event ∷ [] }

abbrev pub in_store : (SecurityStore → SecurityStore) → CapabilityGuard → CapabilityGuard
in_store f g = record g { store = elim g.store [ none ↦ none | some s ↦ some (f s) ] }

unfoldable pub register_policy : String → SandboxPolicy → CapabilityGuard → CapabilityGuard
unfolding put_policy emit
register_policy package_id policy g =
    emit (plugin_sandboxed package_id (length policy.permissions) policy.resource_limits) (
      in_store (put_policy package_id policy) (record g {
        policies = Dict.put package_id policy g.policies;
        usage = Dict.set_default package_id no_usage g.usage;
      }))

unfoldable pub grant : String → Permission → CapabilityGuard → CapabilityGuard
unfolding put_grant
grant package_id permission g =
    in_store (put_grant package_id permission)
      (record g { grants = add_grant package_id permission g.grants })

abbrev pub is_empty : Option (List Permission) → Bool
is_empty none = true
is_empty (some []) = true
is_empty (some (p ∷ ps)) = false

-- `policy is not None and policy.allows(action, resource)`
abbrev pub policy_allows : String → String → Option SandboxPolicy → Bool
policy_allows action resource none = false
policy_allows action resource (some policy) = allows action resource policy

abbrev pub grants_allow : String → String → Option (List Permission) → Bool
grants_allow action resource none = false
grants_allow action resource (some grants) = any (matches action resource) grants

unfoldable pub check : String → String → String → CapabilityGuard → Bool
check principal action resource g =
    let policy = Dict.get principal g.policies in
    let grants = Dict.get principal g.grants in
    if policy_allows action resource policy
    then true
    else if grants_allow action resource grants
    then true
    else is_none policy && is_empty grants

-- `l[-n:]`, the whole list where `n` is 0.
unfoldable pub last_items : {A : Type 0} → ℕ → List A → List A
last_items zero l = l
last_items (suc n) [] = []
last_items (suc n) (x ∷ l) =
    let rest = last_items (suc n) l in if ltb (suc n) (length (x ∷ l)) then rest else x ∷ l

unfoldable pub ring_append : ℕ → AuditEntry → List AuditEntry → List AuditEntry
unfolding last_items
ring_append limit entry audit =
    let longer = audit ++ entry ∷ [] in
    if ltb limit (length longer) then last_items limit longer else longer

unfoldable pub audit_record : AuditEntry → CapabilityGuard → CapabilityGuard
unfolding ring_append put_audit emit
audit_record entry g =
    emit (audit_logged entry)
      (in_store (put_audit entry) (record g { audit = ring_append g.audit_limit entry g.audit }))

unfoldable pub get_audit_log :
    Option String → Option ℕ → Option ℕ → CapabilityGuard → List AuditEntry
unfolding list_audit
get_audit_log package_id since until g = elim g.store [
  | none ↦ list_audit package_id since until g.audit
  | some s ↦ list_audit package_id since until s.audit
]

-- The limit that is used up, if one is: `none` is `(True, "")`.
unfoldable pub resource_ok : String → CapabilityGuard → Option String
resource_ok package_id g = elim (Dict.get package_id g.policies) [
  | none ↦ none
  | some policy ↦
      let usage = Dict.get_or package_id no_usage g.usage in
      let limits = policy.resource_limits in
      if leb limits.max_calls usage.calls
      then some "max_calls"
      else if leb (limits.cpu_ms * 1000) usage.cpu_us
      then some "cpu_ms"
      else none
]

pub data Refusal : Type 0 where
  permission_denied_error : Refusal
  resource_limit_exceeded_error : String → Refusal

-- What `__aenter__` is called for, and the id and time of an audit entry.
pub record Request : Type 0 where
  pub package_id : String
  pub action : String
  pub resource : String

abbrev pub entry_of : Request → AuditResult → String → String → ℕ → AuditEntry
entry_of r result detail entry_id now = record {
  entry_id = entry_id;
  who = r.package_id;
  action = r.action;
  resource = r.resource;
  result = result;
  timestamp = now;
  detail = detail;
}

-- `_pre`: the call goes on where no error is raised.
unfoldable pub enter : Request → String → ℕ → CapabilityGuard → Option Refusal × CapabilityGuard
unfolding audit_record emit
enter r entry_id now g =
    if check r.package_id r.action r.resource g
    then elim (resource_ok r.package_id g) [
      | none ↦ (none, g)
      | some limit_type ↦ (
        some (resource_limit_exceeded_error limit_type),
        emit (resource_limit_exceeded r.package_id limit_type)
            (audit_record (entry_of r limit_exceeded limit_type entry_id now) g),
      )
    ]
    else (
      some permission_denied_error,
      emit (permission_denied r.package_id r.action r.resource)
          (audit_record (entry_of r denied "" entry_id now) g),
    )

unfoldable pub accrue : String → ℕ → CapabilityGuard → CapabilityGuard
accrue package_id us g =
    let usage = Dict.get_or package_id no_usage g.usage in
    record g {
      usage =
          Dict.put package_id (record { calls = usage.calls + 1; cpu_us = usage.cpu_us + us })
            g.usage;
    }

-- `__aexit__`, which runs however the handler ends; `max(0.0, end - start)` is subtraction on ℕ.
unfoldable pub leave : Request → String → (start end : ℕ) → Bool → CapabilityGuard → CapabilityGuard
unfolding accrue audit_record
leave r entry_id start end errored g =
    audit_record (entry_of r (if errored then error else allowed) "" entry_id end)
      (accrue r.package_id (end - start) g)
