-- ===== src/Guard/Domain.antt =====
-- kernel/security_domain.py: permissions, limits, policies and audit entries.
use hermes_kernel_v.Prelude.{ℕ, String, Bool, ◌&&◌, ◌||◌, List, any, ◌==◌}

pub record Permission : Type 0 where
  pub action : String
  pub resource : String

unfoldable pub matches : String → String → Permission → Bool
matches action resource p =
    (p.action == action) && ((p.resource == resource) || (p.resource == "*"))

-- Whole milliseconds and megabytes.
pub record ResourceLimit : Type 0 where
  pub cpu_ms : ℕ
  pub mem_mb : ℕ
  pub max_calls : ℕ

abbrev pub default_limit : ResourceLimit
default_limit = record { cpu_ms = 1000; mem_mb = 128; max_calls = 100 }

pub record SandboxPolicy : Type 0 where
  pub permissions : List Permission
  pub resource_limits : ResourceLimit

unfoldable pub allows : String → String → SandboxPolicy → Bool
allows action resource policy = any (matches action resource) policy.permissions

-- The texts "allowed", "denied", "error" and "limit_exceeded".
pub data AuditResult : Type 0 where
  allowed denied error limit_exceeded : AuditResult

pub record AuditEntry : Type 0 where
  pub entry_id : String
  pub who : String
  pub action : String
  pub resource : String
  pub result : AuditResult
  pub timestamp : ℕ
  pub detail : String
