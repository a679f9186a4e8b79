-- ===== src/Guard/Store.antt =====
-- kernel/security_store.py without a database: the tables that `SecurityStore` keeps in memory.
use hermes_kernel_v.Prelude.{
  ℕ, String, Bool, true, List, [], ◌∷◌, ◌++◌, Option, none, some, filterb, leb, ◌==◌,
}
use hermes_kernel_v.Prelude.Dict
use hermes_kernel_v.Prelude.Dict.{Dict}
use hermes_kernel_v.Guard.Domain.{Permission, SandboxPolicy, AuditEntry}

pub record SecurityStore : Type 0 where
  pub policies : Dict SandboxPolicy
  pub grants : Dict (List Permission)
  pub audit : List AuditEntry

abbrev pub empty_store : SecurityStore
empty_store = record { policies = []; grants = []; audit = [] }

unfoldable pub put_policy : String → SandboxPolicy → SecurityStore → SecurityStore
put_policy package_id policy s = record s { policies = Dict.put package_id policy s.policies }

-- `grants.setdefault(package_id, []).append(permission)`
abbrev pub add_grant : String → Permission → Dict (List Permission) → Dict (List Permission)
add_grant package_id permission d =
    Dict.put package_id (Dict.get_or package_id [] d ++ permission ∷ []) d

unfoldable pub put_grant : String → Permission → SecurityStore → SecurityStore
put_grant package_id permission s = record s { grants = add_grant package_id permission s.grants }

unfoldable pub put_audit : AuditEntry → SecurityStore → SecurityStore
put_audit entry s = record s { audit = s.audit ++ entry ∷ [] }

abbrev pub by_who : Option String → AuditEntry → Bool
by_who none e = true
by_who (some who) e = e.who == who

abbrev pub from_time : Option ℕ → AuditEntry → Bool
from_time none e = true
from_time (some since) e = leb since e.timestamp

abbrev pub to_time : Option ℕ → AuditEntry → Bool
to_time none e = true
to_time (some until) e = leb e.timestamp until

-- The three filters, one after the other, each switched off by `None`.
unfoldable pub list_audit : Option String → Option ℕ → Option ℕ → List AuditEntry → List AuditEntry
list_audit who since until entries =
    filterb (to_time until) (filterb (from_time since) (filterb (by_who who) entries))
