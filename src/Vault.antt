-- ===== src/Vault.antt =====
-- kernel/config_vault.py, kernel/config_domain.py, kernel/config_store.py: configuration and secrets.
-- Config entries are mutated, and the vault's cache and a store in memory share them: they stand in a
-- heap, and cache and store hold addresses. The cipher and base64 are parameters; clock times and new
-- ids are arguments. The store is none or the one in memory; SQLite is not modelled.
mod Domain
mod Configs
mod Sealing
pub mod Reading
pub mod Secrets
pub mod Deleting
unfoldable pub use Domain.*
unfoldable pub use Configs.*
unfoldable pub use Sealing.*
use hermes_kernel_v.Prelude.{
  ℕ, suc, ◌+◌, String, concat, Bool, true, false, ◌==◌, List, [], ◌∷◌, ◌++◌, Option, none, some,
  length, get_elem?, set as put_at, filterb, leb, ◌&&◌, if◌then◌else◌,
}
use hermes_kernel_v.Prelude.Dict
use hermes_kernel_v.Prelude.Dict.{Dict}

-- The cache of what the store lists.
abbrev pub cached_addresses : List ConfigEntry → List ℕ → Dict ℕ → Dict ℕ
cached_addresses heap [] d = d
cached_addresses heap (a ∷ addresses) d = elim (get_elem? heap a) [
  | none ↦ cached_addresses heap addresses d
  | some e ↦ cached_addresses heap addresses (Dict.put (ckey e.name) a d)
]

abbrev pub cached_secrets : List SecretValue → Dict SecretValue → Dict SecretValue
cached_secrets [] d = d
cached_secrets (s ∷ secrets) d = cached_secrets secrets (Dict.put (ckey s.name) s d)

unfoldable pub reload : (source : String) → ConfigVault → ℕ × ConfigVault
reload source v = elim v.store [
  | none ↦ (length v.config, emit (config_reloaded (length v.config) source) v)
  | some st ↦ (
    length st.config,
    emit (config_reloaded (length st.config) source) (record v {
      config = cached_addresses v.heap (Dict.values st.config) [];
      secrets = cached_secrets (Dict.values st.secrets) [];
    }),
  )
]

-- An argument that is None asks for nothing.
abbrev pub meets {ℓ} : {A : Type ℓ} → (A → Bool) → Option A → Bool
meets p none = true
meets p (some a) = p a

abbrev pub is_asked : Option String → Option String → Option ℕ → AuditEntry → Bool
is_asked key accessor since e =
    meets (λ k. e.resource == concat "secret:" k) key
    && (meets (λ w. e.who == w) accessor && meets (λ t. leb t e.timestamp) since)

abbrev pub audit_trail : ConfigVault → List AuditEntry
audit_trail v = elim v.store [ none ↦ v.audit | some st ↦ st.audit ]

unfoldable pub get_audit_log :
    (key accessor : Option String) → (since : Option ℕ) → ConfigVault → List AuditEntry
get_audit_log key accessor since v = filterb (is_asked key accessor since) (audit_trail v)
