-- ===== src/Vault/Domain.antt =====
-- kernel/config_domain.py, kernel/config_store.py: entries, secrets, names and where they are kept, and
-- how kernel/config_vault.py finds and stores them.
use hermes_kernel_v.Prelude.{
  ℕ, ◌+◌, String, concat, Bool, ◌==◌, List, [], ◌∷◌, ◌++◌, Option, none, some, length, get_elem?,
  if◌then◌else◌,
}
use hermes_kernel_v.Prelude.Dict
use hermes_kernel_v.Prelude.Dict.{Dict}

pub data ConfigScope : Type 0 where
  global agent workflow plugin mcp_server : ConfigScope

abbrev pub scope_value : ConfigScope → String
scope_value global = "global"
scope_value agent = "agent"
scope_value workflow = "workflow"
scope_value plugin = "plugin"
scope_value mcp_server = "mcp_server"

-- The arguments that name a config value or a secret.
pub record Name : Type 0 where
  pub key : String
  pub scope : ConfigScope
  pub scope_id : Option String

pub record ConfigEntry : Type 0 where
  pub name : Name
  pub value : String
  pub version : ℕ
  pub updated_at : ℕ
  pub encrypted : Bool
  pub deleted : Bool

pub record SecretValue : Type 0 where
  pub name : Name
  pub ciphertext : String
  pub nonce : String
  pub tag : String
  pub version : ℕ
  pub rotated_at : ℕ

pub data AccessResult : Type 0 where
  allowed denied : AccessResult

pub record AuditEntry : Type 0 where
  pub entry_id : String
  pub who : String
  pub action : String
  pub resource : String
  pub result : AccessResult
  pub timestamp : ℕ
  pub detail : String

pub data VaultEvent : Type 0 where
  config_changed : Name → (version : ℕ) → (changed_by : String) → VaultEvent
  secret_rotated : Name → (rotated_at version : ℕ) → VaultEvent
  secret_accessed : (key accessor action : String) → VaultEvent
  access_denied : (principal : String) → Name → (reason : String) → VaultEvent
  config_reloaded : (count : ℕ) → (source : String) → VaultEvent

pub record ConfigStore : Type 0 where
  pub config : Dict ℕ
  pub secrets : Dict SecretValue
  pub audit : List AuditEntry

pub record ConfigVault : Type 0 where
  pub heap : List ConfigEntry
  pub config : Dict ℕ
  pub secrets : Dict SecretValue
  pub audit : List AuditEntry
  pub store : Option ConfigStore
  pub events : List VaultEvent

-- An injected cipher, with what it leaves in `last_nonce` and `last_tag`.
pub record Cipher : Type 0 where
  pub encrypt : String → String
  pub decrypt : String → String
  pub last_nonce : String
  pub last_tag : String

-- scope_id or fallback
abbrev pub id_or : String → Option String → String
id_or fallback none = fallback
id_or fallback (some s) = if s == "" then fallback else s

abbrev pub joined : Name → String → String
joined n id = concat (scope_value n.scope) (concat ":" (concat id (concat ":" n.key)))

-- `ConfigVault._ckey`
unfoldable pub ckey : Name → String
ckey n = joined n (id_or "global" n.scope_id)

-- `ConfigStore._key`
unfoldable pub store_key : Name → String
store_key n = joined n (id_or "__global__" n.scope_id)

abbrev pub stored_config : Name → Option ConfigStore → Option ℕ
stored_config n none = none
stored_config n (some st) = Dict.get (store_key n) st.config

abbrev pub stored_secret : Name → Option ConfigStore → Option SecretValue
stored_secret n none = none
stored_secret n (some st) = Dict.get (store_key n) st.secrets

abbrev pub first_of {ℓ} : {A : Type ℓ} → Option A → Option A → Option A
first_of none o = o
first_of (some a) o = some a

-- Where the entry is, in the cache or else in the store.
abbrev pub find_config : Name → ConfigVault → Option ℕ
find_config n v = first_of (Dict.get (ckey n) v.config) (stored_config n v.store)

abbrev pub find_secret : Name → ConfigVault → Option SecretValue
find_secret n v = first_of (Dict.get (ckey n) v.secrets) (stored_secret n v.store)

abbrev pub entry_at : ConfigVault → Option ℕ → Option ConfigEntry
entry_at v none = none
entry_at v (some a) = get_elem? v.heap a

abbrev pub next_version : Option ℕ → ℕ
next_version none = 1
next_version (some version) = version + 1

abbrev pub version_of : Option ConfigEntry → Option ℕ
version_of none = none
version_of (some e) = some e.version

abbrev pub secret_version : Option SecretValue → Option ℕ
secret_version none = none
secret_version (some s) = some s.version

abbrev pub store_config : Name → ℕ → Option ConfigStore → Option ConfigStore
store_config n a none = none
store_config n a (some st) = some (record st { config = Dict.put (store_key n) a st.config })

abbrev pub store_secret : SecretValue → Option ConfigStore → Option ConfigStore
store_secret s none = none
store_secret s (some st) = some (record st { secrets = Dict.put (store_key s.name) s st.secrets })

abbrev pub store_audit : AuditEntry → Option ConfigStore → Option ConfigStore
store_audit e none = none
store_audit e (some st) = some (record st { audit = st.audit ++ e ∷ [] })

abbrev pub emit : VaultEvent → ConfigVault → ConfigVault
emit e v = record v { events = v.events ++ e ∷ [] }

-- A new entry goes into the cache and the store.
abbrev pub put_entry : ConfigEntry → ConfigVault → ConfigVault
put_entry e v = record v {
  heap = v.heap ++ e ∷ [];
  config = Dict.put (ckey e.name) (length v.heap) v.config;
  store = store_config e.name (length v.heap) v.store;
}
