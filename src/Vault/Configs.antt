-- ===== src/Vault/Configs.antt =====
-- kernel/config_vault.py: `set`, `get` and `delete`, with `delete_config` of kernel/config_store.py.
use hermes_kernel_v.Prelude.{
  ℕ, ◌+◌, String, Bool, true, false, List, Option, none, some, get_elem?, set as put_at,
  if◌then◌else◌,
}
use hermes_kernel_v.Prelude.Dict
use hermes_kernel_v.Prelude.Dict.{Dict}
use hermes_kernel_v.Vault.Domain.{
  Name, ConfigEntry, ConfigVault, ckey, stored_config, find_config, entry_at, next_version,
  version_of, emit, put_entry, config_changed,
}

-- The entry that `set` makes.
abbrev pub plain_entry : (now : ℕ) → Name → String → ConfigVault → ConfigEntry
plain_entry now n value v = record {
  name = n;
  value = value;
  version = next_version (version_of (entry_at v (find_config n v)));
  updated_at = now;
  encrypted = false;
  deleted = false;
}

unfoldable pub set : (now : ℕ) → Name → (value changed_by : String) → ConfigVault → ConfigVault
set now n value changed_by v =
    let entry = plain_entry now n value v in
    emit (config_changed n entry.version changed_by) (put_entry entry v)

abbrev pub value_or : Option String → Option ConfigEntry → Option String
value_or default none = default
value_or default (some e) = if e.deleted then default else some e.value

-- An entry found in the store is cached.
abbrev pub cached : Name → ConfigVault → ConfigVault
cached n v = elim (find_config n v) [
  | none ↦ v
  | some a ↦ record v { config = Dict.put (ckey n) a v.config }
]

unfoldable pub get : Name → (default : Option String) → ConfigVault → Option String × ConfigVault
get n default v = (value_or default (entry_at v (find_config n v)), cached n v)

-- The mutation of an entry, by the vault and by the store.
abbrev pub mark_deleted : ℕ → ConfigEntry → ConfigEntry
mark_deleted now e = record e { deleted = true; version = e.version + 1; updated_at = now }

abbrev pub mark_found : ℕ → ℕ → Option ConfigEntry → List ConfigEntry → List ConfigEntry
mark_found now a none heap = heap
mark_found now a (some e) heap = put_at heap a (mark_deleted now e)

abbrev pub mark_at : ℕ → Option ℕ → List ConfigEntry → List ConfigEntry
mark_at now none heap = heap
mark_at now (some a) heap = mark_found now a (get_elem? heap a) heap

-- `ConfigStore.delete_config`
abbrev pub delete_config : (now : ℕ) → Name → ConfigVault → ConfigVault
delete_config now n v = record v { heap = mark_at now (stored_config n v.store) v.heap }

-- The event has the version that the entry has after the deletion in the store.
unfoldable pub delete : (now : ℕ) → Name → (changed_by : String) → ConfigVault → Bool × ConfigVault
delete now n changed_by v = elim (find_config n v) [
  | none ↦ (false, v)
  | some a ↦
      let v' =
        delete_config now n (record v {
          heap = mark_at now (some a) v.heap;
          config = Dict.put (ckey n) a v.config;
        }) in
      elim (get_elem? v'.heap a) [
        | none ↦ (true, v')
        | some e ↦ (true, emit (config_changed n e.version changed_by) v')
      ]
]
