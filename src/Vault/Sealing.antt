-- ===== src/Vault/Sealing.antt =====
-- kernel/config_vault.py: secrets, which a cipher seals, and the audit of what is done with them.
use hermes_kernel_v.Prelude.{ℕ, String, concat, true, false, [], ◌∷◌, ◌++◌, Option, none, some}
use hermes_kernel_v.Prelude.Dict
use hermes_kernel_v.Prelude.Dict.{Dict}
use hermes_kernel_v.Vault.Domain.{
  Name, ConfigEntry, SecretValue, AccessResult, AuditEntry, VaultEvent, ConfigVault, Cipher, ckey,
  find_secret, next_version, secret_version, store_secret, store_audit, emit, put_entry, allowed,
  denied, config_changed, secret_rotated, secret_accessed, access_denied,
}

-- A value that is newly encrypted, the entry that marks it, and where they go.
abbrev pub sealed : Cipher → (now : ℕ) → Name → String → ConfigVault → SecretValue
sealed cipher now n value v = record {
  name = n;
  ciphertext = cipher.encrypt value;
  nonce = cipher.last_nonce;
  tag = cipher.last_tag;
  version = next_version (secret_version (find_secret n v));
  rotated_at = now;
}

abbrev pub marker : (String → String) → SecretValue → ConfigEntry
marker b64 s = record {
  name = s.name;
  value = b64 s.ciphertext;
  version = s.version;
  updated_at = s.rotated_at;
  encrypted = true;
  deleted = false;
}

abbrev pub put_secret : (String → String) → SecretValue → ConfigVault → ConfigVault
put_secret b64 s v =
    put_entry (marker b64 s)
      (record v { secrets = Dict.put (ckey s.name) s v.secrets; store = store_secret s v.store })

-- A missing cipher is a `RuntimeError`, a missing secret a `KeyError`.
pub data Resolved : Type 0 where
  plaintext : String → Resolved
  runtime_error key_error : Resolved

unfoldable pub set_secret :
    (String → String)
    → Option Cipher
    → (now : ℕ) → Name
    → (value changed_by : String) → ConfigVault
    → Option ConfigVault
set_secret b64 none now n value changed_by v = none
set_secret b64 (some cipher) now n value changed_by v =
    let secret = sealed cipher now n value v in
    some (emit (config_changed n secret.version changed_by) (put_secret b64 secret v))

-- `_audit_access` and `_record_denied`
abbrev pub record_access : AuditEntry → VaultEvent → ConfigVault → ConfigVault
record_access entry e v =
    emit e (record v { audit = v.audit ++ entry ∷ []; store = store_audit entry v.store })

abbrev pub audit_entry :
    (entry_id : String) → ℕ → Name → String → String → AccessResult → String → AuditEntry
audit_entry entry_id now n who action result detail = record {
  entry_id = entry_id;
  who = who;
  action = action;
  resource = concat "secret:" n.key;
  result = result;
  timestamp = now;
  detail = detail;
}

abbrev pub audit_access : String → ℕ → Name → (accessor action : String) → ConfigVault → ConfigVault
audit_access entry_id now n accessor action v =
    record_access (audit_entry entry_id now n accessor action allowed "")
      (secret_accessed n.key accessor action) v

abbrev pub record_denied :
    String → ℕ → Name → (principal reason : String) → ConfigVault → ConfigVault
record_denied entry_id now n principal reason v =
    record_access (audit_entry entry_id now n principal "resolve" denied reason)
      (access_denied principal n reason) v

unfoldable pub resolve_secret :
    Option Cipher
    → (entry_id : String) → (now : ℕ) → Name
    → (accessor : String) → ConfigVault
    → Resolved × ConfigVault
resolve_secret none entry_id now n accessor v = (runtime_error, v)
resolve_secret (some cipher) entry_id now n accessor v = elim (find_secret n v) [
  | none ↦ (key_error, record_denied entry_id now n accessor "secret_not_found" v)
  | some s ↦ (
    plaintext (cipher.decrypt s.ciphertext),
    audit_access entry_id now n accessor "resolve"
        (record v { secrets = Dict.put (ckey n) s v.secrets }),
  )
]

unfoldable pub rotate_secret :
    (String → String)
    → Option Cipher
    → (entry_id : String) → (now : ℕ) → Name
    → (new_value rotated_by : String) → ConfigVault
    → Option (SecretValue × ConfigVault)
rotate_secret b64 none entry_id now n new_value rotated_by v = none
rotate_secret b64 (some cipher) entry_id now n new_value rotated_by v =
    let secret = sealed cipher now n new_value v in
    some (
      secret,
      audit_access entry_id now n rotated_by "read"
          (emit (secret_rotated n now secret.version) (put_secret b64 secret v)),
    )
