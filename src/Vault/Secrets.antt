-- ===== src/Vault/Secrets.antt =====
-- kernel/config_vault.py: secrets are resolved as they were set, and each access is audited.
use hermes_kernel_v.Prelude.{
  ℕ, String, ◌≡◌, refl, ap, ◌∙◌, List, [], ◌∷◌, ◌++◌, Option, none, some, length, get_elem?,
  get_elem?-last,
}
use hermes_kernel_v.Prelude.Dict
use hermes_kernel_v.Prelude.Dict.{Dict, get-put_self}
use hermes_kernel_v.Vault.{
  Name, SecretValue, AuditEntry, allowed, denied, VaultEvent, secret_accessed, access_denied,
  ConfigVault, Cipher, ckey, find_secret, stored_secret, first_of, entry_at, find_config,
  next_version, secret_version, value_or, get, sealed, marker, Resolved, plaintext, runtime_error,
  key_error, set_secret, resolve_secret, rotate_secret, audit_entry, audit_trail,
}

-- The last entry of what `get_audit_log` looks through.
pub record IsLogged (v after : ConfigVault) (entry : AuditEntry) (e : VaultEvent) : Type 0 where
  pub trail : audit_trail after ≡ audit_trail v ++ entry ∷ []
  pub announced : after.events ≡ v.events ++ e ∷ []
  pub same_config : after.config ≡ v.config
  pub same_heap : after.heap ≡ v.heap

-- What resolving a secret comes to.
pub data IsResolved (o : Option Cipher) (entry_id : String) (now : ℕ) (n : Name) (accessor : String)
    (v : ConfigVault) : Resolved → ConfigVault → Type 0 where
  unwired : o ≡ none → IsResolved o entry_id now n accessor v runtime_error v
  missing :
      (after : ConfigVault)
      → find_secret n v ≡ none
      → IsLogged v after
          (audit_entry entry_id now n accessor "resolve" denied "secret_not_found")
          (access_denied accessor n "secret_not_found")
      → IsResolved o entry_id now n accessor v key_error after
  opened :
      (cipher : Cipher) (s : SecretValue) (after : ConfigVault)
      → o ≡ some cipher
      → find_secret n v ≡ some s
      → IsLogged v after
          (audit_entry entry_id now n accessor "resolve" allowed "")
          (secret_accessed n.key accessor "resolve")
      → IsResolved o entry_id now n accessor v (plaintext (cipher.decrypt s.ciphertext)) after

-- What was put last under a name is what is found there.
found_last :
    {A : Type 0} (k : String) (a : A) (d found : Dict A) (o : Option A)
    → found ≡ Dict.put k a d
    → first_of (Dict.get k found) o ≡ some a
found_last k a d found o e =
    ap (λ (f : Dict _). first_of (Dict.get k f) o) e ∙ ap (λ p. first_of p o) (get-put_self k a d)

resolve-found :
    (cipher : Cipher) (entry_id : String) (now : ℕ) (n : Name) (accessor : String) (v : ConfigVault)
    (s : SecretValue)
    → find_secret n v ≡ some s
    → (resolve_secret (some cipher) entry_id now n accessor v).0
      ≡ plaintext (cipher.decrypt s.ciphertext)
unfolding resolve_secret
resolve-found cipher entry_id now n accessor v s there = rw (there, resolve_secret) refl

-- The marker is what `get` finds.
marked_last :
    (b64 : String → String) (s : SecretValue) (v after : ConfigVault)
    → after.config ≡ Dict.put (ckey s.name) (length v.heap) v.config
    → after.heap ≡ v.heap ++ marker b64 s ∷ []
    → entry_at after (find_config s.name after) ≡ some (marker b64 s)
marked_last b64 s v after e f =
    ap (entry_at after) (found_last (ckey s.name) (length v.heap) v.config after.config _ e)
    ∙ ap (λ (heap : List _). get_elem? heap (length v.heap)) f
    ∙ get_elem?-last v.heap (marker b64 s)

-- A secret's life from here: what is set or rotated in can be resolved, and cannot be read.
pub record IsKept (b64 : String → String) (cipher : Cipher) (entry_id : String) (now : ℕ) (n : Name)
    (accessor value : String) (before after : ConfigVault) : Type 0 where
  pub opens : (resolve_secret (some cipher) entry_id now n accessor after).0 ≡ plaintext value
  pub closed :
      (default : Option String) → (get n default after).0 ≡ some (b64 (cipher.encrypt value))
  pub version :
      secret_version (find_secret n after)
      ≡ some (next_version (secret_version (find_secret n before)))

put_secret-IsKept :
    (b64 : String → String) (cipher : Cipher) (entry_id : String) (now later : ℕ) (n : Name)
    (accessor value : String) (v after : ConfigVault)
    → ((s : String) → cipher.decrypt (cipher.encrypt s) ≡ s)
    → after.secrets ≡ Dict.put (ckey n) (sealed cipher now n value v) v.secrets
    → after.config ≡ Dict.put (ckey n) (length v.heap) v.config
    → after.heap ≡ v.heap ++ marker b64 (sealed cipher now n value v) ∷ []
    → IsKept b64 cipher entry_id later n accessor value v after
unfolding get
put_secret-IsKept b64 cipher entry_id now later n accessor value v after law e f g =
    let there =
      found_last (ckey n) (sealed cipher now n value v) v.secrets after.secrets
        (stored_secret n after.store) e in
    let marked = marked_last b64 (sealed cipher now n value v) v after f g in
    record {
      opens =
          resolve-found cipher entry_id later n accessor after (sealed cipher now n value v) there
          ∙ ap plaintext (law value);
      closed = λ default. ap (value_or default) marked;
      version = ap secret_version there;
    }

-- With a cipher that decrypts what it encrypts, a secret can always be set, and rotated to another
-- value. After each, resolving it gives the value that was put in last, reading it with `get` gives
-- the encoded ciphertext, and its version is the next one.
pub secret-roundtrip :
    (b64 : String → String) (cipher : Cipher) (entry_id : String) (now later : ℕ) (n : Name)
    (value new_value who accessor : String) (v : ConfigVault)
    → ((s : String) → cipher.decrypt (cipher.encrypt s) ≡ s)
    → ((after : ConfigVault) × (set_secret b64 (some cipher) now n value who v ≡ some after)
        × IsKept b64 cipher entry_id later n accessor value v after)
      × ((s : SecretValue) × (after : ConfigVault) × (rotate_secret b64
              (some cipher)
              entry_id
              now
              n
              new_value
              who
              v
            ≡ some (s, after))
          × IsKept b64 cipher entry_id later n accessor new_value v after)
unfolding set_secret rotate_secret
secret-roundtrip b64 cipher entry_id now later n value new_value who accessor v law = (
  (
    _,
    refl,
    put_secret-IsKept b64 cipher entry_id now later n accessor value v _ law refl refl refl,
  ),
  (
    _,
    _,
    refl,
    put_secret-IsKept b64 cipher entry_id now later n accessor new_value v _ law refl refl refl,
  ),
)
