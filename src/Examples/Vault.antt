-- ===== src/Examples/Vault.antt =====
-- The configuration vault at concrete inputs.
use hermes_kernel_v.Prelude.{String, concat, ◌≡◌, refl, false, [], ◌∷◌, none, some}
use hermes_kernel_v.Prelude.Dict
use hermes_kernel_v.Vault.{
  agent, Name, ConfigEntry, SecretValue, ConfigVault, Cipher, ckey, set, get, delete, set_secret,
  rotate_secret, stored_config,
}
use hermes_kernel_v.Vault.Reading.{in_part, in_whole, set-leaks}
use hermes_kernel_v.Vault.Secrets.{IsKept, secret-roundtrip}
use hermes_kernel_v.Vault.Deleting.{IsDeleted, shares, delete-IsDeleted}

abbrev url : Name
url = record { key = "url"; scope = agent; scope_id = some "a1" }

abbrev depth : Name
depth = record { key = "depth"; scope = agent; scope_id = some "a1" }

abbrev depth_entry : ConfigEntry
depth_entry = record {
  name = depth;
  value = "3";
  version = 1;
  updated_at = 1;
  encrypted = false;
  deleted = false;
}

-- The store in memory shares the entry with the cache.
abbrev vault : ConfigVault
vault = record {
  heap = depth_entry ∷ [];
  config = ("agent:a1:depth", 0) ∷ [];
  secrets = [];
  audit = [];
  store = some (record { config = ("agent:a1:depth", 0) ∷ []; secrets = []; audit = [] });
  events = [];
}

set-leaks_example :
    (get (in_whole agent "a" "b" "c") none (set 2 (in_part agent "a" "b" "c") "x" "me" vault)).0
    ≡ some "x"
set-leaks_example = set-leaks 2 agent "a" "b" "c" "x" "me" none vault refl

abbrev mirror : Cipher
mirror = record { encrypt = λ s. concat "#" s; decrypt = λ s. s; last_nonce = ""; last_tag = "" }

-- A cipher that does nothing meets the law.
abbrev plain : Cipher
plain = record mirror { encrypt = λ s. s }

abbrev coded : String → String
coded s = concat "b64:" s

secret-roundtrip_example :
    ((after : ConfigVault) × (set_secret coded (some plain) 3 url "pw" "me" vault ≡ some after)
      × IsKept coded plain "e1" 4 url "a1" "pw" vault after)
    × ((s : SecretValue) × (after : ConfigVault) × (rotate_secret coded
            (some plain)
            "e1"
            3
            url
            "pw2"
            "me"
            vault
          ≡ some (s, after))
        × IsKept coded plain "e1" 4 url "a1" "pw2" vault after)
secret-roundtrip_example =
    secret-roundtrip coded plain "e1" 3 4 url "pw" "pw2" "me" "a1" vault (λ s. refl)

delete-IsDeleted_example :
    IsDeleted 5 depth "me" depth_entry
      (shares (stored_config depth vault.store) 0)
      vault
      (delete 5 depth "me" vault)
unfolding ckey Dict.get
delete-IsDeleted_example = delete-IsDeleted 5 depth "me" vault 0 depth_entry refl refl
