-- ===== src/Vault/Reading.antt =====
-- kernel/config_vault.py: what `get` reads of what `set` wrote.
use text.Mathlib.TextLemmas.{append_assoc, append-eq-nil_iff}
use hermes_kernel_v.Prelude.{
  ℕ, String, concat, ◌≡◌, ◌≢◌, refl, sym, ap, subst, ◌∙◌, inl, inr, Bool, false, ◌==◌, eq_iff, [],
  ◌∷◌, Option, none, some, arith, length, get_elem?-last, get_elem?-append, Bool-cases,
  if◌then◌else◌,
}
use hermes_kernel_v.Prelude.Dict
use hermes_kernel_v.Prelude.Dict.{Dict, get-put, get-put_self}
use hermes_kernel_v.Vault.{
  ConfigScope, scope_value, Name, ConfigEntry, ConfigVault, ConfigStore, ckey, store_key,
  find_config, stored_config, store_config, entry_at, value_or, first_of, plain_entry, set, get,
  put_entry,
}

get-put_other :
    {V : Type 0} (k j : String) (x : V) (d : Dict V)
    → k ≢ j
    → Dict.get j (Dict.put k x d) ≡ Dict.get j d
get-put_other k j x d h =
    let other : (k == j) ≡ false = ground (arith, eq_iff k j) in rw (get-put k j x d, other) refl

-- A new entry is found under each name that has its key.
pub put_entry-found :
    (e : ConfigEntry) (m : Name) (v : ConfigVault)
    → ckey e.name ≡ ckey m
    → entry_at (put_entry e v) (find_config m (put_entry e v)) ≡ some e
put_entry-found e m v same =
    let here : Dict.get (ckey m) (Dict.put (ckey e.name) (length v.heap) v.config)
        ≡ some (length v.heap) =
      subst
        (λ (k : String).
          Dict.get k (Dict.put (ckey e.name) (length v.heap) v.config) ≡ some (length v.heap))
        same (get-put_self (ckey e.name) (length v.heap) v.config) in
    ap
      (λ (o : Option ℕ).
        entry_at (put_entry e v) (first_of o (stored_config m (put_entry e v).store)))
      here
    ∙ get_elem?-last v.heap e

stored_config-other :
    (n m : Name) (a : ℕ) (st : Option ConfigStore)
    → store_key n ≢ store_key m
    → stored_config m (store_config n a st) ≡ stored_config m st
stored_config-other n m a none h = refl
stored_config-other n m a (some st) h = get-put_other (store_key n) (store_key m) a st.config h

find_config-other :
    (e : ConfigEntry) (m : Name) (v : ConfigVault)
    → ckey e.name ≢ ckey m
    → store_key e.name ≢ store_key m
    → find_config m (put_entry e v) ≡ find_config m v
find_config-other e m v h k =
    ap (λ (o : Option ℕ). first_of o (stored_config m (put_entry e v).store))
      (get-put_other (ckey e.name) (ckey m) (length v.heap) v.config h)
    ∙ ap (first_of (Dict.get (ckey m) v.config))
        (stored_config-other e.name m (length v.heap) v.store k)

-- An address that holds an entry holds it after another entry was added.
entry_at-kept :
    (e x : ConfigEntry) (v : ConfigVault) (o : Option ℕ)
    → entry_at v o ≡ some x
    → entry_at (put_entry e v) o ≡ some x
entry_at-kept e x v none h = absurd (cc h)
entry_at-kept e x v (some a) h = get_elem?-append v.heap (e ∷ []) a x h

pub put_entry-other :
    (e : ConfigEntry) (m : Name) (v : ConfigVault) (x : ConfigEntry)
    → ckey e.name ≢ ckey m
    → store_key e.name ≢ store_key m
    → entry_at v (find_config m v) ≡ some x
    → entry_at (put_entry e v) (find_config m (put_entry e v)) ≡ some x
put_entry-other e m v x h k there =
    ap (entry_at (put_entry e v)) (find_config-other e m v h k)
    ∙ entry_at-kept e x v (find_config m v) there

-- The name of a key with a colon, and a name of another scope id that has the same key in the cache.
abbrev pub in_part : ConfigScope → String → String → String → Name
in_part scope a b c = record { key = concat b (concat ":" c); scope = scope; scope_id = some a }

abbrev pub in_whole : ConfigScope → String → String → String → Name
in_whole scope a b c = record { key = c; scope = scope; scope_id = some (concat a (concat ":" b)) }

same_ckey :
    (scope : ConfigScope) (a b c : String)
    → (a == "") ≡ false
    → ckey (in_part scope a b c) ≡ ckey (in_whole scope a b c)
unfolding ckey
same_ckey scope a b c h =
    let whole : (concat a (concat ":" b) == "") ≡ false =
      elim (Bool-cases (concat a (concat ":" b) == "")) [
        | inl empty ↦ absurd (
            cc (
              (eq_iff a "").1
                  ((append-eq-nil_iff {p = a} {q = concat ":" b}).0
                    ((eq_iff (concat a (concat ":" b)) "").0 empty)).0,
              h,
            ))
        | inr filled ↦ filled
      ] in
    let front = λ (id : String). concat (scope_value scope) (concat ":" id) in
    ap
      (λ (e : Bool).
        front (concat (if e then "global" else a) (concat ":" (concat b (concat ":" c)))))
      h
    ∙ ap front (
        ap (concat a) (sym (append_assoc ":" b (concat ":" c)))
        ∙ sym (append_assoc a (concat ":" b) (concat ":" c)))
    ∙ sym (
        ap
          (λ (e : Bool).
            front (concat (if e then "global" else concat a (concat ":" b)) (concat ":" c)))
          whole)

-- A value that is set for one scope id under a key with a colon is read for another scope id: what is
-- set for agent a under the key b:c is what agent a:b reads under the key c.
pub set-leaks :
    (now : ℕ) (scope : ConfigScope) (a b c value changed_by : String) (default : Option String)
    (v : ConfigVault)
    → (a == "") ≡ false
    → (get (in_whole scope a b c) default (set now (in_part scope a b c) value changed_by v)).0
      ≡ some value
unfolding set get
set-leaks now scope a b c value changed_by default v h = ap (value_or default) (
    put_entry-found (plain_entry now (in_part scope a b c) value v) (in_whole scope a b c) v
      (same_ckey scope a b c h))
