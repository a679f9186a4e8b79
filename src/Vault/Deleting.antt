-- ===== src/Vault/Deleting.antt =====
-- kernel/config_vault.py, kernel/config_store.py: what a deletion does.
use hermes_kernel_v.Prelude.{
  ℕ, String, ◌≡◌, ◌≢◌, refl, sym, ap, subst, ◌∙◌, inl, inr, Bool, true, false, List, [], ◌∷◌, ◌++◌,
  Option, none, some, get_elem?, get_elem?-set_self, get_elem?-set_ne, get_elem?-lt, eqb, eqb_iff,
  Bool-cases, if◌then◌else◌,
}
use hermes_kernel_v.Prelude.Dict
use hermes_kernel_v.Prelude.Dict.{Dict, get-put_self}
use hermes_kernel_v.Vault.{
  Name, ConfigEntry, ConfigVault, config_changed, ckey, find_config, stored_config, first_of,
  entry_at, value_or, get, mark_deleted, mark_at, mark_found, delete,
}

mark_at_self :
    (now a : ℕ) (e : ConfigEntry) (heap : List ConfigEntry)
    → get_elem? heap a ≡ some e
    → get_elem? (mark_at now (some a) heap) a ≡ some (mark_deleted now e)
mark_at_self now a e heap h =
    ap (λ (o : Option ConfigEntry). get_elem? (mark_found now a o heap) a) h
    ∙ get_elem?-set_self heap a (mark_deleted now e) (get_elem?-lt heap a e h)

mark_found_other :
    (now a b : ℕ) (o : Option ConfigEntry) (heap : List ConfigEntry)
    → b ≢ a
    → get_elem? (mark_found now b o heap) a ≡ get_elem? heap a
mark_found_other now a b none heap ne = refl
mark_found_other now a b (some x) heap ne = get_elem?-set_ne heap b a (mark_deleted now x) ne

-- The store has the entry itself.
abbrev pub shares : Option ℕ → ℕ → Bool
shares none a = false
shares (some b) a = eqb b a

-- The entry once it was deleted in the cache and in the store.
abbrev pub deleted_entry : ℕ → ConfigEntry → Bool → ConfigEntry
deleted_entry now e shared =
    if shared then mark_deleted now (mark_deleted now e) else mark_deleted now e

-- The deletion in the store, by what the store has.
mark_at_stored :
    (now a : ℕ) (e : ConfigEntry) (o : Option ℕ) (heap : List ConfigEntry)
    → get_elem? heap a ≡ some (mark_deleted now e)
    → get_elem? (mark_at now o heap) a ≡ some (deleted_entry now e (shares o a))
mark_at_stored now a e none heap h = h
mark_at_stored now a e (some b) heap h = elim (Bool-cases (eqb b a)) [
  | inl same ↦
      let q : b ≡ a = (eqb_iff b a).0 same in
      ap (λ (i : ℕ). get_elem? (mark_at now (some i) heap) a) q
      ∙ mark_at_self now a (mark_deleted now e) heap h
      ∙ ap (λ s. some (deleted_entry now e s)) (sym same)
  | inr other ↦
      mark_found_other now a b (get_elem? heap b) heap (λ q. cc ((eqb_iff b a).1 q, other))
      ∙ h
      ∙ ap (λ s. some (deleted_entry now e s)) (sym other)
]

-- What a deletion of an entry leaves.
pub record IsDeleted (now : ℕ) (n : Name) (changed_by : String) (e : ConfigEntry) (shared : Bool)
    (v : ConfigVault) (r : Bool × ConfigVault) : Type 0 where
  pub returned : r.0 ≡ true
  pub hidden : (default : Option String) → (get n default r.1).0 ≡ default
  pub entry : entry_at r.1 (find_config n r.1) ≡ some (deleted_entry now e shared)
  pub announced :
      r.1.events ≡ v.events ++ config_changed n (deleted_entry now e shared).version changed_by ∷ []
  pub same_secrets : (r.1.secrets ≡ v.secrets) × (r.1.store ≡ v.store)

deleted-hidden :
    (now : ℕ) (e : ConfigEntry) (shared : Bool) (default : Option String)
    → value_or default (some (deleted_entry now e shared)) ≡ default
deleted-hidden now e true default = refl
deleted-hidden now e false default = refl

-- A config value that is deleted is not read any more, whatever the default, and stays where it was,
-- with a higher version: one higher, and two where the store in memory shares the entry, which is then
-- marked twice. The event tells of that version. Secrets, also the one of the name, stay.
pub delete-IsDeleted :
    (now : ℕ) (n : Name) (changed_by : String) (v : ConfigVault) (a : ℕ) (e : ConfigEntry)
    → find_config n v ≡ some a
    → get_elem? v.heap a ≡ some e
    → IsDeleted now n changed_by e
        (shares (stored_config n v.store) a)
        v
        (delete now n changed_by v)
unfolding delete get
delete-IsDeleted now n changed_by v a e f h =
    let heap = mark_at now (stored_config n v.store) (mark_at now (some a) v.heap) in
    let gone = deleted_entry now e (shares (stored_config n v.store) a) in
    let both : get_elem? heap a ≡ some gone =
      mark_at_stored now a e (stored_config n v.store) (mark_at now (some a) v.heap)
        (mark_at_self now a e v.heap h) in
    let found : first_of (Dict.get (ckey n) (Dict.put (ckey n) a v.config))
          (stored_config n v.store)
        ≡ some a =
      ap (λ (o : Option ℕ). first_of o (stored_config n v.store))
        (get-put_self (ckey n) a v.config) in
    let after : ConfigVault = record v {
      heap = heap;
      config = Dict.put (ckey n) a v.config;
      events = v.events ++ config_changed n gone.version changed_by ∷ [];
    } in
    let there : entry_at after (find_config n after) ≡ some gone =
      ap (entry_at after) found ∙ both in
    let result : delete now n changed_by v ≡ (true, after) = rw (f, delete, both) refl in
    subst (IsDeleted now n changed_by e (shares (stored_config n v.store) a) v) (sym result)
      (record {
        returned = refl;
        hidden = λ default. ap (value_or default) there ∙ deleted-hidden now e _ default;
        entry = there;
        announced = refl;
        same_secrets = (refl, refl);
      })
