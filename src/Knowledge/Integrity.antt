-- ===== src/Knowledge/Integrity.antt =====
-- What holds of a graph that only the engine's operations have changed.
use hermes_kernel_v.Prelude.{
  ℕ, String, ◌≡◌, refl, sym, ap, subst, ◌∙◌, inl, inr, Bool, true, false, not, ◌&&◌, ◌||◌, ◌==◌,
  eq_iff, eq_refl, List, [], ◌∷◌, ◌++◌, Option, none, some, is_some, map, arith, Bool-cases,
  Option-cases, and-both, both-and, if◌then◌else◌,
}
mod Merging
pub mod Inferring
pub mod Histories
use mathlib.Core.Option.{some-injective, none-ne-some}
use hermes_kernel_v.Prelude.Dict
use hermes_kernel_v.Prelude.Dict.{
  Dict, get-put, get-pop, all_entries, all_entries-put, all_entries-pop, all_entries-get,
}
use hermes_kernel_v.Prelude.Texts.{has, distinct_texts}
use hermes_kernel_v.Knowledge.Domain.{Entity, Relation, KnowledgeGraph}
use hermes_kernel_v.Knowledge.{
  in_graph, named, absorb, absorb_first, add_entity, add_relation, Edit, redirect, redirect_end,
  merge_properties, merge_one, merge_each, merge_entities,
}

abbrev pub is_linked : Dict Entity → String → Relation → Bool
is_linked entities k r =
    is_some (Dict.get r.source_id entities) && is_some (Dict.get r.target_id entities)

abbrev pub is_keyed : String → Entity → Bool
is_keyed k e = k == e.entity_id

-- Relations end at entities of the graph, and an entity stands under its id.
pub record IsIntact (g : KnowledgeGraph) : Type 0 where
  pub linked : all_entries (is_linked g.entities) g.relations ≡ true
  pub keyed : all_entries is_keyed g.entities ≡ true

-- Links stay links where no entity goes.
pub all_linked_mono :
    (es es' : Dict Entity) (rs : Dict Relation)
    → ((id : String) → is_some (Dict.get id es) ≡ true → is_some (Dict.get id es') ≡ true)
    → all_entries (is_linked es) rs ≡ true
    → all_entries (is_linked es') rs ≡ true
all_linked_mono es es' [] more h = refl
all_linked_mono es es' ((k, r) ∷ rs) more h =
    ground (arith, more r.source_id, more r.target_id, all_linked_mono es es' rs more, h)

pub put-keeps :
    (id k : String) (e : Entity) (es : Dict Entity)
    → is_some (Dict.get id es) ≡ true
    → is_some (Dict.get id (Dict.put k e es)) ≡ true
put-keeps id k e es h = rw (get-put k id e es) (ground (arith, h))

-- The same keys, which are ids or are not.
abbrev pub Kept : Dict Entity → Dict Entity → Type 0
Kept es es' =
    ((id : String) → is_some (Dict.get id es) ≡ is_some (Dict.get id es'))
    × (all_entries is_keyed es ≡ all_entries is_keyed es')

module _ (lower : String → String) where
  -- Taking in another entity's properties changes neither keys nor ids.
  pub absorb_first-keeps :
      (entity : Entity) (es es' : Dict Entity) (found : Entity)
      → absorb_first lower entity es ≡ some (es', found)
      → Kept es es'
  unfolding absorb_first Dict.get
  absorb_first-keeps entity [] es' found e = absurd (cc)
  absorb_first-keeps entity ((k, x) ∷ es) es' found e =
      elim (Bool-cases (named lower entity.name x)) [
        | inl same ↦
            let p : (k, absorb x entity) ∷ es ≡ es' =
              ap (λ q. q.0) (some-injective _ _ (rw (same, absorb_first) at e)) in
            subst (Kept ((k, x) ∷ es)) p (λ id. ground arith, refl)
        | inr other ↦ elim (Option-cases (absorb_first lower entity es)) [
          | inl fresh ↦ absurd (none-ne-some _ (rw (other, fresh, absorb_first) at e))
          | inr (r, later) ↦
              let p : (k, x) ∷ r.0 ≡ es' =
                ap (λ q. q.0) (some-injective _ _ (rw (other, later, absorb_first) at e)) in
              let (ids, keys) = absorb_first-keeps entity es r.0 r.1 later in
              subst (Kept ((k, x) ∷ es)) p
                (λ id. ground (arith, ids id), ap (λ b. is_keyed k x && b) keys)
        ]
      ]

  pub add_entity-IsIntact :
      (now : ℕ) (entity : Entity) (g : KnowledgeGraph)
      → IsIntact g
      → IsIntact (add_entity lower now entity g).graph
  unfolding add_entity
  add_entity-IsIntact now entity g i = elim (Option-cases (absorb_first lower entity g.entities)) [
    | inl fresh ↦
        rw (fresh, add_entity)
          (record {
            linked =
                all_linked_mono g.entities (Dict.put entity.entity_id entity g.entities) g.relations
                  (λ id h. put-keeps id entity.entity_id entity g.entities h) i.linked;
            keyed =
                all_entries-put is_keyed entity.entity_id entity g.entities i.keyed
                  (eq_refl entity.entity_id);
          })
    | inr (r, e) ↦
        let (same, keys) = absorb_first-keeps entity g.entities r.0 r.1 e in
        rw (e, add_entity)
          (record {
            linked =
                all_linked_mono g.entities r.0 g.relations (λ id h. sym (same id) ∙ h) i.linked;
            keyed = sym keys ∙ i.keyed;
          })
  ]

pub add_relation-IsIntact :
    (now : ℕ) (r : Relation) (g : KnowledgeGraph) (e : Edit)
    → add_relation now r g ≡ some e
    → IsIntact g
    → IsIntact e.graph
unfolding add_relation
add_relation-IsIntact now r g e h i =
    elim (Bool-cases (in_graph g r.source_id && in_graph g r.target_id)) [
      | inl ends ↦
          subst (λ (d : Edit). IsIntact d.graph) (some-injective _ _ (rw (ends, add_relation) at h))
            (record {
              linked =
                  all_entries-put (is_linked g.entities) r.relation_id r g.relations i.linked ends;
              keyed = i.keyed;
            })
      | inr missing ↦ absurd (none-ne-some _ (rw (missing, add_relation) at h))
    ]

-- A redirected end is there once the duplicate has gone.
redirect_end-there :
    (dup canonical id : String) (es : Dict Entity)
    → (dup == canonical) ≡ false
    → is_some (Dict.get canonical es) ≡ true
    → is_some (Dict.get id es) ≡ true
    → is_some (Dict.get (redirect_end dup canonical id) (Dict.pop dup es)) ≡ true
redirect_end-there dup canonical id es ne c h = elim (Bool-cases (id == dup)) [
  | inl same ↦ rw (same, get-pop dup canonical es, ne) c
  | inr other ↦ rw (other, get-pop dup id es) (ground (arith, eq_iff id dup, eq_iff dup id, h))
]

-- Redirecting every end that is the duplicate's, and dropping the duplicate.
pub redirect-linked :
    (dup canonical : String) (es : Dict Entity) (rs : Dict Relation)
    → (dup == canonical) ≡ false
    → is_some (Dict.get canonical es) ≡ true
    → all_entries (is_linked es) rs ≡ true
    → all_entries (is_linked (Dict.pop dup es)) (redirect dup canonical rs) ≡ true
redirect-linked dup canonical es [] ne c h = refl
redirect-linked dup canonical es ((k, r) ∷ rs) ne c h =
    let (here, later) = and-both (is_linked es k r) (all_entries (is_linked es) rs) h in
    let (source, target) =
      and-both (is_some (Dict.get r.source_id es)) (is_some (Dict.get r.target_id es)) here in
    both-and _ _
      (both-and _ _ (redirect_end-there dup canonical r.source_id es ne c source)
        (redirect_end-there dup canonical r.target_id es ne c target))
      (redirect-linked dup canonical es rs ne c later)
