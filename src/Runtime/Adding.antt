-- ===== src/Runtime/Adding.antt =====
-- kernel/agent.py, `remember`: what it adds to one graph of kernel/knowledge_graph.py.
use mathlib.Core.Option.{some-injective, none-ne-some}
use hermes_kernel_v.Prelude.{
  ℕ, String, ◌≡◌, refl, sym, ap, subst, ◌∙◌, inl, inr, Bool, true, ◌&&◌, eq_refl, List, [], ◌∷◌,
  ◌++◌, Option, none, some, is_some, arith, Bool-cases, Option-cases, and-both, both-and,
}
use hermes_kernel_v.Prelude.Dict
use hermes_kernel_v.Prelude.Dict.{Dict, get-put, get-put_self, all_entries, all_entries-put}
use hermes_kernel_v.Knowledge.Domain.{Entity, Relation, KnowledgeGraph}
use hermes_kernel_v.Knowledge.{
  Edit, in_graph, named, absorb, absorb_first, add_entity, stored_as, add_relation,
}
use hermes_kernel_v.Knowledge.Integrity.{
  IsIntact, is_keyed, put-keeps, absorb_first-keeps, add_entity-IsIntact, add_relation-IsIntact,
}
use hermes_kernel_v.Knowledge.Integrity.Inferring.{all_known, all_known-values}
use hermes_kernel_v.Runtime.{Link, NewIds, target_of, find_first, link_target, link_of, relate}

-- An entity of the list passes the test, and its id is a key.
find_first-known :
    (p : Entity → Bool) (es : Dict Entity) (xs : List Entity) (t : Entity)
    → all_known es xs ≡ true
    → find_first p xs ≡ some t
    → (p t ≡ true) × (is_some (Dict.get t.entity_id es) ≡ true)
unfolding find_first
find_first-known p es [] t k h = absurd (none-ne-some _ h)
find_first-known p es (x ∷ xs) t k h =
    let (here, later) = and-both (is_some (Dict.get x.entity_id es)) (all_known es xs) k in
    elim (Bool-cases (p x)) [
      | inl hit ↦
          let e : x ≡ t = some-injective _ _ (rw hit at h) in
          subst (λ (y : Entity). (p y ≡ true) × (is_some (Dict.get y.entity_id es) ≡ true)) e
            (hit, here)
      | inr miss ↦ find_first-known p es xs t later (rw miss at h)
    ]

-- An added relation, and what it leaves.
pub record IsPut (r : Relation) (g : KnowledgeGraph) (o : Option Edit) : Type 0 where
  pub edit : Edit
  pub added : o ≡ some edit
  pub entities : edit.graph.entities ≡ g.entities
  pub relations : edit.graph.relations ≡ Dict.put r.relation_id r g.relations

add_relation-puts :
    (now : ℕ) (r : Relation) (g : KnowledgeGraph)
    → (in_graph g r.source_id && in_graph g r.target_id) ≡ true
    → IsPut r g (add_relation now r g)
unfolding add_relation
add_relation-puts now r g ends =
    rw (ends, add_relation) (record { edit = _; added = refl; entities = refl; relations = refl })

module _ (lower : String → String) where
  -- The entity with the name that took the new one in.
  absorb_first-found :
      (entity : Entity) (es es' : Dict Entity) (found : Entity)
      → absorb_first lower entity es ≡ some (es', found)
      → all_entries is_keyed es ≡ true
      → (is_some (Dict.get found.entity_id es') ≡ true) × (named lower entity.name found ≡ true)
  unfolding absorb_first Dict.get
  absorb_first-found entity [] es' found e h = absurd (none-ne-some _ e)
  absorb_first-found entity ((k, x) ∷ es) es' found e h =
      let (here, later) = and-both (is_keyed k x) (all_entries is_keyed es) h in
      elim (Bool-cases (named lower entity.name x)) [
        | inl same ↦
            let p : ((k, absorb x entity) ∷ es, absorb x entity) ≡ (es', found) =
              some-injective _ _ (rw (same, absorb_first) at e) in
            subst
              (λ (q : Dict Entity × Entity).
                (is_some (Dict.get q.1.entity_id q.0) ≡ true)
                × (named lower entity.name q.1 ≡ true))
              p (ground (arith, here), same)
        | inr other ↦ elim (Option-cases (absorb_first lower entity es)) [
          | inl fresh ↦ absurd (none-ne-some _ (rw (other, fresh, absorb_first) at e))
          | inr (r, found_later) ↦
              let p : ((k, x) ∷ r.0, r.1) ≡ (es', found) =
                some-injective _ _ (rw (other, found_later, absorb_first) at e) in
              let (there, name) = absorb_first-found entity es r.0 r.1 found_later later in
              subst
                (λ (q : Dict Entity × Entity).
                  (is_some (Dict.get q.1.entity_id q.0) ≡ true)
                  × (named lower entity.name q.1 ≡ true))
                p (ground (arith, there), name)
        ]
      ]

  -- What adding an entity gives: the returned entity has the name and is in the graph, as what was
  -- there is.
  pub record IsAdded (entity : Entity) (g : KnowledgeGraph) (stored : Entity) (e : Edit)
      : Type 0 where
    pub intact : IsIntact e.graph
    pub there : in_graph e.graph stored.entity_id ≡ true
    pub name : named lower entity.name stored ≡ true
    pub kept : (id : String) → in_graph g id ≡ true → in_graph e.graph id ≡ true

  pub add_entity-IsAdded :
      (now : ℕ) (entity : Entity) (g : KnowledgeGraph)
      → IsIntact g
      → IsAdded entity g (stored_as lower entity g) (add_entity lower now entity g)
  unfolding add_entity stored_as
  add_entity-IsAdded now entity g i =
      let intact = add_entity-IsIntact lower now entity g i in
      elim (Option-cases (absorb_first lower entity g.entities)) [
        | inl fresh ↦
            rw (fresh, add_entity, stored_as)
              (record {
                intact = rw (fresh, add_entity) at intact;
                there = ap is_some (get-put_self entity.entity_id entity g.entities);
                name = eq_refl (lower entity.name);
                kept = λ id h. put-keeps id entity.entity_id entity g.entities h;
              })
        | inr (r, e) ↦
            let (there, name) = absorb_first-found entity g.entities r.0 r.1 e i.keyed in
            let (same, keys) = absorb_first-keeps lower entity g.entities r.0 r.1 e in
            rw (e, add_entity, stored_as)
              (record {
                intact = rw (e, add_entity) at intact;
                there = there;
                name = name;
                kept = λ id h. sym (same id) ∙ h;
              })
      ]

  link_target-IsAdded :
      (now : ℕ) (target_id : String) (link : Link) (e : Edit)
      → IsIntact e.graph
      → IsAdded
          (target_of target_id link)
          e.graph
          (link_target lower now target_id link e).0
          (link_target lower now target_id link e).1
  unfolding link_target
  link_target-IsAdded now target_id link e i =
      elim (Option-cases (find_first (named lower link.target) (Dict.values e.graph.entities))) [
        | inl unknown ↦
            let a = add_entity-IsAdded now (target_of target_id link) e.graph i in
            rw (unknown, link_target)
              (record { intact = a.intact; there = a.there; name = a.name; kept = a.kept })
        | inr (t, found) ↦
            let (name, there) =
              find_first-known (named lower link.target) e.graph.entities
                (Dict.values e.graph.entities) t (all_known-values e.graph.entities i.keyed)
                found in
            rw (found, link_target)
              (record { intact = i; there = there; name = name; kept = λ id h. h })
      ]

  -- The fact's relation is in the graph, between the two entities.
  pub record IsRelated (ids : NewIds) (stored : Entity) (link : Link) (g : KnowledgeGraph)
      : Type 0 where
    pub target : Entity
    pub target_there : in_graph g target.entity_id ≡ true
    pub target_name : named lower link.target target ≡ true
    pub related :
        Dict.get ids.relation_id g.relations
        ≡ some (link_of lower ids.relation_id stored target link)

  abbrev pub Related : NewIds → Entity → Option Link → KnowledgeGraph → Type 0
  Related ids stored none g = Unit
  Related ids stored (some link) g = IsRelated ids stored link g

  pub record IsRelatedIn (ids : NewIds) (stored : Entity) (o : Option Link)
      (r : Option (Entity × Edit)) : Type 0 where
    pub edit : Edit
    pub returned : r ≡ some (stored, edit)
    pub intact : IsIntact edit.graph
    pub there : in_graph edit.graph stored.entity_id ≡ true
    pub relation : Related ids stored o edit.graph

  pub relate-IsRelatedIn :
      (now : ℕ) (ids : NewIds) (stored : Entity) (o : Option Link) (e : Edit)
      → IsIntact e.graph
      → in_graph e.graph stored.entity_id ≡ true
      → IsRelatedIn ids stored o (relate lower now ids stored o e)
  unfolding relate add_relation
  relate-IsRelatedIn now ids stored none e i h = record {
    edit = e;
    returned = refl;
    intact = i;
    there = h;
    relation = tt;
  }
  relate-IsRelatedIn now ids stored (some link) e i h =
      let (t, e') = link_target lower now ids.target_id link e in
      let a = link_target-IsAdded now ids.target_id link e i in
      let r = link_of lower ids.relation_id stored t link in
      let put =
        add_relation-puts now r e'.graph (both-and _ _ (a.kept stored.entity_id h) a.there) in
      rw (put.added, relate)
        (record {
          edit = record { graph = put.edit.graph; events = e'.events ++ put.edit.events };
          returned = refl;
          intact = add_relation-IsIntact now r e'.graph put.edit put.added a.intact;
          there =
              ap (λ (es : Dict Entity). is_some (Dict.get stored.entity_id es)) put.entities
              ∙ a.kept stored.entity_id h;
          relation = record {
            target = t;
            target_there =
                ap (λ (es : Dict Entity). is_some (Dict.get t.entity_id es)) put.entities ∙ a.there;
            target_name = a.name;
            related =
                ap (Dict.get ids.relation_id) put.relations
                ∙ get-put_self ids.relation_id r e'.graph.relations;
          };
        })
