-- ===== src/Knowledge.antt =====
-- kernel/knowledge_graph.py, `KnowledgeGraphEngine`: entities, relations and merging. An operation
-- on a graph returns the next graph and the events, and `none` for an error. Python's `str.lower` is
-- a parameter, as are the clock and new ids. The graph store, similarity (over floats) and the
-- dispatch of queries are not modelled.
pub mod Domain
pub mod Paths
pub mod Inference
pub mod Integrity
use Prim.Native.Nat.{max}
use hermes_kernel_v.Prelude.{
  ℕ, suc, ◌+◌, String, Bool, true, false, not, ◌&&◌, ◌||◌, ◌==◌, List, [], ◌∷◌, ◌++◌, Option, none,
  some, is_some, if◌then◌else◌,
}
use hermes_kernel_v.Prelude.Dict
use hermes_kernel_v.Prelude.Dict.{Dict}
use hermes_kernel_v.Knowledge.Domain.{
  Entity, Relation, RelationType, KnowledgeGraph, GraphEvent, graph_updated, entity_discovered,
  relation_created, entity_merged, merged_into, entity_added, relation_added, same_relation_type,
}

pub record KnowledgeGraphEngine : Type 0 where
  pub graphs : Dict KnowledgeGraph
  pub events : List GraphEvent

-- A graph and the events since.
pub record Edit : Type 0 where
  pub graph : KnowledgeGraph
  pub events : List GraphEvent

-- d.update(e)
abbrev pub update : Dict String → Dict String → Dict String
update d [] = d
update d ((k, v) ∷ e) = update (Dict.put k v d) e

abbrev pub merge_properties : Entity → Entity → Entity
merge_properties existing other = record existing {
  properties = update existing.properties other.properties;
  confidence = max existing.confidence other.confidence;
}

-- What `add_entity` makes of an entity that has the name.
abbrev pub absorb : Entity → Entity → Entity
absorb existing entity = record (merge_properties existing entity) {
  source = if entity.source == "" then existing.source else entity.source;
}

abbrev pub new_graph : String → String → ℕ → KnowledgeGraph
new_graph graph_id name now = record {
  graph_id = graph_id;
  name = name;
  entities = [];
  relations = [];
  version = 1;
  updated_at = now;
}

unfoldable pub create_graph : String → String → ℕ → KnowledgeGraphEngine → KnowledgeGraphEngine
create_graph graph_id name now eng = record eng {
  graphs = Dict.put graph_id (new_graph graph_id name now) eng.graphs;
}

unfoldable pub delete_graph : String → KnowledgeGraphEngine → Bool × KnowledgeGraphEngine
delete_graph graph_id eng =
    (is_some (Dict.get graph_id eng.graphs), record eng { graphs = Dict.pop graph_id eng.graphs })

-- An operation on one of the graphs; an unknown graph is a `KeyError`.
unfoldable pub on_graph :
    String → (KnowledgeGraph → Option Edit) → KnowledgeGraphEngine → Option KnowledgeGraphEngine
on_graph graph_id f eng = elim (Dict.get graph_id eng.graphs) [
  | none ↦ none
  | some g ↦ elim (f g) [
    | none ↦ none
    | some e ↦
        some (record {
          graphs = Dict.put graph_id e.graph eng.graphs;
          events = eng.events ++ e.events;
        })
  ]
]

module _ (lower : String → String) where
  abbrev pub named : String → Entity → Bool
  named name e = lower e.name == lower name

  -- The first entity with the name, in its place, with the new one's properties.
  unfoldable pub absorb_first : Entity → Dict Entity → Option (Dict Entity × Entity)
  absorb_first entity [] = none
  absorb_first entity ((k, e) ∷ es) =
      let rest = absorb_first entity es in
      if named entity.name e
      then some ((k, absorb e entity) ∷ es, absorb e entity)
      else elim rest [ none ↦ none | some (es', found) ↦ some ((k, e) ∷ es', found) ]

  unfoldable pub add_entity : (now : ℕ) → Entity → KnowledgeGraph → Edit
  unfolding absorb_first
  add_entity now entity g = elim (absorb_first entity g.entities) [
    | some (es, existing) ↦ record {
      graph = record g { entities = es; updated_at = now; version = g.version + 1 };
      events = graph_updated g.graph_id (g.version + 1) (merged_into existing.entity_id) ∷ [];
    }
    | none ↦ record {
      graph = record g {
        entities = Dict.put entity.entity_id entity g.entities;
        updated_at = now;
        version = g.version + 1;
      };
      events =
          entity_discovered g.graph_id entity
          ∷ graph_updated g.graph_id (g.version + 1) (entity_added entity.entity_id)
          ∷ [];
    }
  ]

  -- The entity that `add_entity` returns.
  unfoldable pub stored_as : Entity → KnowledgeGraph → Entity
  unfolding absorb_first
  stored_as entity g = elim (absorb_first entity g.entities) [
    | some (es, existing) ↦ existing
    | none ↦ entity
  ]

unfoldable pub get_entity : String → String → KnowledgeGraphEngine → Option Entity
get_entity graph_id entity_id eng = elim (Dict.get graph_id eng.graphs) [
  | none ↦ none
  | some g ↦ Dict.get entity_id g.entities
]

abbrev pub in_graph : KnowledgeGraph → String → Bool
in_graph g id = is_some (Dict.get id g.entities)

-- An endpoint that is not in the graph is a `ValueError`.
unfoldable pub add_relation : (now : ℕ) → Relation → KnowledgeGraph → Option Edit
add_relation now r g =
    if in_graph g r.source_id && in_graph g r.target_id
    then some (record {
      graph = record g {
        relations = Dict.put r.relation_id r g.relations;
        updated_at = now;
        version = g.version + 1;
      };
      events =
          relation_created g.graph_id r
          ∷ graph_updated g.graph_id (g.version + 1) (relation_added r.relation_id)
          ∷ [];
    })
    else none

abbrev pub touches : String → Relation → Bool
touches id r = (r.source_id == id) || (r.bidirectional && (r.target_id == id))

-- The other end of a relation that is met at this entity.
abbrev pub other_end : String → Relation → String
other_end id r = if r.source_id == id then r.target_id else r.source_id

abbrev pub has_kind : Option RelationType → Relation → Bool
has_kind none r = true
has_kind (some k) r = same_relation_type r.kind k

unfoldable pub neighbors_among :
    Dict Entity → String → Option RelationType → List Relation → List (Entity × Relation)
neighbors_among entities id k [] = []
neighbors_among entities id k (r ∷ rs) =
    let rest = neighbors_among entities id k rs in
    if touches id r && has_kind k r
    then elim (Dict.get (other_end id r) entities) [ none ↦ rest | some e ↦ (e, r) ∷ rest ]
    else rest

unfoldable pub get_neighbors :
    String → String → Option RelationType → KnowledgeGraphEngine → List (Entity × Relation)
unfolding neighbors_among
get_neighbors graph_id id k eng = elim (Dict.get graph_id eng.graphs) [
  | none ↦ []
  | some g ↦ if in_graph g id then neighbors_among g.entities id k (Dict.values g.relations) else []
]

abbrev pub redirect_end : String → String → String → String
redirect_end dup canonical id = if id == dup then canonical else id

abbrev pub redirect : String → String → Dict Relation → Dict Relation
redirect dup canonical [] = []
redirect dup canonical ((k, r) ∷ rs) =
    (
      k,
      record r {
        source_id = redirect_end dup canonical r.source_id;
        target_id = redirect_end dup canonical r.target_id;
      },
    )
    ∷ redirect dup canonical rs

-- One round of the loop: the graph, and the duplicates merged so far.
unfoldable pub merge_one :
    String → String → KnowledgeGraph × List String → KnowledgeGraph × List String
merge_one canonical_id dup (g, merged) =
    if dup == canonical_id then (g, merged) else elim (Dict.get dup g.entities) [
      | none ↦ (g, merged)
      | some d ↦ elim (Dict.get canonical_id g.entities) [
        | none ↦ (g, merged)
        | some c ↦ (
          record g {
            entities = Dict.pop dup (Dict.put canonical_id (merge_properties c d) g.entities);
            relations = redirect dup canonical_id g.relations;
          },
          merged ++ dup ∷ [],
        )
      ]
    ]

unfoldable pub merge_each :
    String → List String → KnowledgeGraph × List String → KnowledgeGraph × List String
unfolding merge_one
merge_each canonical_id [] r = r
merge_each canonical_id (dup ∷ dups) r = merge_each canonical_id dups (merge_one canonical_id dup r)

-- An unknown canonical entity is a `KeyError`.
unfoldable pub merge_entities : (now : ℕ) → String → List String → KnowledgeGraph → Option Edit
unfolding merge_each
merge_entities now canonical_id dups g = elim (Dict.get canonical_id g.entities) [
  | none ↦ none
  | some c ↦
      let r = merge_each canonical_id dups (g, []) in
      elim r.1 [
        | [] ↦ some (record { graph = r.0; events = [] })
        | m ∷ ms ↦ some (record {
          graph = record r.0 { updated_at = now; version = r.0.version + 1 };
          events =
              entity_merged g.graph_id canonical_id (m ∷ ms)
              ∷ graph_updated g.graph_id (r.0.version + 1) (merged_into canonical_id)
              ∷ [];
        })
      ]
]
