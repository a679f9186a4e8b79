-- ===== src/Runtime.antt =====
-- kernel/agent.py, `AgentRuntime`: which agents run, and what they remember in their graphs of the
-- knowledge graph engine. What starting and stopping an agent do in the agent itself are arguments;
-- the new ids are arguments, too. Execution, the swarm and the marketplace are not modelled here.
pub mod Adding
pub mod Memory
use hermes_kernel_v.Prelude.{
  ℕ, String, concat, Bool, true, false, List, [], ◌∷◌, ◌++◌, Option, none, some, if◌then◌else◌,
}
use hermes_kernel_v.Prelude.Dict
use hermes_kernel_v.Prelude.Dict.{Dict}
use hermes_kernel_v.Knowledge.Domain.{Entity, EntityType, Relation, RelationType, KnowledgeGraph}
use hermes_kernel_v.Knowledge.{
  KnowledgeGraphEngine, Edit, create_graph, add_entity, stored_as, add_relation, named,
}

-- What an agent asks to be remembered, with the defaults filled in.
pub record Link : Type 0 where
  pub target : String
  pub target_type : EntityType
  pub relation_type : RelationType

pub record Fact : Type 0 where
  pub name : String
  pub kind : EntityType
  pub properties : Dict String
  pub source : String
  pub confidence : ℕ
  pub relation : Option Link

-- The ids that a call may draw.
pub record NewIds : Type 0 where
  pub graph_id : String
  pub entity_id : String
  pub target_id : String
  pub relation_id : String

-- `_default_graphs` and the graphs of the engine.
pub record AgentMemory : Type 0 where
  pub default_graphs : Dict String
  pub engine : KnowledgeGraphEngine

abbrev pub entity_of : String → Fact → Entity
entity_of entity_id fact = record {
  entity_id = entity_id;
  name = fact.name;
  kind = fact.kind;
  properties = fact.properties;
  source = fact.source;
  confidence = fact.confidence;
}

abbrev pub target_of : String → Link → Entity
target_of entity_id link = record {
  entity_id = entity_id;
  name = link.target;
  kind = link.target_type;
  properties = [];
  source = "unknown";
  confidence = 1;
}

-- for e in entities: if p(e): return e
unfoldable pub find_first : (Entity → Bool) → List Entity → Option Entity
find_first p [] = none
find_first p (e ∷ es) = let rest = find_first p es in if p e then some e else rest

-- The default graph of the agent, which is created where there is none.
unfoldable pub memory_graph : (now : ℕ) → NewIds → String → AgentMemory → String × AgentMemory
unfolding create_graph
memory_graph now ids agent_id m = elim (Dict.get agent_id m.default_graphs) [
  | some graph_id ↦ (graph_id, m)
  | none ↦ (
    ids.graph_id,
    record {
      default_graphs = Dict.put agent_id ids.graph_id m.default_graphs;
      engine = create_graph ids.graph_id (concat "agent:" agent_id) now m.engine;
    },
  )
]

module _ (lower : String → String) where
  -- The target entity, found by its name or added, and the graph with it.
  unfoldable pub link_target : (now : ℕ) → String → Link → Edit → Entity × Edit
  unfolding find_first add_entity
  link_target now target_id link e =
      elim (find_first (named lower link.target) (Dict.values e.graph.entities)) [
        | some t ↦ (t, e)
        | none ↦
            let t = target_of target_id link in
            let added = add_entity lower now t e.graph in
            (
              stored_as lower t e.graph,
              record { graph = added.graph; events = e.events ++ added.events },
            )
      ]

  abbrev pub link_of : String → Entity → Entity → Link → Relation
  link_of relation_id stored t link = record {
    relation_id = relation_id;
    source_id = stored.entity_id;
    target_id = t.entity_id;
    kind = link.relation_type;
    weight = 1;
    bidirectional = false;
  }

  -- The `ValueError` of a relation without its ends is `none`.
  unfoldable pub relate : (now : ℕ) → NewIds → Entity → Option Link → Edit → Option (Entity × Edit)
  unfolding link_target add_relation
  relate now ids stored none e = some (stored, e)
  relate now ids stored (some link) e =
      let (t, e') = link_target now ids.target_id link e in
      elim (add_relation now (link_of ids.relation_id stored t link) e'.graph) [
        | none ↦ none
        | some d ↦ some (stored, record { graph = d.graph; events = e'.events ++ d.events })
      ]

  unfoldable pub remember_in : (now : ℕ) → NewIds → Fact → KnowledgeGraph → Option (Entity × Edit)
  unfolding relate add_entity stored_as
  remember_in now ids fact g =
      let ent = entity_of ids.entity_id fact in
      relate now ids (stored_as lower ent g) fact.relation (add_entity lower now ent g)

  -- A default graph that the engine does not have is a `KeyError`.
  unfoldable pub remember_at :
      (now : ℕ) → NewIds → Fact → (graph_id : String) → AgentMemory → Option (Entity × AgentMemory)
  unfolding remember_in
  remember_at now ids fact graph_id m = elim (Dict.get graph_id m.engine.graphs) [
    | none ↦ none
    | some g ↦ elim (remember_in now ids fact g) [
      | none ↦ none
      | some (stored, e) ↦ some (
        stored,
        record m {
          engine = record {
            graphs = Dict.put graph_id e.graph m.engine.graphs;
            events = m.engine.events ++ e.events;
          };
        },
      )
    ]
  ]

  unfoldable pub remember :
      (now : ℕ) → NewIds → String → Fact → AgentMemory → Option (Entity × AgentMemory)
  unfolding memory_graph remember_at
  remember now ids agent_id fact m =
      let (graph_id, m') = memory_graph now ids agent_id m in remember_at now ids fact graph_id m'
