-- ===== src/Runtime/Memory.antt =====
-- kernel/agent.py, `remember`, with the graphs of all agents, on top of kernel/knowledge_graph.py.
use mathlib.Core.Option.{some-injective}
use hermes_kernel_v.Prelude.{
  ℕ, String, concat, ◌≡◌, refl, subst, inl, inr, true, ◌==◌, List, ◌++◌, Option, some, Bool-cases,
  Option-cases,
}
use hermes_kernel_v.Prelude.Dict
use hermes_kernel_v.Prelude.Dict.{Dict, get-put, get-put_self, all_entries, all_entries-put}
use hermes_kernel_v.Knowledge.Domain.{Entity, KnowledgeGraph, GraphEvent}
use hermes_kernel_v.Knowledge.{new_graph, create_graph, in_graph, named, add_entity, stored_as}
use hermes_kernel_v.Knowledge.Integrity.{IsIntact}
use hermes_kernel_v.Knowledge.Integrity.Histories.{put-AllIntact}
use hermes_kernel_v.Runtime.{
  Fact, NewIds, AgentMemory, entity_of, memory_graph, remember_in, remember_at, remember,
}
use hermes_kernel_v.Runtime.Adding.{add_entity-IsAdded, Related, relate-IsRelatedIn}

-- The graphs of the engine are intact, and those that agents have are there.
pub record IsSound (m : AgentMemory) : Type 0 where
  pub intact :
      (id : String) (g : KnowledgeGraph) → Dict.get id m.engine.graphs ≡ some g → IsIntact g
  pub kept :
      (agent_id graph_id : String)
      → Dict.get agent_id m.default_graphs ≡ some graph_id
      → (g : KnowledgeGraph) × (Dict.get graph_id m.engine.graphs ≡ some g)

there_after :
    (k id : String) (g h : KnowledgeGraph) (graphs : Dict KnowledgeGraph)
    → Dict.get id graphs ≡ some h
    → (g' : KnowledgeGraph) × (Dict.get id (Dict.put k g graphs) ≡ some g')
there_after k id g h graphs e = elim (Bool-cases (k == id)) [
  | inl same ↦ (g, rw (get-put k id g graphs, same) refl)
  | inr other ↦ (h, rw (get-put k id g graphs, other) e)
]

IsSound-put :
    (m : AgentMemory) (graph_id : String) (g : KnowledgeGraph)
    → IsIntact g
    → IsSound m
    → {events : List GraphEvent}
    → IsSound (record m {
      engine = record { graphs = Dict.put graph_id g m.engine.graphs; events = events };
    })
IsSound-put m graph_id g i s = record {
  intact = λ id h e. put-AllIntact graph_id g m.engine.graphs id h i s.intact e;
  kept = λ agent_id id e.
      let (h, there) = s.kept agent_id id e in there_after graph_id id g h m.engine.graphs there;
}

-- A new graph for an agent.
IsSound-create :
    (m : AgentMemory) (agent_id graph_id name : String) (now : ℕ)
    → IsSound m
    → IsSound (record {
      default_graphs = Dict.put agent_id graph_id m.default_graphs;
      engine = create_graph graph_id name now m.engine;
    })
unfolding create_graph
IsSound-create m agent_id graph_id name now s = record {
  intact = λ id h e.
      put-AllIntact graph_id (new_graph graph_id name now) m.engine.graphs id h
        (record { linked = refl; keyed = refl }) s.intact e;
  kept = λ a id e. elim (Bool-cases (agent_id == a)) [
    | inl same ↦
        let q : graph_id ≡ id =
          some-injective _ _ (rw (get-put agent_id a graph_id m.default_graphs, same) at e) in
        (
          new_graph graph_id name now,
          subst
              (λ (k : String).
                Dict.get k (Dict.put graph_id (new_graph graph_id name now) m.engine.graphs)
                ≡ some (new_graph graph_id name now))
              q (get-put_self graph_id (new_graph graph_id name now) m.engine.graphs),
        )
    | inr other ↦
        let (h, there) =
          s.kept a id (rw (get-put agent_id a graph_id m.default_graphs, other) at e) in
        there_after graph_id id (new_graph graph_id name now) h m.engine.graphs there
  ];
}

module _ (lower : String → String) where
  -- What `remember` does: it returns an entity of the fact's name that is in the graph of the agent.
  pub record IsRemembered (agent_id : String) (ids : NewIds) (fact : Fact)
      (o : Option (Entity × AgentMemory)) : Type 0 where
    pub stored : Entity
    pub after : AgentMemory
    pub returned : o ≡ some (stored, after)
    pub graph_id : String
    pub graph : KnowledgeGraph
    pub default : Dict.get agent_id after.default_graphs ≡ some graph_id
    pub held : Dict.get graph_id after.engine.graphs ≡ some graph
    pub there : in_graph graph stored.entity_id ≡ true
    pub name : named lower fact.name stored ≡ true
    pub relation : Related lower ids stored fact.relation graph
    pub sound : IsSound after

  -- The end of `remember`, in the graph that the agent has.
  remember_at-IsRemembered :
      (now : ℕ) (ids : NewIds) (agent_id : String) (fact : Fact) (m : AgentMemory)
      (graph_id : String) (g : KnowledgeGraph)
      → Dict.get agent_id m.default_graphs ≡ some graph_id
      → Dict.get graph_id m.engine.graphs ≡ some g
      → IsSound m
      → IsRemembered agent_id ids fact (remember_at lower now ids fact graph_id m)
  unfolding remember_at remember_in
  remember_at-IsRemembered now ids agent_id fact m graph_id g d f s =
      let ent = entity_of ids.entity_id fact in
      let a = add_entity-IsAdded lower now ent g (s.intact graph_id g f) in
      let stored = stored_as lower ent g in
      let r =
        relate-IsRelatedIn lower now ids stored fact.relation (add_entity lower now ent g) a.intact
          a.there in
      rw (f, r.returned, remember_at)
        (record {
          stored = stored;
          after = record m {
            engine = record {
              graphs = Dict.put graph_id r.edit.graph m.engine.graphs;
              events = m.engine.events ++ r.edit.events;
            };
          };
          returned = refl;
          graph_id = graph_id;
          graph = r.edit.graph;
          default = d;
          held = get-put_self graph_id r.edit.graph m.engine.graphs;
          there = r.there;
          name = a.name;
          relation = r.relation;
          sound = IsSound-put m graph_id r.edit.graph r.intact s;
        })

  -- What is asked to be remembered always is, where each agent's default graph is there and the graphs
  -- are intact: the call meets no missing graph and no missing end of a relation, returns an entity
  -- that has the fact's name but for case and is in the agent's graph, and if the fact has a relation,
  -- it leads from there to an entity of the graph that has the target's name. The default graphs are
  -- still there, and intact.
  pub remember-IsRemembered :
      (now : ℕ) (ids : NewIds) (agent_id : String) (fact : Fact) (m : AgentMemory)
      → IsSound m
      → IsRemembered agent_id ids fact (remember lower now ids agent_id fact m)
  unfolding remember memory_graph
  remember-IsRemembered now ids agent_id fact m s =
      elim (Option-cases (Dict.get agent_id m.default_graphs)) [
        | inl none_yet ↦
            let g = new_graph ids.graph_id (concat "agent:" agent_id) now in
            rw (none_yet, memory_graph)
              (remember_at-IsRemembered now ids agent_id fact _ ids.graph_id g
                (get-put_self agent_id ids.graph_id m.default_graphs)
                (get-put_self ids.graph_id g m.engine.graphs)
                (IsSound-create m agent_id ids.graph_id (concat "agent:" agent_id) now s))
        | inr (graph_id, known) ↦
            let (g, there) = s.kept agent_id graph_id known in
            rw (known, memory_graph)
              (remember_at-IsRemembered now ids agent_id fact m graph_id g known there s)
      ]
