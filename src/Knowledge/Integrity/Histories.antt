-- ===== src/Knowledge/Integrity/Histories.antt =====
-- The engine's histories: kernel/knowledge_graph.py, the methods that change a graph.
use mathlib.Core.Option.{some-injective, none-ne-some}
use hermes_kernel_v.Prelude.{
  ℕ, String, ◌≡◌, refl, subst, inl, inr, ◌==◌, List, [], Option, some, Bool-cases, Option-cases,
}
use hermes_kernel_v.Prelude.Dict
use hermes_kernel_v.Prelude.Dict.{Dict, get-put, get-pop, get-empty}
use hermes_kernel_v.Knowledge.Domain.{Entity, Relation, KnowledgeGraph, InferenceRule}
use hermes_kernel_v.Knowledge.{
  KnowledgeGraphEngine, Edit, new_graph, create_graph, delete_graph, on_graph, add_entity,
  add_relation, merge_entities,
}
use hermes_kernel_v.Knowledge.Inference.{run_inference, infer}
use hermes_kernel_v.Knowledge.Integrity.{IsIntact, add_entity-IsIntact, add_relation-IsIntact}
use hermes_kernel_v.Knowledge.Integrity.Merging.{merge_entities-IsIntact}
use hermes_kernel_v.Knowledge.Integrity.Inferring.{run_inference-IsIntact}

-- What the engine's calls do to its state, from an engine with no graphs.
pub data History (lower : String → String) (new_id : ℕ → String)
    : KnowledgeGraphEngine → Type 0 where
  started : History lower new_id (record { graphs = []; events = [] })
  created :
      (graph_id name : String) (now : ℕ) (eng : KnowledgeGraphEngine)
      → History lower new_id eng
      → History lower new_id (create_graph graph_id name now eng)
  deleted :
      (graph_id : String) (eng : KnowledgeGraphEngine)
      → History lower new_id eng
      → History lower new_id (delete_graph graph_id eng).1
  entity_put :
      (graph_id : String) (now : ℕ) (entity : Entity) (eng eng' : KnowledgeGraphEngine)
      → History lower new_id eng
      → on_graph graph_id (λ g. some (add_entity lower now entity g)) eng ≡ some eng'
      → History lower new_id eng'
  relation_put :
      (graph_id : String) (now : ℕ) (r : Relation) (eng eng' : KnowledgeGraphEngine)
      → History lower new_id eng
      → on_graph graph_id (add_relation now r) eng ≡ some eng'
      → History lower new_id eng'
  merged :
      (graph_id : String) (now : ℕ) (canonical_id : String) (dups : List String)
      (eng eng' : KnowledgeGraphEngine)
      → History lower new_id eng
      → on_graph graph_id (merge_entities now canonical_id dups) eng ≡ some eng'
      → History lower new_id eng'
  inferred :
      (graph_id : String) (now max_iterations : ℕ) (rules : List InferenceRule)
      (eng eng' : KnowledgeGraphEngine)
      → History lower new_id eng
      → infer new_id now graph_id max_iterations rules eng ≡ some eng'
      → History lower new_id eng'

abbrev AllIntact : KnowledgeGraphEngine → Type 0
AllIntact eng = (id : String) (g : KnowledgeGraph) → Dict.get id eng.graphs ≡ some g → IsIntact g

-- One more graph that is intact.
pub put-AllIntact :
    (graph_id : String) (g : KnowledgeGraph) (graphs : Dict KnowledgeGraph) (id : String)
    (found : KnowledgeGraph)
    → IsIntact g
    → ((j : String) (h : KnowledgeGraph) → Dict.get j graphs ≡ some h → IsIntact h)
    → Dict.get id (Dict.put graph_id g graphs) ≡ some found
    → IsIntact found
put-AllIntact graph_id g graphs id found i all e = elim (Bool-cases (graph_id == id)) [
  | inl same ↦ subst IsIntact (some-injective _ _ (rw (get-put graph_id id g graphs, same) at e)) i
  | inr other ↦ all id found (rw (get-put graph_id id g graphs, other) at e)
]

on_graph-AllIntact :
    (graph_id : String) (f : KnowledgeGraph → Option Edit) (eng eng' : KnowledgeGraphEngine)
    → ((g : KnowledgeGraph) (d : Edit) → f g ≡ some d → IsIntact g → IsIntact d.graph)
    → on_graph graph_id f eng ≡ some eng'
    → AllIntact eng
    → AllIntact eng'
unfolding on_graph
on_graph-AllIntact graph_id f eng eng' keep h all =
    elim (Option-cases (Dict.get graph_id eng.graphs)) [
      | inl gone ↦ absurd (none-ne-some _ (rw (gone, on_graph) at h))
      | inr (g, there) ↦ elim (Option-cases (f g)) [
        | inl failed ↦ absurd (none-ne-some _ (rw (there, failed, on_graph) at h))
        | inr (d, done) ↦
            subst AllIntact (some-injective _ _ (rw (there, done, on_graph) at h)) (λ id found e.
              put-AllIntact graph_id d.graph eng.graphs id found
                (keep g d done (all graph_id g there)) all e)
      ]
    ]

infer-AllIntact :
    (new_id : ℕ → String) (now : ℕ) (graph_id : String) (max_iterations : ℕ)
    (rules : List InferenceRule) (eng eng' : KnowledgeGraphEngine)
    → infer new_id now graph_id max_iterations rules eng ≡ some eng'
    → AllIntact eng
    → AllIntact eng'
unfolding infer
infer-AllIntact new_id now graph_id max_iterations rules eng eng' h all =
    elim (Option-cases (Dict.get graph_id eng.graphs)) [
      | inl gone ↦ subst AllIntact (some-injective _ _ (rw (gone, infer) at h)) all
      | inr (g, there) ↦ elim (Option-cases (run_inference new_id now max_iterations rules g)) [
        | inl failed ↦ absurd (none-ne-some _ (rw (there, failed, infer) at h))
        | inr (run, done) ↦
            subst AllIntact (some-injective _ _ (rw (there, done, infer) at h)) (λ id found e.
              put-AllIntact graph_id run.graph eng.graphs id found
                (run_inference-IsIntact new_id now max_iterations rules g run done
                  (all graph_id g there))
                all e)
      ]
    ]

all_graphs :
    (lower : String → String) (new_id : ℕ → String) (eng : KnowledgeGraphEngine)
    → History lower new_id eng
    → AllIntact eng
unfolding create_graph delete_graph
all_graphs lower new_id _ started = λ id g e. absurd (none-ne-some _ (rw get-empty at e))
all_graphs lower new_id _ (created graph_id name now eng h) = λ id g e.
    put-AllIntact graph_id (new_graph graph_id name now) eng.graphs id g
      (record { linked = refl; keyed = refl }) (all_graphs lower new_id eng h) e
all_graphs lower new_id _ (deleted graph_id eng h) = λ id g e. elim (Bool-cases (graph_id == id)) [
  | inl same ↦ absurd (none-ne-some _ (rw (get-pop graph_id id eng.graphs, same) at e))
  | inr other ↦ all_graphs lower new_id eng h id g (rw (get-pop graph_id id eng.graphs, other) at e)
]
all_graphs lower new_id _ (entity_put graph_id now entity eng eng' h done) =
    on_graph-AllIntact graph_id _ eng eng'
      (λ g d e i.
        subst (λ (q : Edit). IsIntact q.graph) (some-injective _ _ e)
          (add_entity-IsIntact lower now entity g i))
      done (all_graphs lower new_id eng h)
all_graphs lower new_id _ (relation_put graph_id now r eng eng' h done) =
    on_graph-AllIntact graph_id _ eng eng' (λ g d e i. add_relation-IsIntact now r g d e i) done
      (all_graphs lower new_id eng h)
all_graphs lower new_id _ (merged graph_id now canonical_id dups eng eng' h done) =
    on_graph-AllIntact graph_id _ eng eng'
      (λ g d e i. merge_entities-IsIntact now canonical_id dups g d e i) done
      (all_graphs lower new_id eng h)
all_graphs lower new_id _ (inferred graph_id now max_iterations rules eng eng' h done) =
    infer-AllIntact new_id now graph_id max_iterations rules eng eng' done
      (all_graphs lower new_id eng h)

-- Whatever calls that return an engine without a store has got through, creations and deletions of
-- graphs, new entities and relations, merges and runs of the rules, in each of its graphs both ends of
-- every relation are entities of the graph and every entity stands under its own id.
pub History-IsIntact :
    (lower : String → String) (new_id : ℕ → String) (eng : KnowledgeGraphEngine)
    → History lower new_id eng
    → (graph_id : String) (g : KnowledgeGraph) → Dict.get graph_id eng.graphs ≡ some g
    → IsIntact g
History-IsIntact lower new_id eng h graph_id g there =
    all_graphs lower new_id eng h graph_id g there
