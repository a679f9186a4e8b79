-- ===== src/Knowledge/Inference.antt =====
-- kernel/knowledge_graph.py, `run_inference` and `_match_rule`. New ids are drawn from a supply, and
-- the clock is read once in a run. Priorities are natural numbers. `none` stands for the `KeyError` of
-- a merge whose canonical entity is not there.
use hermes_kernel_v.Prelude.{
  ℕ, zero, suc, String, Bool, true, false, ◌&&◌, ◌||◌, ◌==◌, List, [], ◌∷◌, ◌++◌, Option, none,
  some, eqb, leb, any, length, if◌then◌else◌,
}
use hermes_kernel_v.Prelude.Dict
use hermes_kernel_v.Prelude.Dict.{Dict}
use hermes_kernel_v.Knowledge.Domain.{
  EntityType, Entity, similar_to, Relation, KnowledgeGraph, GraphEvent, relation_created,
  inference_fired, Action, create_relation, merge_duplicates, raise_alert, other_action,
  InferenceRule, same_entity_type, same_relation_type,
}
use hermes_kernel_v.Knowledge.{KnowledgeGraphEngine, merge_entities, has_kind}

abbrev pub has_type : Option EntityType → Entity → Bool
has_type none e = true
has_type (some t) e = same_entity_type e.kind t

unfoldable pub match_source :
    Dict Entity → InferenceRule → Entity → List Relation → List (String × String)
match_source entities rule src [] = []
match_source entities rule src (r ∷ rs) =
    let rest = match_source entities rule src rs in
    if (r.source_id == src.entity_id) && has_kind rule.relation r
    then elim (Dict.get r.target_id entities) [
      | none ↦ rest
      | some tgt ↦
          if has_type rule.target_type tgt then (src.entity_id, tgt.entity_id) ∷ rest else rest
    ]
    else rest

unfoldable pub match_sources : KnowledgeGraph → InferenceRule → List Entity → List (String × String)
unfolding match_source
match_sources g rule [] = []
match_sources g rule (src ∷ srcs) =
    let rest = match_sources g rule srcs in
    if has_type rule.source_type src
    then match_source g.entities rule src (Dict.values g.relations) ++ rest
    else rest

unfoldable pub match_rule : KnowledgeGraph → InferenceRule → List (String × String)
unfolding match_sources
match_rule g rule = match_sources g rule (Dict.values g.entities)

-- {s, t} == {a, b}
abbrev pub same_ends : String → String → Relation → Bool
same_ends a b r =
    ((r.source_id == a) && (r.target_id == b)) || ((r.source_id == b) && (r.target_id == a))

abbrev pub links : String → String → Relation → Bool
links a b r = same_relation_type r.kind similar_to && same_ends a b r

-- A run of the rules: the graph, the events, the ids drawn and what each firing inferred.
pub record Run : Type 0 where
  pub graph : KnowledgeGraph
  pub events : List GraphEvent
  pub drawn : ℕ
  pub results : List (List String)

unfoldable pub link_pairs :
    (ℕ → String) → List (String × String) → Run × List String → Run × List String
link_pairs new_id [] r = r
link_pairs new_id ((a, b) ∷ pairs) (run, inferred) =
    let rid = new_id run.drawn in
    let rel : Relation = record {
      relation_id = rid;
      source_id = a;
      target_id = b;
      kind = similar_to;
      weight = 1;
      bidirectional = false;
    } in
    link_pairs new_id pairs (
      if any (links a b) (Dict.values run.graph.relations) then (run, inferred) else (
        record run {
          graph = record run.graph { relations = Dict.put rid rel run.graph.relations };
          events = run.events ++ relation_created run.graph.graph_id rel ∷ [];
          drawn = suc run.drawn;
        },
        inferred ++ rid ∷ [],
      ))

unfoldable pub merge_pairs :
    ℕ → List (String × String) → Run × List String → Option (Run × List String)
unfolding merge_entities
merge_pairs now [] r = some r
merge_pairs now ((a, b) ∷ pairs) (run, inferred) = elim (merge_entities now a (b ∷ []) run.graph) [
  | none ↦ none
  | some e ↦
      merge_pairs now pairs
        (record run { graph = e.graph; events = run.events ++ e.events }, inferred ++ a ∷ [])
]

abbrev pub act :
    (ℕ → String) → ℕ → Action → List (String × String) → Run → Option (Run × List String)
act new_id now create_relation pairs run = some (link_pairs new_id pairs (run, []))
act new_id now merge_duplicates pairs run = merge_pairs now pairs (run, [])
act new_id now raise_alert pairs run = some (run, [])
act new_id now other_action pairs run = some (run, [])

abbrev pub both_of : List (String × String) → List String
both_of [] = []
both_of ((a, b) ∷ pairs) = a ∷ b ∷ both_of pairs

-- A rule that matches something acts.
abbrev pub fire : (ℕ → String) → ℕ → InferenceRule → List (String × String) → Run → Option Run
fire new_id now rule [] run = some run
fire new_id now rule (p ∷ pairs) run = elim (act new_id now rule.action (p ∷ pairs) run) [
  | none ↦ none
  | some (run', inferred) ↦ some (record {
    graph = record run'.graph { updated_at = now };
    events =
        run'.events ++ inference_fired run'.graph.graph_id rule.rule_id (both_of (p ∷ pairs)) ∷ [];
    drawn = run'.drawn;
    results = run'.results ++ inferred ∷ [];
  })
]

unfoldable pub fire_all : (ℕ → String) → ℕ → List InferenceRule → Run → Option Run
unfolding match_rule link_pairs merge_pairs
fire_all new_id now [] run = some run
fire_all new_id now (rule ∷ rules) run =
    elim (fire new_id now rule (match_rule run.graph rule) run) [
      | none ↦ none
      | some run' ↦ fire_all new_id now rules run'
    ]

unfoldable pub iterate : (rounds : ℕ) → (ℕ → String) → ℕ → List InferenceRule → Run → Option Run
unfolding fire_all
iterate zero new_id now rules run = some run
iterate (suc rounds) new_id now rules run = elim (fire_all new_id now rules run) [
  | none ↦ none
  | some run' ↦ elim (eqb (length run'.graph.relations) (length run.graph.relations)) [
    | true ↦ some run'
    | false ↦ iterate rounds new_id now rules run'
  ]
]

unfoldable pub insert_rule : InferenceRule → List InferenceRule → List InferenceRule
insert_rule r [] = r ∷ []
insert_rule r (x ∷ xs) =
    let rest = insert_rule r xs in if leb x.priority r.priority then r ∷ x ∷ xs else x ∷ rest

-- sorted([r for r in rules if r.enabled], key=lambda r: -r.priority)
unfoldable pub active_rules : List InferenceRule → List InferenceRule
unfolding insert_rule
active_rules [] = []
active_rules (r ∷ rules) =
    let rest = active_rules rules in if r.enabled then insert_rule r rest else rest

-- max(max_iterations, 1)
abbrev pub at_least_one : ℕ → ℕ
at_least_one zero = 1
at_least_one (suc n) = suc n

unfoldable pub run_inference :
    (ℕ → String) → ℕ → (max_iterations : ℕ) → List InferenceRule → KnowledgeGraph → Option Run
unfolding iterate active_rules
run_inference new_id now max_iterations rules g =
    iterate (at_least_one max_iterations) new_id now (active_rules rules)
      (record { graph = g; events = []; drawn = 0; results = [] })

-- The run on one of the graphs; an unknown graph is left alone.
unfoldable pub infer :
    (ℕ → String)
    → ℕ
    → (graph_id : String) → (max_iterations : ℕ) → List InferenceRule
    → KnowledgeGraphEngine
    → Option KnowledgeGraphEngine
unfolding run_inference
infer new_id now graph_id max_iterations rules eng = elim (Dict.get graph_id eng.graphs) [
  | none ↦ some eng
  | some g ↦ elim (run_inference new_id now max_iterations rules g) [
    | none ↦ none
    | some run ↦ some (record {
      graphs = Dict.put graph_id run.graph eng.graphs;
      events = eng.events ++ run.events;
    })
  ]
]
