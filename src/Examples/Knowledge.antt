-- ===== src/Examples/Knowledge.antt =====
-- The knowledge graph engine at concrete inputs.
use hermes_kernel_v.Prelude.{ℕ, String, ◌≡◌, refl, true, false, [], ◌∷◌, Option, some, none}
use hermes_kernel_v.Prelude.Dict
use hermes_kernel_v.Prelude.Texts.{has}
use hermes_kernel_v.Knowledge.Domain.{
  Entity, Relation, KnowledgeGraph, person, org, knows, part_of, InferenceRule, create_relation,
}
use hermes_kernel_v.Knowledge.{
  KnowledgeGraphEngine, create_graph, on_graph, add_entity, add_relation, new_graph,
}
use hermes_kernel_v.Knowledge.Inference.{infer}
use hermes_kernel_v.Knowledge.Paths.{find_path, path}
use hermes_kernel_v.Knowledge.Paths.Correct.{IsFound, find_path-IsFound}
use hermes_kernel_v.Knowledge.Integrity.{IsIntact}
use hermes_kernel_v.Knowledge.Integrity.Histories.{
  History, started, created, entity_put, relation_put, inferred, History-IsIntact,
}

abbrev ann : Entity
ann = record {
  entity_id = "a";
  name = "Ann";
  kind = person;
  properties = [];
  source = "";
  confidence = 9;
}

abbrev bo : Entity
bo = record ann { entity_id = "b"; name = "Bo" }

abbrev club : Entity
club = record ann { entity_id = "c"; name = "Club"; kind = org }

abbrev ann_bo : Relation
ann_bo = record {
  relation_id = "r1";
  source_id = "a";
  target_id = "b";
  kind = knows;
  weight = 1;
  bidirectional = false;
}

-- Met from either end.
abbrev club_bo : Relation
club_bo = record ann_bo {
  relation_id = "r2";
  source_id = "c";
  kind = part_of;
  bidirectional = true;
}

abbrev club_graph : KnowledgeGraph
club_graph = record (new_graph "g" "club" 1) {
  entities = ("a", ann) ∷ ("b", bo) ∷ ("c", club) ∷ [];
  relations = ("r1", ann_bo) ∷ ("r2", club_bo) ∷ [];
}

find_path-IsFound_example : IsFound club_graph "a" "c" (find_path club_graph "a" "c" 0)
unfolding Dict.get
find_path-IsFound_example = find_path-IsFound club_graph "a" "c" 0 refl refl

-- The bound of one on the depth is passed over.
find_path_two : find_path club_graph "a" "c" 1 ≡ path (ann_bo ∷ club_bo ∷ [])
unfolding find_path Dict.get Dict.put has
find_path_two = refl

abbrev same_name : String → String
same_name s = s

abbrev nth_id : ℕ → String
nth_id n = "id"

abbrev friends : InferenceRule
friends = record {
  rule_id = "friends";
  source_type = some person;
  relation = some knows;
  target_type = none;
  action = create_relation;
  priority = 1;
  enabled = true;
}

abbrev fresh : KnowledgeGraphEngine
fresh = record { graphs = []; events = [] }

abbrev with_graph : KnowledgeGraphEngine
unfolding create_graph Dict.put
with_graph = create_graph "g" "club" 1 fresh

abbrev or_else : Option KnowledgeGraphEngine → KnowledgeGraphEngine
or_else none = fresh
or_else (some eng) = eng

abbrev with_ann : KnowledgeGraphEngine
unfolding create_graph on_graph add_entity Dict.put Dict.get
with_ann = or_else (on_graph "g" (λ g. some (add_entity same_name 2 ann g)) with_graph)

abbrev with_both : KnowledgeGraphEngine
unfolding create_graph on_graph add_entity Dict.put Dict.get
with_both = or_else (on_graph "g" (λ g. some (add_entity same_name 3 bo g)) with_ann)

abbrev linked_up : KnowledgeGraphEngine
unfolding create_graph on_graph add_entity add_relation Dict.put Dict.get
linked_up = or_else (on_graph "g" (add_relation 4 ann_bo) with_both)

abbrev concluded : KnowledgeGraphEngine
unfolding create_graph on_graph add_entity add_relation infer Dict.put Dict.get
concluded = or_else (infer nth_id 5 "g" 3 (friends ∷ []) linked_up)

club_History : History same_name nth_id concluded
unfolding create_graph on_graph add_entity add_relation infer Dict.put Dict.get
club_History =
    inferred "g" 5 3 (friends ∷ []) linked_up concluded
      (relation_put "g" 4 ann_bo with_both linked_up
        (entity_put "g" 3 bo with_ann with_both
          (entity_put "g" 2 ann with_graph with_ann (created "g" "club" 1 fresh started) refl) refl)
        refl)
      refl

abbrev concluded_graph : KnowledgeGraph
unfolding Dict.get
concluded_graph = elim (Dict.get "g" concluded.graphs) [ none ↦ club_graph | some g ↦ g ]

History-IsIntact_example : IsIntact concluded_graph
unfolding create_graph on_graph add_entity add_relation infer Dict.put Dict.get
History-IsIntact_example =
    History-IsIntact same_name nth_id concluded club_History "g" concluded_graph refl
