-- ===== src/Knowledge/Domain.antt =====
-- kernel/semantic_graph.py: entities, relations and graphs, with the events of kernel/events.py that
-- tell of them. Confidences and weights are natural numbers of some unit, properties are texts.
use hermes_kernel_v.Prelude.{ℕ, String, Bool, true, false, List, Option}
use hermes_kernel_v.Prelude.Dict.{Dict}

pub data EntityType : Type 0 where
  person org concept event document custom : EntityType

pub data RelationType : Type 0 where
  knows part_of causes depends_on similar_to derived_from : RelationType

abbrev pub same_entity_type : EntityType → EntityType → Bool
same_entity_type person person = true
same_entity_type org org = true
same_entity_type concept concept = true
same_entity_type event event = true
same_entity_type document document = true
same_entity_type custom custom = true
same_entity_type _ _ = false

abbrev pub same_relation_type : RelationType → RelationType → Bool
same_relation_type knows knows = true
same_relation_type part_of part_of = true
same_relation_type causes causes = true
same_relation_type depends_on depends_on = true
same_relation_type similar_to similar_to = true
same_relation_type derived_from derived_from = true
same_relation_type _ _ = false

pub record Entity : Type 0 where
  pub entity_id : String
  pub name : String
  pub kind : EntityType
  pub properties : Dict String
  pub source : String
  pub confidence : ℕ

pub record Relation : Type 0 where
  pub relation_id : String
  pub source_id : String
  pub target_id : String
  pub kind : RelationType
  pub weight : ℕ
  pub bidirectional : Bool

pub record KnowledgeGraph : Type 0 where
  pub graph_id : String
  pub name : String
  pub entities : Dict Entity
  pub relations : Dict Relation
  pub version : ℕ
  pub updated_at : ℕ

pub data Change : Type 0 where
  merged_into entity_added relation_added : String → Change

pub data GraphEvent : Type 0 where
  graph_updated : (graph_id : String) → (version : ℕ) → Change → GraphEvent
  entity_discovered : (graph_id : String) → Entity → GraphEvent
  relation_created : (graph_id : String) → Relation → GraphEvent
  entity_merged : (graph_id canonical_id : String) → List String → GraphEvent
  inference_fired : (graph_id rule_id : String) → List String → GraphEvent

-- What a rule does where it matches; an action of another name does nothing.
pub data Action : Type 0 where
  create_relation merge_duplicates raise_alert other_action : Action

-- The pattern's entries that are absent match everything.
pub record InferenceRule : Type 0 where
  pub rule_id : String
  pub source_type : Option EntityType
  pub relation : Option RelationType
  pub target_type : Option EntityType
  pub action : Action
  pub priority : ℕ
  pub enabled : Bool
