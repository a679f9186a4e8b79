-- ===== src/Knowledge/Integrity/Inferring.antt =====
-- The rules keep a graph intact: `run_inference` of kernel/knowledge_graph.py.
use mathlib.Core.Option.{some-injective, none-ne-some}
use hermes_kernel_v.Prelude.{
  ℕ, zero, suc, String, ◌≡◌, refl, sym, ap, subst, ◌∙◌, inl, inr, Bool, true, false, ◌&&◌, ◌==◌,
  eq_iff, List, [], ◌∷◌, ◌++◌, some, is_some, arith, Bool-cases, Option-cases, and-both, both-and,
  if◌then◌else◌, eqb, length, any,
}
use hermes_kernel_v.Prelude.Dict
use hermes_kernel_v.Prelude.Dict.{Dict, all_entries, all_entries-put, all_entries-get}
use hermes_kernel_v.Knowledge.Domain.{
  Entity, Relation, KnowledgeGraph, InferenceRule, Action, create_relation, merge_duplicates,
  raise_alert, other_action,
}
use hermes_kernel_v.Knowledge.{merge_entities, has_kind}
use hermes_kernel_v.Knowledge.Inference.{
  has_type, match_source, match_sources, match_rule, links, Run, link_pairs, merge_pairs, act, fire,
  fire_all, iterate, run_inference, active_rules, at_least_one,
}
use hermes_kernel_v.Knowledge.Integrity.{IsIntact, is_linked, is_keyed}
use hermes_kernel_v.Knowledge.Integrity.Merging.{merge_entities-IsIntact}

-- The entities, and the ends of the pairs, that are keys of the graph.
abbrev pub all_known : Dict Entity → List Entity → Bool
all_known es [] = true
all_known es (x ∷ xs) = is_some (Dict.get x.entity_id es) && all_known es xs

abbrev all_ends : Dict Entity → List (String × String) → Bool
all_ends es [] = true
all_ends es ((a, b) ∷ pairs) =
    (is_some (Dict.get a es) && is_some (Dict.get b es)) && all_ends es pairs

all_ends-append :
    (es : Dict Entity) (ps qs : List (String × String))
    → all_ends es ps ≡ true
    → all_ends es qs ≡ true
    → all_ends es (ps ++ qs) ≡ true
all_ends-append es [] qs h k = k
all_ends-append es ((a, b) ∷ ps) qs h k = ground (arith, all_ends-append es ps qs, h, k)

all_ends-if :
    (es : Dict Entity) (b : Bool) (ps qs : List (String × String))
    → all_ends es ps ≡ true
    → all_ends es qs ≡ true
    → all_ends es (if b then ps else qs) ≡ true
all_ends-if es true ps qs h k = h
all_ends-if es false ps qs h k = k

all_known-cons :
    (k : String) (x : Entity) (es : Dict Entity) (xs : List Entity)
    → all_known es xs ≡ true
    → all_known ((k, x) ∷ es) xs ≡ true
unfolding Dict.get
all_known-cons k x es [] h = refl
all_known-cons k x es (y ∷ ys) h = ground (arith, all_known-cons k x es ys, h)

-- An entity under its id is a key.
pub all_known-values :
    (es : Dict Entity) → all_entries is_keyed es ≡ true → all_known es (Dict.values es) ≡ true
unfolding Dict.get
all_known-values [] h = refl
all_known-values ((k, x) ∷ es) h =
    let (here, later) = and-both (is_keyed k x) (all_entries is_keyed es) h in
    both-and _ _ (ground (arith, here))
      (all_known-cons k x es (Dict.values es) (all_known-values es later))

match_source-known :
    (es : Dict Entity) (rule : InferenceRule) (src : Entity) (rs : List Relation)
    → all_entries is_keyed es ≡ true
    → is_some (Dict.get src.entity_id es) ≡ true
    → all_ends es (match_source es rule src rs) ≡ true
unfolding match_source
match_source-known es rule src [] keyed h = refl
match_source-known es rule src (r ∷ rs) keyed h =
    let others = match_source es rule src rs in
    let rest = match_source-known es rule src rs keyed h in
    elim (Option-cases (Dict.get r.target_id es)) [
      | inl gone ↦ rw gone (
          all_ends-if es ((r.source_id == src.entity_id) && has_kind rule.relation r) others others
            rest rest)
      | inr (tgt, there) ↦
          let same : r.target_id ≡ tgt.entity_id =
            (eq_iff r.target_id tgt.entity_id).0
              (all_entries-get is_keyed r.target_id tgt es keyed there) in
          let target : is_some (Dict.get tgt.entity_id es) ≡ true =
            ap (λ id. is_some (Dict.get id es)) (sym same) ∙ ap is_some there in
          let here = (src.entity_id, tgt.entity_id) ∷ others in
          rw there (
            all_ends-if es ((r.source_id == src.entity_id) && has_kind rule.relation r)
              (if has_type rule.target_type tgt then here else others) others
              (all_ends-if es (has_type rule.target_type tgt) here others
                (both-and _ _ (both-and _ _ h target) rest) rest)
              rest)
    ]

match_sources-known :
    (g : KnowledgeGraph) (rule : InferenceRule) (srcs : List Entity)
    → all_entries is_keyed g.entities ≡ true
    → all_known g.entities srcs ≡ true
    → all_ends g.entities (match_sources g rule srcs) ≡ true
unfolding match_sources
match_sources-known g rule [] keyed h = refl
match_sources-known g rule (src ∷ srcs) keyed h =
    let (here, later) =
      and-both (is_some (Dict.get src.entity_id g.entities)) (all_known g.entities srcs) h in
    let rest = match_sources-known g rule srcs keyed later in
    let found = match_source g.entities rule src (Dict.values g.relations) in
    let others = match_sources g rule srcs in
    all_ends-if g.entities (has_type rule.source_type src) (found ++ others) others
      (all_ends-append g.entities found others
        (match_source-known g.entities rule src (Dict.values g.relations) keyed here) rest)
      rest

match_rule-known :
    (g : KnowledgeGraph) (rule : InferenceRule)
    → IsIntact g
    → all_ends g.entities (match_rule g rule) ≡ true
unfolding match_rule
match_rule-known g rule i =
    match_sources-known g rule (Dict.values g.entities) i.keyed
      (all_known-values g.entities i.keyed)

link_pairs-IsIntact :
    (new_id : ℕ → String) (pairs : List (String × String)) (r : Run × List String)
    → all_ends r.0.graph.entities pairs ≡ true
    → IsIntact r.0.graph
    → IsIntact (link_pairs new_id pairs r).0.graph
unfolding link_pairs
link_pairs-IsIntact new_id [] r h i = i
link_pairs-IsIntact new_id ((a, b) ∷ pairs) (run, inferred) h i =
    let (ends, later) =
      and-both (is_some (Dict.get a run.graph.entities) && is_some (Dict.get b run.graph.entities))
        (all_ends run.graph.entities pairs) h in
    elim (Bool-cases (any (links a b) (Dict.values run.graph.relations))) [
      | inl old ↦ rw (old, link_pairs) (link_pairs-IsIntact new_id pairs (run, inferred) later i)
      | inr new ↦
          rw (new, link_pairs)
            (link_pairs-IsIntact new_id pairs _ later (record {
              linked =
                  all_entries-put (is_linked run.graph.entities) _ _ run.graph.relations i.linked
                    ends;
              keyed = i.keyed;
            }))
    ]

merge_pairs-IsIntact :
    (now : ℕ) (pairs : List (String × String)) (r r' : Run × List String)
    → merge_pairs now pairs r ≡ some r'
    → IsIntact r.0.graph
    → IsIntact r'.0.graph
unfolding merge_pairs
merge_pairs-IsIntact now [] r r' h i =
    subst (λ (q : Run × List String). IsIntact q.0.graph) (some-injective _ _ h) i
merge_pairs-IsIntact now ((a, b) ∷ pairs) (run, inferred) r' h i =
    elim (Option-cases (merge_entities now a (b ∷ []) run.graph)) [
      | inl gone ↦ absurd (none-ne-some _ (rw (gone, merge_pairs) at h))
      | inr (e, found) ↦
          merge_pairs-IsIntact now pairs _ r' (rw (found, merge_pairs) at h)
            (merge_entities-IsIntact now a (b ∷ []) run.graph e found i)
    ]

act-IsIntact :
    (new_id : ℕ → String) (now : ℕ) (action : Action) (pairs : List (String × String)) (run : Run)
    (r : Run × List String)
    → act new_id now action pairs run ≡ some r
    → all_ends run.graph.entities pairs ≡ true
    → IsIntact run.graph
    → IsIntact r.0.graph
act-IsIntact new_id now create_relation pairs run r h ends i =
    subst (λ (q : Run × List String). IsIntact q.0.graph) (some-injective _ _ h)
      (link_pairs-IsIntact new_id pairs (run, []) ends i)
act-IsIntact new_id now merge_duplicates pairs run r h ends i =
    merge_pairs-IsIntact now pairs (run, []) r h i
act-IsIntact new_id now raise_alert pairs run r h ends i =
    subst (λ (q : Run × List String). IsIntact q.0.graph) (some-injective _ _ h) i
act-IsIntact new_id now other_action pairs run r h ends i =
    subst (λ (q : Run × List String). IsIntact q.0.graph) (some-injective _ _ h) i

fire-IsIntact :
    (new_id : ℕ → String) (now : ℕ) (rule : InferenceRule) (pairs : List (String × String))
    (run run' : Run)
    → fire new_id now rule pairs run ≡ some run'
    → all_ends run.graph.entities pairs ≡ true
    → IsIntact run.graph
    → IsIntact run'.graph
fire-IsIntact new_id now rule [] run run' h ends i =
    subst (λ (q : Run). IsIntact q.graph) (some-injective _ _ h) i
fire-IsIntact new_id now rule (p ∷ pairs) run run' h ends i =
    elim (Option-cases (act new_id now rule.action (p ∷ pairs) run)) [
      | inl gone ↦ absurd (none-ne-some _ (rw (gone, fire) at h))
      | inr (r, acted) ↦
          let j = act-IsIntact new_id now rule.action (p ∷ pairs) run r acted ends i in
          subst (λ (q : Run). IsIntact q.graph) (some-injective _ _ (rw (acted, fire) at h))
            (record { linked = j.linked; keyed = j.keyed })
    ]

fire_all-IsIntact :
    (new_id : ℕ → String) (now : ℕ) (rules : List InferenceRule) (run run' : Run)
    → fire_all new_id now rules run ≡ some run'
    → IsIntact run.graph
    → IsIntact run'.graph
unfolding fire_all
fire_all-IsIntact new_id now [] run run' h i =
    subst (λ (q : Run). IsIntact q.graph) (some-injective _ _ h) i
fire_all-IsIntact new_id now (rule ∷ rules) run run' h i =
    elim (Option-cases (fire new_id now rule (match_rule run.graph rule) run)) [
      | inl gone ↦ absurd (none-ne-some _ (rw (gone, fire_all) at h))
      | inr (r, fired) ↦ fire_all-IsIntact new_id now rules r run' (rw (fired, fire_all) at h) (
          fire-IsIntact new_id now rule (match_rule run.graph rule) run r fired
            (match_rule-known run.graph rule i) i)
    ]

iterate-IsIntact :
    (rounds : ℕ) (new_id : ℕ → String) (now : ℕ) (rules : List InferenceRule) (run run' : Run)
    → iterate rounds new_id now rules run ≡ some run'
    → IsIntact run.graph
    → IsIntact run'.graph
unfolding iterate
iterate-IsIntact zero new_id now rules run run' h i =
    subst (λ (q : Run). IsIntact q.graph) (some-injective _ _ h) i
iterate-IsIntact (suc rounds) new_id now rules run run' h i =
    elim (Option-cases (fire_all new_id now rules run)) [
      | inl gone ↦ absurd (none-ne-some _ (rw (gone, iterate) at h))
      | inr (r, fired) ↦
          let j = fire_all-IsIntact new_id now rules run r fired i in
          elim (Bool-cases (eqb (length r.graph.relations) (length run.graph.relations))) [
            | inl over ↦
                subst (λ (q : Run). IsIntact q.graph)
                  (some-injective _ _ (rw (fired, over, iterate) at h)) j
            | inr more ↦
                iterate-IsIntact rounds new_id now rules r run' (rw (fired, more, iterate) at h) j
          ]
    ]

pub run_inference-IsIntact :
    (new_id : ℕ → String) (now max_iterations : ℕ) (rules : List InferenceRule) (g : KnowledgeGraph)
    (run : Run)
    → run_inference new_id now max_iterations rules g ≡ some run
    → IsIntact g
    → IsIntact run.graph
unfolding run_inference
run_inference-IsIntact new_id now max_iterations rules g run h i =
    iterate-IsIntact (at_least_one max_iterations) new_id now (active_rules rules) _ run h i
