-- ===== src/Knowledge/Integrity/Merging.antt =====
-- Merging keeps a graph intact: `merge_entities` of kernel/knowledge_graph.py.
use mathlib.Core.Option.{some-injective, none-ne-some}
use hermes_kernel_v.Prelude.{
  ℕ, String, ◌≡◌, ap, subst, inl, inr, ◌==◌, List, [], ◌∷◌, some, is_some, Bool-cases, Option-cases,
  List-cases,
}
use hermes_kernel_v.Prelude.Dict
use hermes_kernel_v.Prelude.Dict.{
  Dict, get-put, get-pop, all_entries, all_entries-put, all_entries-pop, all_entries-get,
}
use hermes_kernel_v.Knowledge.Domain.{KnowledgeGraph}
use hermes_kernel_v.Knowledge.{Edit, merge_properties, merge_one, merge_each, merge_entities}
use hermes_kernel_v.Knowledge.Integrity.{
  IsIntact, is_keyed, all_linked_mono, put-keeps, redirect-linked,
}

merge_one-IsIntact :
    (canonical_id dup : String) (r : KnowledgeGraph × List String)
    → IsIntact r.0
    → IsIntact (merge_one canonical_id dup r).0
unfolding merge_one
merge_one-IsIntact canonical_id dup (g, merged) i = elim (Bool-cases (dup == canonical_id)) [
  | inl same ↦ rw (same, merge_one) i
  | inr other ↦ elim (Option-cases (Dict.get dup g.entities)) [
    | inl gone ↦ rw (other, gone, merge_one) i
    | inr (d, there) ↦ elim (Option-cases (Dict.get canonical_id g.entities)) [
      | inl gone ↦ rw (other, there, gone, merge_one) i
      | inr (c, at) ↦
          let es = Dict.put canonical_id (merge_properties c d) g.entities in
          rw (other, there, at, merge_one)
            (record {
              linked =
                  redirect-linked dup canonical_id es g.relations other
                    (put-keeps canonical_id canonical_id (merge_properties c d) g.entities
                      (ap is_some at))
                    (all_linked_mono g.entities es g.relations
                      (λ id h. put-keeps id canonical_id (merge_properties c d) g.entities h)
                      i.linked);
              keyed = all_entries-pop is_keyed dup es (
                  all_entries-put is_keyed canonical_id (merge_properties c d) g.entities i.keyed
                    (all_entries-get is_keyed canonical_id c g.entities i.keyed at));
            })
    ]
  ]
]

merge_each-IsIntact :
    (canonical_id : String) (dups : List String) (r : KnowledgeGraph × List String)
    → IsIntact r.0
    → IsIntact (merge_each canonical_id dups r).0
unfolding merge_each
merge_each-IsIntact canonical_id [] r i = i
merge_each-IsIntact canonical_id (dup ∷ dups) r i =
    merge_each-IsIntact canonical_id dups (merge_one canonical_id dup r)
      (merge_one-IsIntact canonical_id dup r i)

-- The end of the merge, by whether something was merged.
pub merge_entities-IsIntact :
    (now : ℕ) (canonical_id : String) (dups : List String) (g : KnowledgeGraph) (e : Edit)
    → merge_entities now canonical_id dups g ≡ some e
    → IsIntact g
    → IsIntact e.graph
unfolding merge_entities
merge_entities-IsIntact now canonical_id dups g e h i =
    elim (Option-cases (Dict.get canonical_id g.entities)) [
      | inl gone ↦ absurd (none-ne-some _ (rw (gone, merge_entities) at h))
      | inr (c, at) ↦
          let r = merge_each canonical_id dups (g, []) in
          let j : IsIntact r.0 = merge_each-IsIntact canonical_id dups (g, []) i in
          elim (List-cases r.1) [
            | inl empty ↦
                subst (λ (d : Edit). IsIntact d.graph)
                  (some-injective _ _ (rw (at, empty, merge_entities) at h)) j
            | inr (m, ms, f) ↦
                subst (λ (d : Edit). IsIntact d.graph)
                  (some-injective _ _ (rw (at, f, merge_entities) at h))
                  (record { linked = j.linked; keyed = j.keyed })
          ]
    ]
