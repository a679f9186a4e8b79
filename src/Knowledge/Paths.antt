-- ===== src/Knowledge/Paths.antt =====
-- kernel/knowledge_graph.py, `KnowledgeGraphEngine.find_path`: a breadth-first search, and the path
-- read back from `prev`. The loops go by fuel: the search has one round for each end of a relation and
-- two more, the reading back one for each entry of `prev` and one more.
pub mod Routes
pub mod Searching
pub mod Ending
pub mod Correct
use mathlib.Core.List.{reverse}
use hermes_kernel_v.Prelude.{
  ℕ, zero, suc, ◌+◌, String, Bool, true, false, not, ◌&&◌, ◌||◌, ◌==◌, List, [], ◌∷◌, ◌++◌, Option,
  none, some, is_some, is_none, length, if◌then◌else◌,
}
use hermes_kernel_v.Prelude.Dict
use hermes_kernel_v.Prelude.Dict.{Dict}
use hermes_kernel_v.Prelude.Texts.{has}
use hermes_kernel_v.Knowledge.Domain.{Relation, KnowledgeGraph}
use hermes_kernel_v.Knowledge.{other_end, in_graph}

-- adj.setdefault(id, []).append(r)
abbrev pub note : String → Relation → Dict (List Relation) → Dict (List Relation)
note id r adj = Dict.put id (Dict.get_or id [] adj ++ r ∷ []) adj

abbrev pub enter : Relation → Dict (List Relation) → Dict (List Relation)
enter r adj =
    let at_source = note r.source_id r adj in
    if r.bidirectional then note r.target_id r at_source else at_source

unfoldable pub adjacency : List Relation → Dict (List Relation) → Dict (List Relation)
adjacency [] adj = adj
adjacency (r ∷ rs) adj = adjacency rs (enter r adj)

pub record Search : Type 0 where
  pub seen : List String
  pub prev : Dict (String × Relation)
  pub queue : List String

abbrev pub offer : String → Search → Relation → Search
offer cur s r = if has (other_end cur r) s.seen then s else record {
  seen = other_end cur r ∷ s.seen;
  prev = Dict.put (other_end cur r) (cur, r) s.prev;
  queue = s.queue ++ other_end cur r ∷ [];
}

unfoldable pub scan : String → List Relation → Search → Search
scan cur [] s = s
scan cur (r ∷ rs) s = scan cur rs (offer cur s r)

-- The `while` loop; none stands for fuel that has run out.
unfoldable pub search :
    (fuel : ℕ) → (String → List Relation) → String → List String → Search → Option Search
unfolding scan
search zero adj to queue s = none
search (suc fuel) adj to [] s = some (record s { queue = [] })
search (suc fuel) adj to (cur ∷ rest) s = elim (cur == to) [
  | true ↦ some (record s { queue = rest })
  | false ↦ let t = scan cur (adj cur) (record s { queue = rest }) in search fuel adj to t.queue t
]

pub data PathResult : Type 0 where
  path : List Relation → PathResult
  no_path key_error out_of_fuel : PathResult

-- The path, last relation first.
unfoldable pub trace :
    (fuel : ℕ) → Dict (String × Relation) → String → String → List Relation → PathResult
trace zero prev from_id node rs = out_of_fuel
trace (suc fuel) prev from_id node rs = elim (node == from_id) [
  | true ↦ path rs
  | false ↦ elim (Dict.get node prev) [
    | none ↦ key_error
    | some (p, r) ↦ trace fuel prev from_id p (rs ++ r ∷ [])
  ]
]

abbrev pub reversed : PathResult → PathResult
reversed (path rs) = path (reverse rs)
reversed no_path = no_path
reversed key_error = key_error
reversed out_of_fuel = out_of_fuel

abbrev pub read_back : String → String → Option Search → PathResult
read_back from_id to none = out_of_fuel
read_back from_id to (some s) =
    if is_none (Dict.get to s.prev) && not (from_id == to)
    then no_path
    else reversed (trace (suc (length s.prev)) s.prev from_id to [])

abbrev pub beginning : String → Search
beginning from_id = record { seen = from_id ∷ []; prev = []; queue = from_id ∷ [] }

abbrev pub adjacent : KnowledgeGraph → String → List Relation
adjacent g id = Dict.get_or id [] (adjacency (Dict.values g.relations) [])

-- The ids at which a relation ends.
unfoldable pub ends : List Relation → List String
ends [] = []
ends (r ∷ rs) = r.source_id ∷ r.target_id ∷ ends rs

unfoldable pub find_path : KnowledgeGraph → String → String → (max_depth : ℕ) → PathResult
unfolding search trace adjacency ends
find_path g from_id to max_depth =
    if in_graph g from_id && in_graph g to
    then (let found =
          search (suc (suc (length (ends (Dict.values g.relations))))) (adjacent g) to
            (from_id ∷ []) (beginning from_id) in
        read_back from_id to found)
    else no_path
