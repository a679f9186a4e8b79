-- ===== src/Executor/Capability.antt =====
-- kernel/capability.py, `CapabilityRegistry`, with the lookup of kernel/registry.py's `ToolRegistry`.
use hermes_kernel_v.Prelude.{
  String, Bool, ◌==◌, List, [], ◌∷◌, Option, none, some, any, is_some, if◌then◌else◌,
}
use hermes_kernel_v.Prelude.Dict
use hermes_kernel_v.Prelude.Dict.{Dict}

pub record Tool : Type 0 where
  pub id : String
  pub name : String
  pub capability : String

pub record CapabilityEntity : Type 0 where
  pub id : String
  pub name : String
  pub tools : List String

pub record CapabilityRegistry : Type 0 where
  pub tool_named : String → Option Tool
  pub caps : Dict CapabilityEntity

abbrev pub has_name : String → CapabilityEntity → Bool
has_name name c = c.name == name

-- The `ValueError` for a name that is taken is `none`.
unfoldable pub register : CapabilityEntity → CapabilityRegistry → Option CapabilityRegistry
register capability r =
    if any (has_name capability.name) (Dict.values r.caps)
    then none
    else some (record r { caps = Dict.put capability.id capability r.caps })

unfoldable pub get : String → CapabilityRegistry → Option CapabilityEntity
get id r = Dict.get id r.caps

unfoldable pub find_name : String → List CapabilityEntity → Option CapabilityEntity
find_name name [] = none
find_name name (c ∷ cs) = if has_name name c then some c else find_name name cs

unfoldable pub get_by_name : String → CapabilityRegistry → Option CapabilityEntity
unfolding find_name
get_by_name name r = find_name name (Dict.values r.caps)

-- Unknown tool names are skipped.
unfoldable pub known_tools : (String → Option Tool) → List String → List Tool
known_tools tool_named [] = []
known_tools tool_named (name ∷ names) =
    let rest = known_tools tool_named names in
    elim (tool_named name) [ none ↦ rest | some tool ↦ tool ∷ rest ]

unfoldable pub resolve_tools : String → CapabilityRegistry → List Tool
unfolding get known_tools
resolve_tools id r = elim (get id r) [ none ↦ [] | some c ↦ known_tools r.tool_named c.tools ]

unfoldable pub resolve_tools_by_name : String → CapabilityRegistry → List Tool
unfolding get_by_name resolve_tools
resolve_tools_by_name name r = elim (get_by_name name r) [
  | none ↦ []
  | some c ↦ resolve_tools c.id r
]

unfoldable pub unregister : String → CapabilityRegistry → Bool × CapabilityRegistry
unregister id r = (is_some (Dict.get id r.caps), record r { caps = Dict.pop id r.caps })
