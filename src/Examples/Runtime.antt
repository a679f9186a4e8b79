-- ===== src/Examples/Runtime.antt =====
-- What agents remember, at concrete inputs.
use mathlib.Core.Option.{none-ne-some}
use hermes_kernel_v.Prelude.{String, [], some}
use hermes_kernel_v.Prelude.Dict.{get-empty}
use hermes_kernel_v.Knowledge.Domain.{person, org, part_of}
use hermes_kernel_v.Runtime.{Fact, NewIds, AgentMemory, remember}
use hermes_kernel_v.Runtime.Memory.{IsSound, IsRemembered, remember-IsRemembered}

abbrev nothing_known : AgentMemory
nothing_known = record { default_graphs = []; engine = record { graphs = []; events = [] } }

nothing_known-IsSound : IsSound nothing_known
nothing_known-IsSound = record {
  intact = λ id g e. absurd (none-ne-some _ (rw get-empty at e));
  kept = λ agent_id graph_id e. absurd (none-ne-some _ (rw get-empty at e));
}

abbrev ids : NewIds
ids = record { graph_id = "g1"; entity_id = "e1"; target_id = "e2"; relation_id = "r1" }

abbrev membership : Fact
membership = record {
  name = "Ann";
  kind = person;
  properties = [];
  source = "agent";
  confidence = 1;
  relation = some (record { target = "Club"; target_type = org; relation_type = part_of });
}

abbrev as_is : String → String
as_is s = s

remember-IsRemembered_example :
    IsRemembered as_is "a1" ids membership (remember as_is 7 ids "a1" membership nothing_known)
remember-IsRemembered_example =
    remember-IsRemembered as_is 7 ids "a1" membership nothing_known nothing_known-IsSound
