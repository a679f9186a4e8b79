-- ===== src/Swarm/Membership/Joining.antt =====
-- What creating and joining a swarm do to it.
use hermes_kernel_v.Prelude.{String, ◌≡◌, refl, false, List, [], ◌∷◌, any}
use hermes_kernel_v.Prelude.Dict
use hermes_kernel_v.Swarm.Domain.{SwarmTopology, Swarm}
use hermes_kernel_v.Swarm.State.{Coordinator, put_swarm}
use hermes_kernel_v.Swarm.Membership.{fresh_swarm, create_swarm, equals_swarm}

none_equal : (k : String) (l : List Swarm) → any (equals_swarm k) l ≡ false
unfolding equals_swarm
none_equal k [] = refl
none_equal k (s ∷ l) = none_equal k l

-- Creating a swarm always puts an empty one without a leader under the id, also where a swarm with
-- members is kept there.
pub create_swarm-replaces :
    (k : String) (t : SwarmTopology) (c : Coordinator)
    → create_swarm k t c ≡ (fresh_swarm k t, put_swarm (fresh_swarm k t) c)
unfolding create_swarm
create_swarm-replaces k t c = rw (none_equal k (Dict.values c.swarms), create_swarm) refl
