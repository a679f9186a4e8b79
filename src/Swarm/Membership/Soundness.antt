-- ===== src/Swarm/Membership/Soundness.antt =====
-- What holds of every swarm of a coordinator, whatever operations have run.
use hermes_kernel_v.Prelude.{
  ℕ, String, ◌≡◌, refl, subst, inl, inr, Bool, true, ◌&&◌, List, [], ◌∷◌, none, some, is_none,
  arith, Bool-cases, Option-cases, and-both, both-and, eq_refl,
}
use hermes_kernel_v.Prelude.Dict
use hermes_kernel_v.Prelude.Dict.{
  Dict, all_entries, all_entries-put, all_entries-pop, all_entries-get, put-put,
}
use hermes_kernel_v.Swarm.Domain.{
  SwarmTopology, leader_worker, SwarmMember, Swarm, is_leader_worker, Task,
}
use hermes_kernel_v.Swarm.State.{Coordinator, init, put_swarm, publish}
use hermes_kernel_v.Swarm.Election.{
  elect, run_election, check_swarms, check_partitions, Watch, watch, ids_of, same_id,
}
use hermes_kernel_v.Swarm.Membership.{
  fresh_swarm, create_swarm, find_swarm, join, join_swarm, leave, leave_swarm, track_node,
  beat_swarms, handle_heartbeat,
}
use hermes_kernel_v.Swarm.Membership.Joining.{create_swarm-replaces}
use hermes_kernel_v.Swarm.Membership.Leaders.{
  is_own, able, is_sound, serves, is_led, elect-is_sound, is_led-put, is_led-pop_ne,
  check_members-is_sound, beat_swarm-is_sound,
}
use hermes_kernel_v.Swarm.Delegation.{delegate_task, complete_delegation}
use hermes_kernel_v.Swarm.Delegation.Choice.{delegate_task-swarms, complete_delegation-swarms}

abbrev kept : String → Swarm → Bool
kept k s = is_sound s

-- Every swarm is sound.
abbrev pub is_valid : Coordinator → Bool
is_valid c = all_entries kept c.swarms

put_swarm-is_valid :
    (s : Swarm) (c : Coordinator)
    → is_sound s ≡ true
    → is_valid c ≡ true
    → is_valid (put_swarm s c) ≡ true
unfolding put_swarm
put_swarm-is_valid s c h v = all_entries-put kept s.swarm_id s c.swarms v h

run_election-is_valid :
    (k : String) (c : Coordinator) → is_valid c ≡ true → is_valid (run_election k c).1 ≡ true
unfolding run_election publish
run_election-is_valid k c v = elim (Option-cases (Dict.get k c.swarms)) [
  | inl unknown ↦ rw (unknown, run_election) v
  | inr (s, found) ↦
      rw (found, run_election)
        (put_swarm-is_valid (elect s).0 c
          (elect-is_sound s (and-both _ _ (all_entries-get kept k s c.swarms v found)).0) v)
]

create_swarm-is_valid :
    (k : String) (t : SwarmTopology) (c : Coordinator)
    → is_valid c ≡ true
    → is_valid (create_swarm k t c).1 ≡ true
create_swarm-is_valid k t c v =
    rw (create_swarm-replaces k t c) (put_swarm-is_valid (fresh_swarm k t) c refl v)

join-is_valid :
    (k : String) (m : SwarmMember) (now : ℕ) (s : Swarm) (c : Coordinator)
    → able m.agent_id m ≡ true
    → is_sound s ≡ true
    → is_valid c ≡ true
    → is_valid (join k m now (s, c)) ≡ true
unfolding join publish
join-is_valid k m now s c a h v =
    let (own, led) = and-both (all_entries is_own s.members) _ h in
    let s' : Swarm = record s { members = Dict.put m.agent_id m s.members } in
    let s'' =
      both-and _ _
        (all_entries-put is_own m.agent_id m s.members own (and-both (is_own m.agent_id m) _ a).0)
        (is_led-put s.leader_id m.agent_id m s.members own a led) in
    let v' =
      put_swarm-is_valid s' (record c { last_beat = Dict.put m.agent_id now c.last_beat }) s'' v in
    elim (Bool-cases (is_leader_worker s.topology && is_none s.leader_id)) [
      | inl vacant ↦ rw (vacant, join) (run_election-is_valid k _ v')
      | inr settled ↦ rw (settled, join) v'
    ]

leave-is_valid :
    (k a reason : String) (s : Swarm) (c : Coordinator)
    → is_sound s ≡ true
    → is_valid c ≡ true
    → is_valid (leave k a reason s c) ≡ true
unfolding leave publish put_swarm
leave-is_valid k a reason s c h v =
    let (own, led) = and-both (all_entries is_own s.members) _ h in
    let s' : Swarm = record s { members = Dict.pop a s.members } in
    let own' = all_entries-pop is_own a s.members own in
    elim (Bool-cases (same_id s.leader_id (some a))) [
      | inl leads ↦
          rw (leads, leave)
            (run_election-is_valid k _ (
              rw (put-put s.swarm_id (record s' { leader_id = none }) s' c.swarms) (
                all_entries-put kept s.swarm_id (record s' { leader_id = none }) c.swarms v
                  (both-and _ _ own' refl))))
      | inr follows ↦
          rw (follows, leave)
            (all_entries-put kept s.swarm_id s' c.swarms v
              (both-and _ _ own' (is_led-pop_ne s.leader_id a s.members follows own led)))
    ]

check_swarms-kept :
    (w : Watch) (d : Dict Swarm)
    → all_entries kept d ≡ true
    → all_entries kept (check_swarms w d).1.0 ≡ true
unfolding check_swarms
check_swarms-kept w [] h = refl
check_swarms-kept w ((k, s) ∷ d) h =
    let (head, rest) = and-both (is_sound s) _ h in
    both-and _ _ (check_members-is_sound w (ids_of s.members) s head) (check_swarms-kept w d rest)

beat_swarms-kept :
    (node_id a : String) (d : Dict Swarm)
    → all_entries kept d ≡ true
    → all_entries kept (beat_swarms node_id a d) ≡ true
unfolding beat_swarms
beat_swarms-kept node_id a [] h = refl
beat_swarms-kept node_id a ((k, s) ∷ d) h =
    let (head, rest) = and-both (is_sound s) _ h in
    both-and _ _ (beat_swarm-is_sound node_id a s head) (beat_swarms-kept node_id a d rest)

-- One operation of a coordinator.
pub data Step (c : Coordinator) : Coordinator → Type 0 where
  creates : (k : String) (t : SwarmTopology) → Step c (create_swarm k t c).1
  joins :
      (k agent_id node_id role : String) (capabilities : List String) (now : ℕ)
      → Step c (join_swarm k agent_id node_id role capabilities now c)
  leaves : (k agent_id reason : String) → Step c (leave_swarm k agent_id reason c)
  tracks :
      (node_id : String) (capabilities : List String) (now : ℕ)
      → Step c (track_node node_id capabilities now c)
  beats :
      (node_id agent_id : String) (load_score now : ℕ)
      → Step c (handle_heartbeat node_id agent_id load_score now c)
  checks : (now : ℕ) → Step c (check_partitions now c).1
  delegates :
      (delegation_id k : String) (task : Task) (from_agent : String)
      → Step c (delegate_task delegation_id k task from_agent c).1
  completes :
      (delegation_id result_summary : String)
      → Step c (complete_delegation delegation_id result_summary c).1

pub data Reach (c : Coordinator) : Coordinator → Type 0 where
  here : Reach c c
  next : {d e : Coordinator} → Reach c d → Step d e → Reach c e

join_swarm-is_valid :
    (k agent_id node_id role : String) (capabilities : List String) (now : ℕ) (c : Coordinator)
    → is_valid c ≡ true
    → is_valid (join_swarm k agent_id node_id role capabilities now c) ≡ true
unfolding join_swarm find_swarm
join_swarm-is_valid k agent_id node_id role capabilities now c v =
    elim (Option-cases (Dict.get k c.swarms)) [
      | inl unknown ↦
          rw (unknown, join_swarm, find_swarm, create_swarm-replaces k leader_worker c)
            (join-is_valid k _ now (fresh_swarm k leader_worker) _
              (ground (arith, eq_refl agent_id)) refl
              (put_swarm-is_valid (fresh_swarm k leader_worker) c refl v))
      | inr (s, found) ↦
          rw (found, join_swarm, find_swarm)
            (join-is_valid k _ now s c (ground (arith, eq_refl agent_id))
              (all_entries-get kept k s c.swarms v found) v)
    ]

leave_swarm-is_valid :
    (k a reason : String) (c : Coordinator)
    → is_valid c ≡ true
    → is_valid (leave_swarm k a reason c) ≡ true
unfolding leave_swarm
leave_swarm-is_valid k a reason c v = elim (Option-cases (Dict.get k c.swarms)) [
  | inl unknown ↦ rw (unknown, leave_swarm) v
  | inr (s, found) ↦ elim (Option-cases (Dict.get a s.members)) [
    | inl stranger ↦ rw (found, stranger, leave_swarm) v
    | inr (m, known) ↦
        rw (found, known, leave_swarm)
          (leave-is_valid k a reason s c (all_entries-get kept k s c.swarms v found) v)
  ]
]

Step-is_valid : {c d : Coordinator} → Step c d → is_valid c ≡ true → is_valid d ≡ true
unfolding track_node handle_heartbeat check_partitions publish
Step-is_valid {c} (creates k t) v = create_swarm-is_valid k t c v
Step-is_valid {c} (joins k agent_id node_id role capabilities now) v =
    join_swarm-is_valid k agent_id node_id role capabilities now c v
Step-is_valid {c} (leaves k agent_id reason) v = leave_swarm-is_valid k agent_id reason c v
Step-is_valid (tracks node_id capabilities now) v = v
Step-is_valid {c} (beats node_id agent_id load_score now) v =
    beat_swarms-kept node_id agent_id c.swarms v
Step-is_valid {c} (checks now) v = check_swarms-kept (watch now c) c.swarms v
Step-is_valid {c} (delegates delegation_id k task from_agent) v =
    rw (delegate_task-swarms delegation_id k task from_agent c) v
Step-is_valid {c} (completes delegation_id result_summary) v =
    rw (complete_delegation-swarms delegation_id result_summary c) v

Reach-is_valid : {c d : Coordinator} → is_valid c ≡ true → Reach c d → is_valid d ≡ true
Reach-is_valid v here = v
Reach-is_valid v (next r st) = Step-is_valid st (Reach-is_valid v r)

-- After any operations on a new coordinator, whoever leads a swarm is one of its members and is not
-- marked as unhealthy.
pub reachable-leader :
    (suspicion failure : ℕ) {c : Coordinator} (k : String) {s : Swarm} {leader : String}
    → Reach (init suspicion failure) c
    → Dict.get k c.swarms ≡ some s
    → s.leader_id ≡ some leader
    → serves leader s.members ≡ true
reachable-leader suspicion failure {c} k {s} {leader} r found led =
    let sound =
      (and-both (all_entries is_own s.members) _
        (all_entries-get kept k s c.swarms (Reach-is_valid refl r) found)).1 in
    subst (λ o. is_led o s.members ≡ true) led sound
