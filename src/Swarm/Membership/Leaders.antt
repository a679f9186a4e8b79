-- ===== src/Swarm/Membership/Leaders.antt =====
-- Leaders are members that have not failed.
use hermes_kernel_v.Prelude.{
  String, ◌≡◌, refl, subst, inl, inr, Bool, true, false, not, ◌&&◌, ◌||◌, ◌==◌, eq_iff, List, [],
  ◌∷◌, Option, none, some, arith, any, filterb, Bool-cases, Option-cases, leb, and-both, both-and,
}
use hermes_kernel_v.Prelude.Dict
use hermes_kernel_v.Prelude.Dict.{
  Dict, all_entries, all_entries-put, all_entries-pop, all_entries-get,
}
use hermes_kernel_v.Swarm.Domain.{
  SwarmMember, healthy, suspected, unhealthy, Swarm, is_unhealthy, is_healthy,
}
use hermes_kernel_v.Swarm.Election.{
  healthy_members, elect, same_id, with_health, fail_member, Watch, check_member, check_found,
  check_members, age_of, on_node,
}
use hermes_kernel_v.Swarm.Election.Highest.{
  elect-leader, elect-members, IsElected, nobody, somebody, new_leader-IsElected,
}
use hermes_kernel_v.Swarm.Membership.{beat_swarm}

-- A member is kept under its own id.
abbrev pub is_own : String → SwarmMember → Bool
is_own k m = m.agent_id == k

abbrev pub able : String → SwarmMember → Bool
able leader m = (m.agent_id == leader) && not (is_unhealthy m.health)

-- `leader` is the id of a member that has not failed.
abbrev pub serves : String → Dict SwarmMember → Bool
serves leader members = any (able leader) (Dict.values members)

abbrev pub is_led : Option String → Dict SwarmMember → Bool
is_led none members = true
is_led (some leader) members = serves leader members

abbrev pub is_sound : Swarm → Bool
is_sound s = all_entries is_own s.members && is_led s.leader_id s.members

serves-put_self :
    (k : String) (m : SwarmMember) (d : Dict SwarmMember)
    → able k m ≡ true
    → serves k (Dict.put k m d) ≡ true
unfolding Dict.put
serves-put_self k m [] h = ground (arith, h)
serves-put_self k m ((j, n) ∷ d) h = ground (arith, h, serves-put_self k m d h)

serves-put_ne :
    (k l : String) (m : SwarmMember) (d : Dict SwarmMember)
    → (k == l) ≡ false
    → all_entries is_own d ≡ true
    → serves l d ≡ true
    → serves l (Dict.put k m d) ≡ true
unfolding Dict.put
serves-put_ne k l m [] o h e = ground arith
serves-put_ne k l m ((j, n) ∷ d) o h e = ground (
  arith,
  serves-put_ne k l m d o,
  eq_iff j k,
  eq_iff n.agent_id l,
  eq_iff n.agent_id j,
  eq_iff k l,
)

serves-pop_ne :
    (k l : String) (d : Dict SwarmMember)
    → (k == l) ≡ false
    → all_entries is_own d ≡ true
    → serves l d ≡ true
    → serves l (Dict.pop k d) ≡ true
unfolding Dict.pop
serves-pop_ne k l [] o h e = ground arith
serves-pop_ne k l ((j, n) ∷ d) o h e =
    ground (
      arith,
      serves-pop_ne k l d o,
      eq_iff j k,
      eq_iff n.agent_id l,
      eq_iff n.agent_id j,
      eq_iff k l,
    )

healthy-able :
    (l : String) (ms : List SwarmMember)
    → any (λ m. m.agent_id == l) (filterb (λ m. is_healthy m.health) ms) ≡ true
    → any (able l) ms ≡ true
healthy-able l [] h = ground arith
healthy-able l (m ∷ ms) h = elim (Bool-cases (is_healthy m.health)) [
  | inl up ↦
      let g : ((m.agent_id == l)
            || any (λ n. n.agent_id == l) (filterb (λ n. is_healthy n.health) ms))
          ≡ true =
        rw up at h in
      ground (arith, up, g, healthy-able l ms)
  | inr down ↦
      let g : any (λ n. n.agent_id == l) (filterb (λ n. is_healthy n.health) ms) ≡ true =
        rw down at h in
      ground (arith, healthy-able l ms g)
]

elected-is_led :
    (d : Dict SwarmMember) {o : Option String} → IsElected (healthy_members d) o → is_led o d ≡ true
elected-is_led d (nobody e) = refl
elected-is_led d (somebody leader h) = healthy-able leader (Dict.values d) h.is_member

pub elect-is_sound : (s : Swarm) → all_entries is_own s.members ≡ true → is_sound (elect s).0 ≡ true
elect-is_sound s h =
    rw (is_sound, elect-leader s, (elect-members s).0)
      (ground (arith, h, elected-is_led s.members (new_leader-IsElected s.members)))

pub is_led-put :
    (o : Option String) (k : String) (m : SwarmMember) (d : Dict SwarmMember)
    → all_entries is_own d ≡ true
    → able k m ≡ true
    → is_led o d ≡ true
    → is_led o (Dict.put k m d) ≡ true
is_led-put none k m d own a h = refl
is_led-put (some l) k m d own a h = elim (Bool-cases (k == l)) [
  | inl same ↦
      subst (λ q. serves q (Dict.put k m d) ≡ true) ((eq_iff k l).0 same) (serves-put_self k m d a)
  | inr other ↦ serves-put_ne k l m d other own h
]

-- Putting any member where the leader is another, and taking one away.
is_led-put_ne :
    (o : Option String) (k : String) (m : SwarmMember) (d : Dict SwarmMember)
    → same_id o (some k) ≡ false
    → all_entries is_own d ≡ true
    → is_led o d ≡ true
    → is_led o (Dict.put k m d) ≡ true
is_led-put_ne none k m d ne own h = refl
is_led-put_ne (some l) k m d ne own h =
    serves-put_ne k l m d (ground (arith, ne, eq_iff k l, eq_iff l k)) own h

pub is_led-pop_ne :
    (o : Option String) (k : String) (d : Dict SwarmMember)
    → same_id o (some k) ≡ false
    → all_entries is_own d ≡ true
    → is_led o d ≡ true
    → is_led o (Dict.pop k d) ≡ true
is_led-pop_ne none k d ne own h = refl
is_led-pop_ne (some l) k d ne own h =
    serves-pop_ne k l d (ground (arith, ne, eq_iff k l, eq_iff l k)) own h

-- Replacing a member by one with the same id that has not failed.
with_health-is_sound :
    (k : String) (m : SwarmMember) (s : Swarm)
    → able k m ≡ true
    → is_sound s ≡ true
    → is_sound (with_health k m s) ≡ true
with_health-is_sound k m s a h =
    let (own, led) = and-both (all_entries is_own s.members) _ h in
    both-and _ _ (all_entries-put is_own k m s.members own (and-both (is_own k m) _ a).0)
      (is_led-put s.leader_id k m s.members own a led)

fail_member-is_sound :
    (k : String) (m : SwarmMember) (s : Swarm)
    → is_own k m ≡ true
    → is_sound s ≡ true
    → is_sound (fail_member k m s).0 ≡ true
unfolding fail_member
fail_member-is_sound k m s o h =
    let m' : SwarmMember = record m { health = unhealthy } in
    let (own, led) = and-both (all_entries is_own s.members) _ h in
    let own' = all_entries-put is_own k m' s.members own o in
    elim (Bool-cases (same_id s.leader_id (some k))) [
      | inl leads ↦
          rw (leads, fail_member)
            (elect-is_sound (record s { members = Dict.put k m' s.members; leader_id = none }) own')
      | inr follows ↦
          rw (follows, fail_member)
            (both-and _ _ own' (is_led-put_ne s.leader_id k m' s.members follows own led))
    ]

-- The three outcomes of a check of a known member.
check_found-is_sound :
    (w : Watch) (k : String) (m : SwarmMember) (s : Swarm)
    → is_own k m ≡ true
    → is_sound s ≡ true
    → is_sound (check_found w k m s).1.0 ≡ true
unfolding check_found
check_found-is_sound w k m s o h =
    elim (Bool-cases (leb w.failure (age_of w.now k w.last_beat) && not (is_unhealthy m.health))) [
      | inl failed ↦ rw (failed, check_found) (fail_member-is_sound k m s o h)
      | inr alive ↦
          rw (alive, check_found)
            (elim (Bool-cases
              (leb w.suspicion (age_of w.now k w.last_beat) && is_healthy m.health)) [
                | inl late ↦ rw late (
                    with_health-is_sound k (record m { health = suspected }) s (both-and _ _ o refl)
                      h)
                | inr fine ↦ rw fine h
              ])
    ]

check_member-is_sound :
    (w : Watch) (k : String) (s : Swarm)
    → is_sound s ≡ true
    → is_sound (check_member w k s).1.0 ≡ true
unfolding check_member
check_member-is_sound w k s h = elim (Option-cases (Dict.get k s.members)) [
  | inl none_there ↦ rw (none_there, check_member) h
  | inr (m, found) ↦
      rw (found, check_member)
        (check_found-is_sound w k m s
          (all_entries-get is_own k m s.members (and-both _ _ h).0 found) h)
]

pub check_members-is_sound :
    (w : Watch) (ids : List String) (s : Swarm)
    → is_sound s ≡ true
    → is_sound (check_members w ids s).1.0 ≡ true
unfolding check_members
check_members-is_sound w [] s h = h
check_members-is_sound w (k ∷ ids) s h =
    check_members-is_sound w ids (check_member w k s).1.0 (check_member-is_sound w k s h)

pub beat_swarm-is_sound :
    (node_id k : String) (s : Swarm) → is_sound s ≡ true → is_sound (beat_swarm node_id k s) ≡ true
unfolding beat_swarm
beat_swarm-is_sound node_id k s h = elim (Option-cases (Dict.get k s.members)) [
  | inl none_there ↦ rw (none_there, beat_swarm) h
  | inr (m, found) ↦
      rw (found, beat_swarm)
        (elim (Bool-cases (on_node node_id m)) [
          | inl own_node ↦ rw own_node (
              with_health-is_sound k (record m { health = healthy }) s
                (both-and _ _ (all_entries-get is_own k m s.members (and-both _ _ h).0 found) refl)
                h)
          | inr other_node ↦ rw other_node h
        ])
]
