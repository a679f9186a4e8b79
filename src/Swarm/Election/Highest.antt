-- ===== src/Swarm/Election/Highest.antt =====
-- An election makes the healthy member with the greatest id the leader.
use hermes_kernel_v.Prelude.{
  String, ◌≡◌, refl, sym, ap, subst, ◌∙◌, inl, inr, true, ◌==◌, eq_iff, eq_refl, List, [], ◌∷◌,
  Option, none, some, arith, any, All, Bool-cases, text_leb, text_leb_refl, text_leb-total,
  text_leb_trans,
}
use hermes_kernel_v.Prelude.Dict
use hermes_kernel_v.Swarm.Domain.{SwarmMember, Swarm}
use hermes_kernel_v.Swarm.State.{Coordinator, put_swarm, publish}
use hermes_kernel_v.Swarm.Election.{
  healthy_members, last_sorted, new_leader, elect, run_election, same_id, get_leader,
}

-- `leader` is the id of one of the members, and no member's id comes after it.
pub record IsHighest (leader : String) (ms : List SwarmMember) : Type 0 where
  pub is_member : any (λ m. m.agent_id == leader) ms ≡ true
  pub highest : All (λ m. text_leb m.agent_id leader ≡ true) ms

-- What an election answers, told from the healthy members alone.
pub data IsElected (members : List SwarmMember) : Option String → Type 0 where
  nobody : members ≡ [] → IsElected members none
  somebody : (leader : String) → IsHighest leader members → IsElected members (some leader)

last_sorted-IsHighest :
    (best : SwarmMember) (ms : List SwarmMember)
    → IsHighest (last_sorted best ms).agent_id (best ∷ ms)
unfolding last_sorted
last_sorted-IsHighest best [] = record {
  is_member = rw (eq_refl best.agent_id) refl;
  highest = (text_leb_refl best.agent_id, tt);
}
last_sorted-IsHighest best (m ∷ ms) = elim (Bool-cases (text_leb best.agent_id m.agent_id)) [
  | inl up ↦
      let ih = last_sorted-IsHighest m ms in
      rw (up, last_sorted)
        (record {
          is_member = ground (arith, ih.is_member);
          highest = (
            text_leb_trans best.agent_id m.agent_id _ up ih.highest.0,
            (ih.highest.0, ih.highest.1),
          );
        })
  | inr down ↦
      let ih = last_sorted-IsHighest best ms in
      rw (down, last_sorted)
        (record {
          is_member = ground (arith, ih.is_member);
          highest = (
            ih.highest.0,
            (
              text_leb_trans m.agent_id best.agent_id _
                  (text_leb-total best.agent_id m.agent_id down) ih.highest.0,
              ih.highest.1,
            ),
          );
        })
]

pub new_leader-IsElected :
    (members : Dict.Dict SwarmMember) → IsElected (healthy_members members) (new_leader members)
unfolding new_leader
new_leader-IsElected members = go (healthy_members members)
  where
    go :
        (ms : List SwarmMember)
        → IsElected ms (elim ms [ [] ↦ none | m ∷ ms' ↦ some (last_sorted m ms').agent_id ])
    go [] = nobody refl
    go (m ∷ ms) = somebody _ (last_sorted-IsHighest m ms)

pub same_id→≡ : (a b : Option String) → same_id a b ≡ true → a ≡ b
same_id→≡ none none h = refl
same_id→≡ none (some b) h = ground arith
same_id→≡ (some a) none h = ground arith
same_id→≡ (some a) (some b) h = ap some ((eq_iff a b).0 h)

pub elect-leader : (s : Swarm) → (elect s).0.leader_id ≡ new_leader s.members
unfolding elect
elect-leader s = elim (Bool-cases (same_id (new_leader s.members) s.leader_id)) [
  | inl same ↦ rw (same, elect) (sym (same_id→≡ _ _ same))
  | inr other ↦ rw (other, elect) refl
]

pub elect-members :
    (s : Swarm) → ((elect s).0.members ≡ s.members) × ((elect s).0.swarm_id ≡ s.swarm_id)
unfolding elect
elect-members s = ground arith

pub run_election-found :
    (swarm_id : String) (s : Swarm) (c : Coordinator)
    → Dict.get swarm_id c.swarms ≡ some s
    → run_election swarm_id c
      ≡ ((elect s).0.leader_id, publish (elect s).1 (put_swarm (elect s).0 c))
unfolding run_election
run_election-found swarm_id s c found = rw (found, run_election) refl

-- What is kept under the id afterwards.
pub stored-elect :
    (swarm_id : String) (s : Swarm) (c : Coordinator)
    → s.swarm_id ≡ swarm_id
    → Dict.get swarm_id (publish (elect s).1 (put_swarm (elect s).0 c)).swarms ≡ some (elect s).0
unfolding put_swarm publish
stored-elect swarm_id s c own =
    subst (λ k. Dict.get k (Dict.put (elect s).0.swarm_id (elect s).0 c.swarms) ≡ some (elect s).0)
      ((elect-members s).1 ∙ own) (Dict.get-put_self (elect s).0.swarm_id (elect s).0 c.swarms)

abbrev members_in : Option Swarm → Dict.Dict SwarmMember
members_in none = []
members_in (some s) = s.members

-- An election in a known swarm answers with the greatest id among the healthy members, and with
-- nobody just where no member is healthy; the answer is the swarm's leader from then on, and the
-- members stay.
pub run_election-highest :
    (swarm_id : String) (s : Swarm) (c : Coordinator)
    → Dict.get swarm_id c.swarms ≡ some s
    → s.swarm_id ≡ swarm_id
    → let r = run_election swarm_id c in
      IsElected (healthy_members s.members) r.0
      × ((get_leader swarm_id r.1 ≡ r.0)
          × ((s' : Swarm) → Dict.get swarm_id r.1.swarms ≡ some s' → s'.members ≡ s.members))
run_election-highest swarm_id s c found own =
    let kept = stored-elect swarm_id s c own in
    rw (run_election-found swarm_id s c found) (
      subst (IsElected (healthy_members s.members)) (sym (elect-leader s))
          (new_leader-IsElected s.members),
      (rw (kept, get_leader) refl, λ s' h. ap members_in (sym h ∙ kept) ∙ (elect-members s).0),
    )
