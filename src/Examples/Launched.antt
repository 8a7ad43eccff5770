-- ===== src/Examples/Launched.antt =====
-- A cluster of three that the control tool starts: the first node stands for election, and the second votes for it.
use orris.Prelude.{ℕ, suc, true, refl, some, ◌≡◌, arith, pos, ◌+ℤ◌, insert}
use orris.Raft.State.{Node, write, reset_election_timer}
use orris.Raft.Vote.{handle_request_vote, cast_vote, can_vote, log_up_to_date, step_down}
use orris.Raft.Election.{
  start_election, begin_candidacy, new_election, vote_request, check_reply, count_vote,
  has_majority, become_leader, start_peers, is_leader,
}
use orris.Raft.Recovery.{new_node, recover_state, replay, replay_entries}
use orris.Raft.Steps.{disarm}
use orris.Client.Text.{join, digits, format_nat, format_int}
use orris.Control.Text.{split_on, split_n_on, cut_on, cut_prefix}
use orris.Control.Start.{launch, peers_list, parse_peers}
use orris.Control.Start.Leaders.{daemon, launched_safety}
use orris.Cluster.{
  Cluster, open_race, stand, ask, check, count, set_node, set_race, Reach, stays, goes_on, stands,
  asks, checks, counts,
}
use orris.Examples.Nodes.{empty_journal}
use orris.Examples.Leaders.{idle_race, answer}

abbrev launched : Cluster
launched = record {
  node = λ i. daemon (launch (pos (suc i)) 3) empty_journal;
  race = λ _. idle_race;
  races = 0;
}

abbrev first : Node
first = begin_candidacy (disarm (launched.node 0))

abbrev voting : Cluster
voting = stand 0 first (new_election first) (vote_request first) launched

abbrev led : Cluster
led = count 0 1 answer (check 0 1 answer (ask 0 1 voting))

first_starts :
    start_election (disarm (launched.node 0))
    ≡ (first, some (new_election first, vote_request first))
unfolding start_election daemon new_node recover_state replay replay_entries
first_starts = refl

led-reached : Reach 3 launched led
unfolding stand ask check count set_node set_race open_race begin_candidacy handle_request_vote
    check_reply cast_vote can_vote log_up_to_date step_down vote_request daemon new_node
    recover_state replay replay_entries reset_election_timer write
led-reached =
    goes_on
      (goes_on
        (goes_on
          (goes_on stays
            (stands 0 first (new_election first) (vote_request first) (omega arith) first_starts))
          (asks 0 1 (omega arith) (omega arith) refl))
        (checks 0 1 answer (omega arith) (omega arith) refl))
      (counts 0 1 answer (omega arith) (omega arith) refl)

first_leads : is_leader (led.node 0).state ≡ true
unfolding stand ask check count set_node set_race open_race begin_candidacy handle_request_vote
    check_reply cast_vote can_vote log_up_to_date step_down vote_request count_vote has_majority
    become_leader start_peers reset_election_timer daemon new_node recover_state replay
    replay_entries parse_peers split_on split_n_on cut_on cut_prefix peers_list join format_nat
    digits format_int ◌+ℤ◌ insert
first_leads = refl

launched_safety_example : ◌≡◌ {A = ℕ} 0 0
launched_safety_example =
    launched_safety 3 launched led led 0 0 (refl, λ i less. (empty_journal, refl, refl)) led-reached
      stays (omega arith) (omega arith) first_leads first_leads refl
