-- ===== src/Examples/Successors.antt =====
-- After "a" has sent the client's entry to "b", "b" is elected by "c" and leads the next term.
use orris.Prelude.{
  ℕ, Bool, true, false, ◌≡◌, ◌<◌, ◌≤◌, ◌*◌, refl, some, [], ◌∷◌, arith, put, tally, Prefix, ◌+ℤ◌,
  ◌-ℤ◌,
}
use orris.Transport.{RequestVoteResponse}
use orris.Raft.State.{Node, reset_election_timer}
use orris.Raft.Vote.{handle_request_vote, cast_vote, can_vote, log_up_to_date, step_down}
use orris.Raft.Append.{
  truncate, push, push_all, append_entries, adopt_leader, has_previous, check_previous,
  update_commit, acceptance, handle_append_entries,
}
use orris.Raft.Client.{begin_client_req, client_entry}
use orris.Raft.Election.{
  start_election, begin_candidacy, new_election, vote_request, check_reply, count_vote,
  has_majority, become_leader, start_peers, is_leader,
}
use orris.Raft.Replication.{append_request}
use orris.Raft.Steps.{disarm}
use orris.Cluster.{
  Cluster, stand, ask, check, count, set_node, set_race, open_race, stands, asks, checks, counts,
}
use orris.Network.{Network, plan, set_stage, set_cluster, Reach, stays, goes_on, moves}
use orris.Network.Completeness.{leader_completeness}
use orris.Examples.Leaders.{below_three}
use orris.Examples.Networks.{
  fresh, fresh-IsFresh, before, before-reached, after, after-reached, entry,
}

abbrev candidate_b : Node
candidate_b = begin_candidacy (disarm (after.cluster.node 1))

abbrev voting_b : Cluster
voting_b = stand 1 candidate_b (new_election candidate_b) (vote_request candidate_b) after.cluster

abbrev answer_c : RequestVoteResponse
answer_c = record { term = 2; vote_granted = true }

abbrev led_b : Cluster
led_b = count 1 2 answer_c (check 1 2 answer_c (ask 1 2 voting_b))

starts_b :
    start_election (disarm (after.cluster.node 1))
    ≡ (candidate_b, some (new_election candidate_b, vote_request candidate_b))
unfolding start_election set_node stand ask check count set_race open_race begin_candidacy
    handle_request_vote check_reply cast_vote can_vote log_up_to_date step_down vote_request
    count_vote has_majority become_leader start_peers reset_election_timer begin_client_req push
    client_entry handle_append_entries check_previous has_previous append_entries adopt_leader ◌+ℤ◌
    ◌-ℤ◌ truncate update_commit acceptance push_all append_request set_cluster set_stage plan
starts_b = refl

abbrev later : Network
later = set_cluster led_b after

later-reached : Reach 3 after later
unfolding start_election set_node stand ask check count set_race open_race begin_candidacy
    handle_request_vote check_reply cast_vote can_vote log_up_to_date step_down vote_request
    count_vote has_majority become_leader start_peers reset_election_timer begin_client_req push
    client_entry handle_append_entries check_previous has_previous append_entries adopt_leader ◌+ℤ◌
    ◌-ℤ◌ truncate update_commit acceptance push_all append_request set_cluster set_stage plan
later-reached =
    goes_on
      (goes_on
        (goes_on
          (goes_on stays (
            moves voting_b
              (stands 1 candidate_b (new_election candidate_b) (vote_request candidate_b)
                (omega arith) starts_b)
              tt))
          (moves (ask 1 2 voting_b) (asks 1 2 (omega arith) (omega arith) refl) tt))
        (moves (check 1 2 answer_c (ask 1 2 voting_b))
          (checks 1 2 answer_c (omega arith) (omega arith) refl) tt))
      (moves led_b (counts 1 2 answer_c (omega arith) (omega arith) refl) tt)

-- "a" and "b".
abbrev both : ℕ → Bool
both = put (put (λ _. false) 0 true) 1 true

both_more : 3 < 2 * tally both (λ j. j) 3
unfolding tally
both_more = omega arith

abbrev Holds : ℕ → Type 0
Holds j =
    both j ≡ true
    → ((after.cluster.node j).current_term ≡ 1) × Prefix (entry ∷ []) (after.cluster.node j).log

both_hold : (j : ℕ) → j < 3 → Holds j
unfolding start_election set_node stand ask check count set_race open_race begin_candidacy
    handle_request_vote check_reply cast_vote can_vote log_up_to_date step_down vote_request
    count_vote has_majority become_leader start_peers reset_election_timer begin_client_req push
    client_entry handle_append_entries check_previous has_previous append_entries adopt_leader ◌+ℤ◌
    ◌-ℤ◌ truncate update_commit acceptance push_all append_request set_cluster set_stage plan
both_hold =
    below_three Holds (λ _. (refl, ([], refl))) (λ _. (refl, ([], refl)))
      (λ no_one. absurd (cc (no_one)))

b_leads : is_leader (later.cluster.node 1).state ≡ true
unfolding start_election set_node stand ask check count set_race open_race begin_candidacy
    handle_request_vote check_reply cast_vote can_vote log_up_to_date step_down vote_request
    count_vote has_majority become_leader start_peers reset_election_timer begin_client_req push
    client_entry handle_append_entries check_previous has_previous append_entries adopt_leader ◌+ℤ◌
    ◌-ℤ◌ truncate update_commit acceptance push_all append_request set_cluster set_stage plan
b_leads = refl

b_later : 1 ≤ (later.cluster.node 1).current_term
unfolding start_election set_node stand ask check count set_race open_race begin_candidacy
    handle_request_vote check_reply cast_vote can_vote log_up_to_date step_down vote_request
    count_vote has_majority become_leader start_peers reset_election_timer begin_client_req push
    client_entry handle_append_entries check_previous has_previous append_entries adopt_leader ◌+ℤ◌
    ◌-ℤ◌ truncate update_commit acceptance push_all append_request set_cluster set_stage plan
b_later = omega arith

reached : Reach 3 fresh after
reached = chain before after before-reached after-reached
  where
    chain : (v w : Network) → Reach 3 fresh v → Reach 3 v w → Reach 3 fresh w
    chain v w first stays = first
    chain v w first (goes_on {u} rest last) = goes_on (chain v u first rest) last

leader_completeness_example : Prefix (entry ∷ []) (later.cluster.node 1).log
leader_completeness_example =
    leader_completeness 3 fresh after later both 1 0 1 (entry ∷ []) entry fresh-IsFresh reached
      later-reached both_more both_hold refl refl refl (omega arith) b_leads b_later
