-- ===== src/Examples/Networks.antt =====
-- In the cluster of three, the leader "a" takes a client's request and sends the entry to "b".
use orris.Prelude.{
  ◌≡◌, refl, some, [], arith, pos, minus_one, get_elem?, take, insert, lookup, ◌+ℤ◌, ◌-ℤ◌,
}
use orris.Storage.{LogEntry, op_set}
use orris.Transport.{AppendEntriesRequest, AppendEntriesResponse}
use orris.Raft.State.{Node, ClientReq, reset_election_timer}
use orris.Raft.Vote.{handle_request_vote, cast_vote, can_vote, log_up_to_date, step_down}
use orris.Raft.Append.{
  truncate, push, push_all, append_entries, adopt_leader, has_previous, check_previous,
  update_commit, acceptance, refusal, handle_append_entries,
}
use orris.Raft.Client.{begin_client_req, client_entry}
use orris.Raft.Election.{
  begin_candidacy, new_election, vote_request, check_reply, count_vote, has_majority, become_leader,
  start_peers,
}
use orris.Raft.Replication.{
  PeerTask, append_request, begin_replication, peer_tasks, send_heartbeats,
}
use orris.Raft.Steps.{client_requested, step}
use orris.Cluster.{
  Cluster, stand, ask, check, count, set_node, set_race, open_race, stands, asks, checks, counts,
  happens,
}
use orris.Network.{
  Call, Network, closed, sent, answered, plan, set_stage, set_cluster, Reach, stays, goes_on, moves,
  plans, sends, answers,
}
use orris.Network.Matching.{IsFresh, log_matching}
use orris.Examples.Logs.{result_or}
use orris.Examples.Leaders.{
  trio, led, voting, candidate_a, starts_a, answer, trio-IsStart, below_three,
}

abbrev idle_call : Call
idle_call = record {
  owner = 0;
  peer = 0;
  task = record { peer_id = ""; peer_addr = ""; next = pos 0; term = 0; commit_index = minus_one };
  stage = closed;
}

abbrev pub fresh : Network
fresh = record { cluster = trio; call = λ _. idle_call; calls = 0 }

pub fresh-IsFresh : IsFresh 3 fresh
fresh-IsFresh = record {
  start = trio-IsStart;
  calls = refl;
  empty = below_three (λ i. (trio.node i).log ≡ []) refl refl refl;
}

abbrev set_x : ClientReq
set_x = record { op = op_set; key = "x"; value = "one" }

abbrev a_writes : Node
a_writes = (begin_client_req set_x (led.node 0)).0

abbrev pub wrote : Cluster
wrote = set_node 0 a_writes led

abbrev pub before : Network
before = set_cluster wrote fresh

pub before-reached : Reach 3 fresh before
unfolding stand ask check count set_node set_race open_race begin_candidacy handle_request_vote
    check_reply cast_vote can_vote log_up_to_date step_down vote_request set_cluster step
before-reached =
    goes_on
      (goes_on
        (goes_on
          (goes_on
            (goes_on stays (
              moves voting
                (stands 0 candidate_a (new_election candidate_a) (vote_request candidate_a)
                  (omega arith) starts_a)
                tt))
            (moves (ask 0 1 voting) (asks 0 1 (omega arith) (omega arith) refl) tt))
          (moves (check 0 1 answer (ask 0 1 voting))
            (checks 0 1 answer (omega arith) (omega arith) refl) tt))
        (moves led (counts 0 1 answer (omega arith) (omega arith) refl) tt))
      (moves wrote (happens (client_requested set_x) 0 a_writes (omega arith) tt refl) tt)

abbrev to_b : PeerTask
to_b = record { peer_id = "b"; peer_addr = "b:1"; next = pos 0; term = 1; commit_index = minus_one }

abbrev pub request : AppendEntriesRequest
request = append_request to_b a_writes

abbrev pub taken : Node × AppendEntriesResponse
taken = result_or (led.node 1, refusal (led.node 1)) (handle_append_entries request (led.node 1))

in_round : get_elem? (send_heartbeats (wrote.node 0)) 0 ≡ some to_b
unfolding set_node stand ask check count set_race open_race begin_candidacy handle_request_vote
    check_reply cast_vote can_vote log_up_to_date step_down vote_request count_vote has_majority
    become_leader start_peers reset_election_timer begin_client_req push client_entry
    send_heartbeats peer_tasks insert lookup
in_round = refl

b_named : "b" ≡ (wrote.node 1).id
unfolding set_node stand ask check count set_race open_race begin_candidacy handle_request_vote
    check_reply cast_vote can_vote log_up_to_date step_down vote_request count_vote has_majority
    become_leader start_peers reset_election_timer begin_client_req push client_entry
b_named = refl

request-made : begin_replication to_b (wrote.node 0) ≡ some request
unfolding set_node stand ask check count set_race open_race begin_candidacy handle_request_vote
    check_reply cast_vote can_vote log_up_to_date step_down vote_request count_vote has_majority
    become_leader start_peers reset_election_timer begin_client_req push client_entry
    begin_replication append_request
request-made = refl

request-taken : handle_append_entries request (wrote.node 1) ≡ some (taken.0, taken.1)
unfolding set_node stand ask check count set_race open_race begin_candidacy handle_request_vote
    check_reply cast_vote can_vote log_up_to_date step_down vote_request count_vote has_majority
    become_leader start_peers reset_election_timer begin_client_req push client_entry
    handle_append_entries check_previous has_previous append_entries adopt_leader ◌+ℤ◌ ◌-ℤ◌ truncate
    update_commit acceptance push_all append_request
request-taken = refl

abbrev pub after : Network
after =
    set_stage 0 (answered request taken.1)
      (set_cluster (set_node 1 taken.0 wrote) (set_stage 0 (sent request) (plan 0 1 to_b before)))

pub after-reached : Reach 3 before after
unfolding set_cluster set_stage plan
after-reached =
    goes_on
      (goes_on (goes_on stays (plans 0 1 0 to_b (omega arith) (omega arith) in_round b_named))
        (sends 0 request (omega arith) refl request-made))
      (answers 0 request taken.0 taken.1 (omega arith) refl request-taken)

abbrev pub entry : LogEntry
entry = record { index = pos 0; term = 1; operation = op_set; key = "x"; value = "one" }

a_has : get_elem? (before.cluster.node 0).log 0 ≡ some entry
unfolding set_node stand ask check count set_race open_race begin_candidacy handle_request_vote
    check_reply cast_vote can_vote log_up_to_date step_down vote_request count_vote has_majority
    become_leader start_peers reset_election_timer begin_client_req push client_entry set_cluster
a_has = refl

b_has : get_elem? (after.cluster.node 1).log 0 ≡ some entry
unfolding set_node stand ask check count set_race open_race begin_candidacy handle_request_vote
    check_reply cast_vote can_vote log_up_to_date step_down vote_request count_vote has_majority
    become_leader start_peers reset_election_timer begin_client_req push client_entry
    handle_append_entries check_previous has_previous append_entries adopt_leader ◌+ℤ◌ ◌-ℤ◌ truncate
    update_commit acceptance push_all append_request set_cluster set_stage plan
b_has = refl

log_matching_example : take 1 (before.cluster.node 0).log ≡ take 1 (after.cluster.node 1).log
log_matching_example =
    log_matching 3 fresh before after 0 1 0 entry entry fresh-IsFresh before-reached after-reached
      (omega arith) (omega arith) a_has b_has refl
