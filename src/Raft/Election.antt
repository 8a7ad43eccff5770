-- ===== src/Raft/Election.antt =====
pub mod Winning
pub mod Elected
-- internal/raft/election.go. An election is its locked regions: `begin_election`, then for each peer
-- that answers `check_reply` and, if it passes, `count_vote`, and at the end `finish_election`. Other
-- tasks may run between any two of them.
use orris.Prelude.{
  ℕ, ◌+◌, ◌/◌, String, Bool, true, false, ◌&&◌, ◌||◌, not, Option, none, some, [], ◌∷◌, ltb, ◌==◌,
  nat_eq, if◌then◌else◌, length, get_last?, pos, minus_one, ℤ, Map, insert,
}
use orris.Transport.{RequestVoteRequest, RequestVoteResponse}
use orris.Raft.State.{
  Node, NodeState, candidate, leader, write, state_record, reset_election_timer, last_log_index,
  last_log_term,
}
use orris.Raft.Vote.{step_down}

abbrev pub is_leader : NodeState → Bool
is_leader leader = true
is_leader _ = false

abbrev pub is_candidate : NodeState → Bool
is_candidate candidate = true
is_candidate _ = false

-- The variables of `startElection` that its tasks share.
pub record Election : Type 0 where
  pub term : ℕ
  pub votes : ℕ
  pub peers_count : ℕ

unfoldable pub begin_candidacy : Node → Node
unfolding write reset_election_timer
begin_candidacy n =
    let term = n.current_term + 1 in
    reset_election_timer (
      write (state_record term n.id) (record n {
        state = candidate;
        durable = record n.durable { current_term = term; voted_for = n.id };
      }))

unfoldable pub vote_request : Node → RequestVoteRequest
vote_request n = record {
  term = n.current_term;
  candidate_id = n.id;
  last_log_index = last_log_index (get_last? n.log);
  last_log_term = last_log_term (get_last? n.log);
}

abbrev pub new_election : Node → Election
new_election n = record { term = n.current_term; votes = 1; peers_count = length n.peers + 1 }

-- The timer fires. A leader returns at once; any other node asks its peers for votes.
unfoldable pub start_election : Node → Node × Option (Election × RequestVoteRequest)
start_election n =
    if is_leader n.state
    then (n, none)
    else (let c = begin_candidacy n in (c, some (new_election c, vote_request c)))

-- `for id := range n.Peers`: the peers start behind the last entry, with nothing known to match.
unfoldable pub start_peers : Map String → ℤ → Node → Node
start_peers [] next n = n
start_peers ((id, _) ∷ peers) next n = start_peers peers next (record n {
  next_index = insert id next n.next_index;
  match_index = insert id minus_one n.match_index;
})

unfoldable pub become_leader : Node → Node
unfolding reset_election_timer
become_leader n =
    if is_leader n.state
    then n
    else reset_election_timer
        (start_peers n.peers (pos (length n.log)) (record n { state = leader }))

-- A reply arrived: is it still about this election, and does the peer know of no later term? The flag
-- says whether the task goes on.
unfoldable pub check_reply : Election → RequestVoteResponse → Node → Node × Bool
check_reply e resp n =
    if not (n.current_term == e.term) || not (is_candidate n.state)
    then (n, false)
    else if ltb n.current_term resp.term
    then (step_down resp.term n, false)
    else (n, true)

unfoldable pub has_majority : Election → Bool
has_majority e = ltb (e.peers_count / 2) e.votes

unfoldable pub count_vote : RequestVoteResponse → Election → Node → Election × Node
count_vote resp e n =
    if resp.vote_granted
    then (let e' = record e { votes = e.votes + 1 } in
        (
          e',
          if has_majority e' && is_candidate n.state && n.current_term == e'.term
              then become_leader n
              else n,
        ))
    else (e, n)

-- Every peer has answered or failed.
unfoldable pub finish_election : Election → Node → Node
unfolding reset_election_timer
finish_election e n =
    if not (is_candidate n.state) || not (n.current_term == e.term)
    then n
    else if has_majority e
    then become_leader n
    else reset_election_timer n
