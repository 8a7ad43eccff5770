-- ===== src/Raft/Vote.antt =====
pub mod Grant
-- `stepDown` of internal/raft/election.go and `HandleRequestVote` of internal/raft/replication.go.
use orris.Prelude.{
  ℕ, Bool, true, false, ◌&&◌, ◌||◌, ltb, leb_ℤ, ◌==◌, nat_eq, string_eq, if◌then◌else◌, get_last?,
}
use orris.Transport.{RequestVoteRequest, RequestVoteResponse}
use orris.Raft.State.{
  Node, follower, write, state_record, reset_election_timer, last_log_index, last_log_term,
}

unfoldable pub step_down : ℕ → Node → Node
unfolding write reset_election_timer
step_down term n = reset_election_timer (
    write (state_record term "") (record n {
      state = follower;
      durable = record n.durable { current_term = term; voted_for = "" };
    }))

unfoldable pub can_vote : Node → RequestVoteRequest → Bool
can_vote n req = n.voted_for == "" || n.voted_for == req.candidate_id

unfoldable pub log_up_to_date : Node → RequestVoteRequest → Bool
log_up_to_date n req =
    let last_idx = last_log_index (get_last? n.log) in
    let last_term = last_log_term (get_last? n.log) in
    if ltb last_term req.last_log_term
    then true
    else if req.last_log_term == last_term && leb_ℤ last_idx req.last_log_index
    then true
    else false

-- The vote, after the terms were compared.
unfoldable pub cast_vote : RequestVoteRequest → Node → Node × RequestVoteResponse
unfolding write reset_election_timer can_vote log_up_to_date
cast_vote req n =
    if can_vote n req && log_up_to_date n req
    then (let voted = record n { durable = record n.durable { voted_for = req.candidate_id } } in
        (
          reset_election_timer (write (state_record n.current_term req.candidate_id) voted),
          record { term = n.current_term; vote_granted = true },
        ))
    else (n, record { term = n.current_term; vote_granted = false })

unfoldable pub handle_request_vote : RequestVoteRequest → Node → Node × RequestVoteResponse
handle_request_vote req n =
    if ltb req.term n.current_term
    then (n, record { term = n.current_term; vote_granted = false })
    else cast_vote req (if ltb n.current_term req.term then step_down req.term n else n)
