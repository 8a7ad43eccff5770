-- ===== src/Examples/Elections.antt =====
-- Votes and timers of node "a".
use orris.Prelude.{
  length, ◌+◌, ◌*◌, ◌<◌, ◌≡◌, ◌≢◌, ◌↔◌, ◌≤◌, refl, true, false, some, List, [], ◌∷◌, arith,
  string_eq,
}
use text.Mathlib.TextEquality.{eq_iff}
use orris.Storage.Journal.{append}
use orris.Raft.State.{Node, write, reset_election_timer}
use orris.Raft.Vote.{handle_request_vote, cast_vote, can_vote, log_up_to_date, step_down}
use orris.Raft.Vote.Grant.{MayVote, IsUpToDate, grants_iff}
use orris.Raft.Election.{new_election, start_election, begin_candidacy, is_leader}
use orris.Raft.Recovery.{new_node, recover_state, replay, replay_entries, recover_record}
use orris.Raft.Steps.{Event, vote_requested, restarted, timer_fired, disarm, step, run}
use orris.Raft.Steps.Votes.{vote_once, votes_for_itself, run-later}
use orris.Raft.Steps.Timer.{run-IsWatching}
use orris.Transport.{RequestVoteResponse}
use orris.Raft.Election.Winning.{elect, granted, wins_with_majority}
use orris.Raft.Election.Elected.{majority_wins}
use orris.Examples.Nodes.{started, started-IsRecoverable, asks_for, or_started}

grants_iff_example :
    ((handle_request_vote (asks_for "b") started).1.vote_granted ≡ true)
    ↔ (MayVote started (asks_for "b") × IsUpToDate started (asks_for "b"))
grants_iff_example = grants_iff (asks_for "b") started

-- "a" votes for "b", crashes and starts again, is asked by "c", and then by "b" once more.
abbrev crash_and_ask : List Event
crash_and_ask = restarted ∷ vote_requested (asks_for "c") ∷ []

abbrev voter : Node
voter = (handle_request_vote (asks_for "b") started).0

abbrev asked : Node
asked = or_started (run crash_and_ask voter)

asked-reached : run crash_and_ask voter ≡ some asked
unfolding run step new_node recover_state replay_entries handle_request_vote
asked-reached = refl

votes_first : (handle_request_vote (asks_for "b") started).1.vote_granted ≡ true
unfolding handle_request_vote cast_vote can_vote log_up_to_date step_down
votes_first = refl

votes_again : (handle_request_vote (asks_for "b") asked).1.vote_granted ≡ true
unfolding run step new_node recover_state replay replay_entries recover_record handle_request_vote
    cast_vote can_vote log_up_to_date step_down write append reset_election_timer
votes_again = refl

named : (asks_for "b").candidate_id ≢ ""
named e = absurd (ground (arith, e, eq_iff "b" ""))

vote_once_example : (asks_for "b").candidate_id ≡ (asks_for "b").candidate_id
vote_once_example =
    vote_once (asks_for "b") (asks_for "b") crash_and_ask started asked started-IsRecoverable
      votes_first asked-reached votes_again refl named

-- "a" stands for election itself, crashes, and asks itself after the restart.
abbrev stood : Node
stood = (start_election (disarm started)).0

abbrev crashed : Node
crashed = or_started (run crash_and_ask stood)

crashed-reached : run crash_and_ask stood ≡ some crashed
unfolding run step
crashed-reached = refl

own_again : (handle_request_vote (asks_for "a") crashed).1.vote_granted ≡ true
unfolding run step new_node recover_state replay replay_entries recover_record start_election
    begin_candidacy handle_request_vote cast_vote can_vote log_up_to_date step_down write append
    reset_election_timer
own_again = refl

named_a : started.id ≢ ""
named_a e = absurd (ground (arith, e, eq_iff "a" ""))

votes_for_itself_example : (asks_for "a").candidate_id ≡ started.id
votes_for_itself_example =
    votes_for_itself (asks_for "a") crash_and_ask started crashed started-IsRecoverable refl
      crashed-reached own_again refl named_a

-- The timer fires, the node crashes, and another asks for its vote.
abbrev stand_and_crash : List Event
stand_and_crash = timer_fired ∷ crash_and_ask

abbrev recovered : Node
recovered = or_started (run stand_and_crash started)

recovered-reached : run stand_and_crash started ≡ some recovered
unfolding run step
recovered-reached = refl

run-later_example : started.current_term ≤ recovered.current_term
run-later_example =
    run-later stand_and_crash started recovered started-IsRecoverable recovered-reached

recovered_follows : is_leader recovered.state ≡ false
unfolding run step new_node recover_state replay replay_entries recover_record start_election
    begin_candidacy handle_request_vote cast_vote can_vote log_up_to_date step_down write append
    reset_election_timer
recovered_follows = refl

run-IsWatching_example : recovered.election_timer ≡ true
run-IsWatching_example =
    run-IsWatching stand_and_crash started recovered (λ _. refl) recovered-reached recovered_follows

-- "b" grants its vote, and "c" does not.
abbrev replies : List RequestVoteResponse
replies = record { term = 1; vote_granted = true } ∷ record { term = 1; vote_granted = false } ∷ []

enough_votes : length started.peers + 1 < 2 * (1 + granted replies)
unfolding granted
enough_votes = omega arith

majority_wins_example :
    is_leader
      (elect (new_election (begin_candidacy started)) replies (begin_candidacy started)).state
    ≡ true
majority_wins_example = majority_wins replies started (omega arith, (omega arith, tt)) enough_votes

wins_with_majority_example : length started.peers + 1 < 2 * (1 + granted replies)
wins_with_majority_example =
    wins_with_majority replies started
      (majority_wins replies started (omega arith, (omega arith, tt)) enough_votes)
