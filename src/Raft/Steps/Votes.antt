-- ===== src/Raft/Steps/Votes.antt =====
-- Votes and terms over whatever happens to a node.
use orris.Prelude.{
  String, ℕ, ◌+◌, ◌≡◌, ◌≢◌, ◌≤◌, refl, sym, ◌∙◌, true, false, some, List, arith, inl, inr,
  Bool-cases, ◌&&◌,
}
use orris.Transport.{RequestVoteRequest}
use orris.Raft.State.{Node}
use orris.Raft.Vote.{step_down, cast_vote, can_vote, log_up_to_date, handle_request_vote}
use orris.Raft.Vote.Grant.{grants_iff, request_vote_cases}
use orris.Raft.Election.{is_leader, start_election, begin_candidacy}
use orris.Raft.Recovery.Restores.{IsRecoverable}
use orris.Raft.Recovery.Preserved.{handle_request_vote-IsRecoverable}
use orris.Raft.Steps.{Event, disarm, run}
use orris.Raft.Steps.Recoverable.{IsRecoverable-Keeps}
use orris.Raft.Steps.Follows.{Follows, Held, run-Held}

module _ (term : ℕ) (vote : String) where
  -- A vote that is granted in the held term goes to the same candidate.
  pub granted-Held :
      (req : RequestVoteRequest) (m : Node)
      → Held term vote m
      → vote ≢ ""
      → req.term ≡ term
      → (handle_request_vote req m).1.vote_granted ≡ true
      → req.candidate_id ≡ vote
  granted-Held req m h cast same granted = elim ((grants_iff req m).0 granted).0 [
    | inl newer ↦ absurd (omega (arith, h.1.later))
    | inr (here, free) ↦
        let held = h.1.kept (sym same ∙ sym here) cast in
        elim free [ inl none_yet ↦ absurd (cast (cc)) | inr mine ↦ cc ]
  ]

-- The term of a node never falls, whatever happens, crashes included, if at first its log is open and a
-- restart from it would restore the node.
pub run-later :
    (es : List Event) (n m : Node)
    → IsRecoverable n
    → run es n ≡ some m
    → n.current_term ≤ m.current_term
run-later es n m h e =
    (run-Held n.current_term n.voted_for es n m
      (h, record { later = omega arith; kept = λ same cast. refl }) e).1.later

cast_vote-casts :
    (req : RequestVoteRequest) (n : Node)
    → (cast_vote req n).1.vote_granted ≡ true
    → ((cast_vote req n).0.voted_for ≡ req.candidate_id)
      × ((cast_vote req n).0.current_term ≡ n.current_term)
unfolding cast_vote
cast_vote-casts req n = elim (Bool-cases (can_vote n req && log_up_to_date n req)) [
  | inl e ↦ rw e (λ _. (refl, refl))
  | inr e ↦ rw e (λ refused. absurd (cc))
]

-- A candidate that gets a vote of its term is the one that the node then holds its vote for.
granted-Follows :
    (req : RequestVoteRequest) (n : Node)
    → n.current_term ≡ req.term
    → (cast_vote req n).1.vote_granted ≡ true
    → Follows req.term req.candidate_id (cast_vote req n).0.durable
granted-Follows req n same granted =
    let (vote, term) = cast_vote-casts req n granted in
    record { later = omega arith; kept = λ _ _. vote }

pub handled-Follows :
    (req : RequestVoteRequest) (n : Node)
    → (handle_request_vote req n).1.vote_granted ≡ true
    → Follows req.term req.candidate_id (handle_request_vote req n).0.durable
unfolding step_down
handled-Follows req n =
    request_vote_cases req n
      (λ r. r.1.vote_granted ≡ true → Follows req.term req.candidate_id r.0.durable)
      (λ _ refused. absurd (cc)) (λ _. granted-Follows req (step_down req.term n) refl)
      (granted-Follows req n)

-- A node grants its vote to one candidate in a term: after it granted a request, whatever happens next,
-- crashes and restarts included, every request of the same term that it grants names the same candidate.
-- At first the node's log is open, and a restart from it would restore the node. The first candidate's
-- name is not empty, since the empty name stands for no vote.
pub vote_once :
    (req req' : RequestVoteRequest) (es : List Event) (n m : Node)
    → IsRecoverable n
    → (handle_request_vote req n).1.vote_granted ≡ true
    → run es (handle_request_vote req n).0 ≡ some m
    → (handle_request_vote req' m).1.vote_granted ≡ true
    → req'.term ≡ req.term
    → req.candidate_id ≢ ""
    → req'.candidate_id ≡ req.candidate_id
vote_once req req' es n m h first e second same cast =
    let held =
      run-Held req.term req.candidate_id es (handle_request_vote req n).0 m
        (handle_request_vote-IsRecoverable req n h, handled-Follows req n first) e in
    granted-Held req.term req.candidate_id req' m held cast same second

pub stands-Follows :
    (n : Node)
    → is_leader n.state ≡ false
    → Follows (n.current_term + 1) n.id (start_election (disarm n)).0.durable
unfolding start_election begin_candidacy
stands-Follows n other = rw other (record { later = omega arith; kept = λ _ _. refl })

-- A node that starts an election votes for itself in it: whatever happens next, crashes and restarts
-- included, it grants no request of that term but one of its own name. Its name is not empty, it does not
-- lead, and at first its log is open and a restart from it would restore the node.
pub votes_for_itself :
    (req : RequestVoteRequest) (es : List Event) (n m : Node)
    → IsRecoverable n
    → is_leader n.state ≡ false
    → run es (start_election (disarm n)).0 ≡ some m
    → (handle_request_vote req m).1.vote_granted ≡ true
    → req.term ≡ n.current_term + 1
    → n.id ≢ ""
    → req.candidate_id ≡ n.id
votes_for_itself req es n m h other e granted same cast =
    let term = n.current_term + 1 in
    let held =
      run-Held term n.id es (start_election (disarm n)).0 m
        (IsRecoverable-Keeps.fired n h, stands-Follows n other) e in
    granted-Held term n.id req m held cast same granted
