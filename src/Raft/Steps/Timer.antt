-- ===== src/Raft/Steps/Timer.antt =====
-- The election timer over the steps of a node.
use orris.Prelude.{◌≡◌, refl, true, false, some, List, inl, inr, Bool-cases, ◌&&◌, at, ◌+ℤ◌, pos}
use orris.Transport.{RequestVoteRequest}
use orris.Raft.State.{Node, reset_election_timer}
use orris.Raft.Vote.{step_down, cast_vote, can_vote, log_up_to_date}
use orris.Raft.Append.{adopt_leader, push}
use orris.Raft.Append.Invariant.{Ensures, Ensures-some, Ensures-then}
use orris.Raft.Commit.{commit_to}
use orris.Raft.Election.{is_leader, start_election, begin_candidacy, become_leader}
use orris.Raft.Apply.{apply_next}
use orris.Raft.Recovery.{new_node}
use orris.Raft.Steps.{Event, disarm, run}
use orris.Raft.Steps.Keeps.{Keeps}
use orris.Raft.Steps.Keeps.Runs.{run_inv}

-- A node that does not lead has its election timer armed.
abbrev pub IsWatching : Node → Type 0
IsWatching n = is_leader n.state ≡ false → n.election_timer ≡ true

module _ (n : Node) (h : IsWatching n) where
  cast_vote-IsWatching : (req : RequestVoteRequest) → IsWatching (cast_vote req n).0
  unfolding cast_vote
  cast_vote-IsWatching req = elim (Bool-cases (can_vote n req && log_up_to_date n req)) [
    | inl e ↦ rw e (λ _. refl)
    | inr e ↦ rw e h
  ]

  become_leader-IsWatching : IsWatching (become_leader n)
  unfolding become_leader
  become_leader-IsWatching = elim (Bool-cases (is_leader n.state)) [
    | inl leads ↦ rw leads h
    | inr other ↦ rw other (λ _. refl)
  ]

  fired-IsWatching : IsWatching (start_election (disarm n)).0
  unfolding start_election begin_candidacy
  fired-IsWatching = elim (Bool-cases (is_leader n.state)) [
    | inl leads ↦ rw leads (λ other. absurd (cc))
    | inr other ↦ rw other (λ _. refl)
  ]

  apply_next-IsWatching : Ensures IsWatching (apply_next n)
  unfolding apply_next
  apply_next-IsWatching = Ensures-then IsWatching (at n.log (n.last_applied +ℤ pos 1)) _ λ e. h

IsWatching-Keeps : Keeps IsWatching
unfolding step_down adopt_leader push commit_to reset_election_timer new_node
IsWatching-Keeps = record {
  stepped = λ term n _ h _. refl;
  adopted = λ req n _ h _. refl;
  voted = λ req n h. cast_vote-IsWatching n h req;
  pushed = λ e n h. h;
  cut = λ k n _ h. h;
  committed = λ index n _ h. h;
  fired = fired-IsWatching;
  armed = λ n h _. refl;
  indexed = λ next match n h. h;
  applied = apply_next-IsWatching;
  restarted = λ n h _. refl;
}

-- From a node that does not lead only with its election timer armed, no sequence of events, the firing of
-- that timer and crashes included, leads to one that does neither: a node that is not leader always has
-- its timer armed.
pub run-IsWatching :
    (es : List Event) (n m : Node)
    → (is_leader n.state ≡ false → n.election_timer ≡ true)
    → run es n ≡ some m
    → is_leader m.state ≡ false
    → m.election_timer ≡ true
run-IsWatching es n m h e =
    Ensures-some IsWatching (run es n) m e
      (run_inv IsWatching IsWatching-Keeps (λ n _. become_leader-IsWatching n) es n h)
