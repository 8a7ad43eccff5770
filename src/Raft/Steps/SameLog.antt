-- ===== src/Raft/Steps/SameLog.antt =====
-- The events of a node that leave its log as it is.
use orris.Prelude.{
  ◌≡◌, refl, ap, ◌∙◌, some, List, ◌&&◌, at, ◌+ℤ◌, pos, length, Bool-cases, inl, inr,
}
use orris.Storage.{LogEntry}
use orris.Transport.{RequestVoteRequest}
use orris.Raft.State.{Node, Durable, leader, reset_election_timer}
use orris.Raft.Vote.{step_down, cast_vote, can_vote, log_up_to_date}
use orris.Raft.Commit.{commit_to}
use orris.Raft.Append.Invariant.{Ensures, Ensures-some, Ensures-then}
use orris.Raft.Election.{is_leader, start_election, begin_candidacy, become_leader}
use orris.Raft.Apply.{apply_next}
use orris.Raft.Recovery.{new_node}
use orris.Raft.Recovery.Restores.{IsRecoverable}
use orris.Raft.Steps.{Event, disarm, step}
use orris.Raft.Steps.Keeps.{Spares, Keeps-Spares}
use orris.Raft.Steps.Keeps.Runs.{IsSparing, sparing_inv}
use orris.Raft.Steps.Recoverable.{IsRecoverable-Keeps, new_node_same, start_peers_same}

module _ (log : List LogEntry) where
  abbrev Same : Node → Type 0
  Same n = IsRecoverable n × (n.log ≡ log)

  cast_vote-log :
      (req : RequestVoteRequest) (n : Node) → n.log ≡ log → (cast_vote req n).0.log ≡ log
  unfolding cast_vote reset_election_timer
  cast_vote-log req n h = elim (Bool-cases (can_vote n req && log_up_to_date n req)) [
    | inl granted ↦ rw granted h
    | inr refused ↦ rw refused h
  ]

  fired-log : (n : Node) → n.log ≡ log → (start_election (disarm n)).0.log ≡ log
  unfolding start_election begin_candidacy reset_election_timer
  fired-log n h = elim (Bool-cases (is_leader n.state)) [
    | inl leads ↦ rw leads h
    | inr other ↦ rw other h
  ]

  new_node-log :
      (n : Node) → IsRecoverable n → n.log ≡ log → (new_node n.id n.addr n.peers n.wal).log ≡ log
  new_node-log n back h =
      let (held, _) = new_node_same n.id n.addr n.peers n.wal in
      ap (λ (d : Durable). d.log) held ∙ back.restores.log ∙ h

  apply_next-Same : (n : Node) → Same n → Ensures Same (apply_next n)
  unfolding apply_next
  apply_next-Same n h = Ensures-then Same (at n.log (n.last_applied +ℤ pos 1)) _ λ e. h

  Same-Spares : Spares Same (Unit {0})
  unfolding step_down commit_to reset_election_timer
  Same-Spares =
      let k = Keeps-Spares IsRecoverable IsRecoverable-Keeps in
      record {
        stepped = λ term n newer h. (k.stepped term n newer h.0, h.1);
        voted = λ req n h. (k.voted req n h.0, cast_vote-log req n h.1);
        committed = λ index n above h. (k.committed index n above h.0, h.1);
        fired = λ n h. (k.fired n h.0, fired-log n h.1);
        armed = λ n h. (k.armed n h.0, h.1);
        indexed = λ ix next match n h. (k.indexed ix next match n h.0, h.1);
        applied = apply_next-Same;
        restarted = λ n h. (k.restarted n h.0, new_node-log n h.0 h.1);
      }

pub step-log :
    (e : Event) (n m : Node) → IsSparing e → IsRecoverable n → step e n ≡ some m → m.log ≡ n.log
step-log e n m sparing back ran =
    (Ensures-some (Same n.log) (step e n) m ran (
      sparing_inv (Same n.log) (Unit {0}) (Same-Spares n.log) e n sparing (λ _. tt) (back, refl))).1

pub become_leader-log : (n : Node) → (become_leader n).log ≡ n.log
unfolding become_leader reset_election_timer
become_leader-log n = elim (Bool-cases (is_leader n.state)) [
  | inl leads ↦ rw leads refl
  | inr other ↦
      let (held, _, _) =
        start_peers_same n.peers (pos (length n.log)) (record n { state = leader }) in
      rw (other, held) refl
]
