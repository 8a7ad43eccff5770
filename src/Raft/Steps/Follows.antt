-- ===== src/Raft/Steps/Follows.antt =====
-- What later steps leave of a node's term and vote.
use text.Mathlib.TextEquality.{eq_iff}
use orris.Prelude.{
  String, ℕ, ◌≡◌, ◌≢◌, ◌≤◌, ◌<◌, refl, ◌∙◌, some, List, arith, inl, inr, Bool-cases, ltb, ◌&&◌, at,
  ◌+ℤ◌, pos, length, string_eq,
}
use orris.Transport.{AppendEntriesRequest, RequestVoteRequest}
use orris.Raft.State.{Node, Durable, leader, reset_election_timer}
use orris.Raft.Vote.{step_down, cast_vote, can_vote, log_up_to_date}
use orris.Raft.Append.{adopt_leader, push}
use orris.Raft.Commit.{commit_to}
use orris.Raft.Append.Invariant.{Ensures, Ensures-some, Ensures-then}
use orris.Raft.Election.{is_leader, start_election, begin_candidacy, become_leader}
use orris.Raft.Apply.{apply_next}
use orris.Raft.Recovery.{new_node}
use orris.Raft.Recovery.Restores.{IsRecoverable}
use orris.Raft.Steps.{Event, disarm, run}
use orris.Raft.Steps.Keeps.{Keeps}
use orris.Raft.Steps.Keeps.Runs.{run_inv}
use orris.Raft.Steps.Recoverable.{
  IsRecoverable-Keeps, become_leader-IsRecoverable, new_node_same, start_peers_same,
}

-- What a node with this term and vote may become: its term is no lower, and within the same term a vote
-- that was cast stays.
pub record Follows (term : ℕ) (vote : String) (d : Durable) : Type 0 where
  pub later : term ≤ d.current_term
  pub kept : term ≡ d.current_term → vote ≢ "" → d.voted_for ≡ vote

module _ (term : ℕ) (vote : String) where
  Follows-newer : (d : Durable) → term < d.current_term → Follows term vote d
  Follows-newer d newer = record { later = omega arith; kept = λ same. absurd (omega arith) }

  Follows-same :
      (d d' : Durable)
      → d'.current_term ≡ d.current_term
      → d'.voted_for ≡ d.voted_for
      → Follows term vote d
      → Follows term vote d'
  Follows-same d d' same_term same_vote h = record {
    later = rw same_term h.later;
    kept = λ same cast. same_vote ∙ h.kept (same ∙ same_term) cast;
  }

  cast_vote-Follows :
      (req : RequestVoteRequest) (n : Node)
      → Follows term vote n.durable
      → Follows term vote (cast_vote req n).0.durable
  unfolding cast_vote can_vote
  cast_vote-Follows req n h = elim (Bool-cases (can_vote n req && log_up_to_date n req)) [
    | inl e ↦ rw e (record {
      later = h.later;
      kept = λ same cast.
          let held = h.kept same cast in
          ground (arith, held, eq_iff n.voted_for "", eq_iff n.voted_for req.candidate_id);
    })
    | inr e ↦ rw e h
  ]

  adopt_leader-Follows :
      (req : AppendEntriesRequest) (n : Node)
      → Follows term vote n.durable
      → Follows term vote (adopt_leader req n).durable
  unfolding adopt_leader step_down
  adopt_leader-Follows req n h = elim (Bool-cases (ltb n.current_term req.term)) [
    | inl newer ↦ rw newer (Follows-newer _ (ground (arith, h.later)))
    | inr same ↦ rw same h
  ]

  fired-Follows :
      (n : Node)
      → Follows term vote n.durable
      → Follows term vote (start_election (disarm n)).0.durable
  unfolding start_election begin_candidacy
  fired-Follows n h = elim (Bool-cases (is_leader n.state)) [
    | inl leads ↦ rw leads h
    | inr other ↦ rw other (Follows-newer _ (omega (arith, h.later)))
  ]

  become_leader-Follows :
      (n : Node) → Follows term vote n.durable → Follows term vote (become_leader n).durable
  unfolding become_leader
  become_leader-Follows n h = elim (Bool-cases (is_leader n.state)) [
    | inl leads ↦ rw leads h
    | inr other ↦
        let (held, _, _) =
          start_peers_same n.peers (pos (length n.log)) (record n { state = leader }) in
        rw (other, held) h
  ]

  new_node-Follows :
      (n : Node)
      → IsRecoverable n
      → Follows term vote n.durable
      → Follows term vote (new_node n.id n.addr n.peers n.wal).durable
  new_node-Follows n back h =
      let (held, _) = new_node_same n.id n.addr n.peers n.wal in
      rw held (Follows-same n.durable _ back.restores.term back.restores.vote h)

  abbrev pub Held : Node → Type 0
  Held n = IsRecoverable n × Follows term vote n.durable

  apply_next-Held : (n : Node) → Held n → Ensures Held (apply_next n)
  unfolding apply_next
  apply_next-Held n h = Ensures-then Held (at n.log (n.last_applied +ℤ pos 1)) _ λ e. h

  pub become_leader-Held : (n : Node) → Held n → Held (become_leader n)
  become_leader-Held n h = (become_leader-IsRecoverable n h.0, become_leader-Follows n h.1)

  pub Held-Keeps : Keeps Held
  unfolding step_down push commit_to reset_election_timer
  Held-Keeps =
      let k = IsRecoverable-Keeps in
      record {
        stepped = λ later n newer h.
            (k.stepped later n newer h.0, Follows-newer _ (omega (arith, h.1.later)));
        adopted = λ req n le h. (k.adopted req n le h.0, adopt_leader-Follows req n h.1);
        voted = λ req n h. (k.voted req n h.0, cast_vote-Follows req n h.1);
        pushed = λ e n h. (k.pushed e n h.0, Follows-same n.durable _ refl refl h.1);
        cut = λ i n other h. (k.cut i n other h.0, Follows-same n.durable _ refl refl h.1);
        committed = λ index n above h.
            (k.committed index n above h.0, Follows-same n.durable _ refl refl h.1);
        fired = λ n h. (k.fired n h.0, fired-Follows n h.1);
        armed = λ n h. (k.armed n h.0, h.1);
        indexed = λ next match n h. h;
        applied = apply_next-Held;
        restarted = λ n h. (k.restarted n h.0, new_node-Follows n h.0 h.1);
      }

  pub run-Held : (es : List Event) (n m : Node) → Held n → run es n ≡ some m → Held m
  run-Held es n m h e =
      Ensures-some Held (run es n) m e
        (run_inv Held Held-Keeps (λ n _. become_leader-Held n) es n h)
