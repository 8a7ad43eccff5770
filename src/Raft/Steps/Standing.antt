-- ===== src/Raft/Steps/Standing.antt =====
-- What becomes of a node that has once led in a term: it never stands for election in that term again, and
-- its log only grows while it leads in it.
use orris.Prelude.{
  ℕ, true, false, ◌≡◌, ◌≤◌, ◌<◌, refl, ◌∙◌, ap, some, List, [], ◌∷◌, ◌++◌, arith, pos, ◌+ℤ◌, inl,
  inr, Bool-cases, ltb, nat_eq, ◌&&◌, at,
}
use orris.Storage.{LogEntry}
use orris.Transport.{AppendEntriesRequest, RequestVoteRequest}
use orris.Raft.State.{NodeState, follower, candidate, leader, Node, Durable, reset_election_timer}
use orris.Raft.Vote.{step_down, cast_vote, can_vote, log_up_to_date}
use orris.Raft.Append.{adopt_leader, push}
use orris.Raft.Commit.{commit_to}
use orris.Raft.Append.Invariant.{Ensures, Ensures-some, Ensures-then}
use orris.Raft.Election.{is_leader, is_candidate, start_election, begin_candidacy, become_leader}
use orris.Raft.Apply.{apply_next}
use orris.Raft.Recovery.{new_node}
use orris.Raft.Recovery.Restores.{IsRecoverable}
use orris.Raft.Steps.{Event, disarm, run}
use orris.Raft.Steps.Keeps.{Keeps}
use orris.Raft.Steps.Keeps.Runs.{run_inv}
use orris.Raft.Steps.Leads.{become_leader_term, new_node_state}
use orris.Raft.Steps.Recoverable.{IsRecoverable-Keeps, become_leader-IsRecoverable, new_node_same}

-- The node is past standing for election in the term, and while it leads in it its log satisfies `Holds`.
pub record Waits (term : ℕ) (Holds : List LogEntry → Type 0) (n : Node) : Type 0 where
  pub reached : term ≤ n.current_term
  pub stands : term ≡ n.current_term → is_candidate n.state ≡ false
  pub there : term ≡ n.current_term → is_leader n.state ≡ true → Holds n.log

module _ (term : ℕ) (Holds : List LogEntry → Type 0)
    (grows : (log : List LogEntry) (e : LogEntry) → Holds log → Holds (log ++ e ∷ [])) where
  abbrev pub Here : Node → Type 0
  Here = Waits term Holds

  Here-newer : (n : Node) → term < n.current_term → Here n
  Here-newer n newer = record {
    reached = omega arith;
    stands = λ same. absurd (omega arith);
    there = λ same. absurd (omega arith);
  }

  -- A follower of no earlier term.
  Here-follows :
      (n : Node)
      → term ≤ n.current_term
      → is_candidate n.state ≡ false
      → is_leader n.state ≡ false
      → Here n
  Here-follows n le other follows = record {
    reached = le;
    stands = λ _. other;
    there = λ _ leads. absurd (cc);
  }

  adopt_leader-Here :
      (req : AppendEntriesRequest) (n : Node)
      → n.current_term ≤ req.term
      → Here n
      → Here (adopt_leader req n)
  unfolding adopt_leader step_down reset_election_timer
  adopt_leader-Here req n le h = elim (Bool-cases (ltb n.current_term req.term)) [
    | inl newer ↦ rw newer (Here-follows _ (omega (arith, h.reached)) refl refl)
    | inr same ↦ rw same (Here-follows _ h.reached refl refl)
  ]

  cast_vote-Here : (req : RequestVoteRequest) (n : Node) → Here n → Here (cast_vote req n).0
  unfolding cast_vote reset_election_timer
  cast_vote-Here req n h = elim (Bool-cases (can_vote n req && log_up_to_date n req)) [
    | inl granted ↦ rw granted (record { reached = h.reached; stands = h.stands; there = h.there })
    | inr refused ↦ rw refused h
  ]

  push-Here : (entry : LogEntry) (n : Node) → Here n → Here (push entry n)
  unfolding push
  push-Here entry n h = record {
    reached = h.reached;
    stands = h.stands;
    there = λ same leads. grows n.log entry (h.there same leads);
  }

  fired-Here : (n : Node) → Here n → Here (start_election (disarm n)).0
  unfolding start_election begin_candidacy reset_election_timer
  fired-Here n h = elim (Bool-cases (is_leader n.state)) [
    | inl leads ↦ rw leads (record { reached = h.reached; stands = h.stands; there = h.there })
    | inr other ↦ rw other (Here-newer _ (omega (arith, h.reached)))
  ]

  -- A candidate is one of a later term.
  pub become_leader-Here :
      (n : Node) → is_candidate n.state ≡ true → Here n → Here (become_leader n)
  become_leader-Here n stands h = elim (Bool-cases (ltb term n.current_term)) [
    | inl newer ↦ Here-newer (become_leader n) (rw become_leader_term (ground (arith, newer)))
    | inr same ↦
        let now : term ≡ n.current_term = ground (arith, same, h.reached) in
        absurd (cc (h.stands now, stands))
  ]

  new_node-Here : (n : Node) → IsRecoverable n → Here n → Here (new_node n.id n.addr n.peers n.wal)
  new_node-Here n back h =
      let (held, _) = new_node_same n.id n.addr n.peers n.wal in
      let state = new_node_state n.id n.addr n.peers n.wal in
      let same = ap (λ (d : Durable). d.current_term) held ∙ back.restores.term in
      Here-follows _ (rw same h.reached) (ap is_candidate state) (ap is_leader state)

  abbrev pub Both : Node → Type 0
  Both n = IsRecoverable n × Here n

  apply_next-Both : (n : Node) → Both n → Ensures Both (apply_next n)
  unfolding apply_next
  apply_next-Both n h =
      Ensures-then Both (at n.log (n.last_applied +ℤ pos 1)) _
        λ entry. (h.0, record { reached = h.1.reached; stands = h.1.stands; there = h.1.there })

  pub Both-Keeps : Keeps Both
  unfolding step_down commit_to reset_election_timer
  Both-Keeps =
      let k = IsRecoverable-Keeps in
      record {
        stepped = λ later n newer h.
            (k.stepped later n newer h.0, Here-newer _ (omega (arith, h.1.reached)));
        adopted = λ req n le h. (k.adopted req n le h.0, adopt_leader-Here req n le h.1);
        voted = λ req n h. (k.voted req n h.0, cast_vote-Here req n h.1);
        pushed = λ entry n h. (k.pushed entry n h.0, push-Here entry n h.1);
        cut = λ i n other h. (
          k.cut i n other h.0,
          record {
            reached = h.1.reached;
            stands = h.1.stands;
            there = λ _ leads. absurd (cc (leads, other));
          },
        );
        committed = λ index n above h. (
          k.committed index n above h.0,
          record { reached = h.1.reached; stands = h.1.stands; there = h.1.there },
        );
        fired = λ n h. (k.fired n h.0, fired-Here n h.1);
        armed = λ n h. (
          k.armed n h.0,
          record { reached = h.1.reached; stands = h.1.stands; there = h.1.there },
        );
        indexed = λ next match n h. (
          k.indexed next match n h.0,
          record { reached = h.1.reached; stands = h.1.stands; there = h.1.there },
        );
        applied = apply_next-Both;
        restarted = λ n h. (k.restarted n h.0, new_node-Here n h.0 h.1);
      }

  pub run-Here : (es : List Event) (n m : Node) → Both n → run es n ≡ some m → Here m
  run-Here es n m h ran =
      (Ensures-some Both (run es n) m ran (
        run_inv Both Both-Keeps
          (λ l stands k. (become_leader-IsRecoverable l k.0, become_leader-Here l stands k.1)) es n
          h)).1

pub leads-IsApart : (s : NodeState) → is_leader s ≡ true → is_candidate s ≡ false
leads-IsApart follower leads = refl
leads-IsApart candidate leads = absurd (cc)
leads-IsApart leader leads = refl
