-- ===== src/Raft/Steps/Contending.antt =====
-- A node that stands for election or leads has done so since the term began: the events that leave its log
-- alone start neither in a term that goes on, and leave a leader's next indices alone too.
use orris.Prelude.{
  ℕ, ◌≡◌, ◌≤◌, refl, ◌∙◌, ap, subst, true, some, arith, ◌&&◌, at, ◌+ℤ◌, pos, ℤ, Bool-cases, inl,
  inr, String, Map, nat_eq,
}
use orris.Transport.{RequestVoteRequest}
use orris.Raft.State.{NodeState, follower, candidate, leader, Node, Durable, reset_election_timer}
use orris.Raft.Vote.{step_down, cast_vote, can_vote, log_up_to_date}
use orris.Raft.Commit.{commit_to}
use orris.Raft.Append.Invariant.{Ensures, Ensures-some, Ensures-then}
use orris.Raft.Election.{is_leader, is_candidate, start_election, begin_candidacy}
use orris.Raft.Apply.{apply_next}
use orris.Raft.Recovery.{new_node}
use orris.Raft.Recovery.Restores.{IsRecoverable}
use orris.Raft.Steps.{Event, disarm, step}
use orris.Raft.Steps.Keeps.{Spares, Keeps-Spares}
use orris.Raft.Steps.Keeps.Runs.{IsSparing, IsIndexing, sparing_inv}
use orris.Raft.Steps.Leads.{new_node_state, new_node-follows}
use orris.Raft.Steps.Recoverable.{IsRecoverable-Keeps, new_node_same}

-- It is a candidate or the leader.
abbrev pub Contends : NodeState → Type 0
Contends follower = ⊥
Contends candidate = Unit
Contends leader = Unit

pub candidate-Contends : (s : NodeState) → is_candidate s ≡ true → Contends s
candidate-Contends follower h = absurd (cc)
candidate-Contends candidate h = tt
candidate-Contends leader h = tt

pub leader-Contends : (s : NodeState) → is_leader s ≡ true → Contends s
leader-Contends follower h = absurd (cc)
leader-Contends candidate h = tt
leader-Contends leader h = tt

module _ (term : ℕ) (Reason : Type 0) where
  -- The node is not before the term, and contends in it only for the reason.
  abbrev Runs : Node → Type 0
  Runs n = (term ≤ n.current_term) × (Contends n.state → n.current_term ≡ term → Reason)

  abbrev Both : Node → Type 0
  Both n = IsRecoverable n × Runs n

  cast_vote-Runs : (req : RequestVoteRequest) (n : Node) → Runs n → Runs (cast_vote req n).0
  unfolding cast_vote reset_election_timer
  cast_vote-Runs req n h = elim (Bool-cases (can_vote n req && log_up_to_date n req)) [
    | inl granted ↦ rw granted h
    | inr refused ↦ rw refused h
  ]

  fired-Runs : (n : Node) → Runs n → Runs (start_election (disarm n)).0
  unfolding start_election begin_candidacy reset_election_timer
  fired-Runs n h = elim (Bool-cases (is_leader n.state)) [
    | inl leads ↦ rw leads h
    | inr other ↦ rw other (omega (arith, h.0), λ _ same. absurd (omega (arith, h.0, same)))
  ]

  new_node-Runs : (n : Node) → IsRecoverable n → Runs n → Runs (new_node n.id n.addr n.peers n.wal)
  new_node-Runs n back h =
      let (held, _) = new_node_same n.id n.addr n.peers n.wal in
      let state = new_node_state n.id n.addr n.peers n.wal in
      let same = ap (λ (d : Durable). d.current_term) held ∙ back.restores.term in
      (rw same h.0, λ contends. absurd (subst Contends state contends))

  apply_next-Both : (n : Node) → Both n → Ensures Both (apply_next n)
  unfolding apply_next
  apply_next-Both n h = Ensures-then Both (at n.log (n.last_applied +ℤ pos 1)) _ λ e. h

  Both-Spares : Spares Both (Unit {0})
  unfolding step_down commit_to reset_election_timer
  Both-Spares =
      let k = Keeps-Spares IsRecoverable IsRecoverable-Keeps in
      record {
        stepped = λ later n newer h.
            (k.stepped later n newer h.0, (omega (arith, h.1.0), λ contends. absurd contends));
        voted = λ req n h. (k.voted req n h.0, cast_vote-Runs req n h.1);
        committed = λ index n above h. (k.committed index n above h.0, h.1);
        fired = λ n h. (k.fired n h.0, fired-Runs n h.1);
        armed = λ n h. (k.armed n h.0, h.1);
        indexed = λ ix next match n h. (k.indexed ix next match n h.0, h.1);
        applied = apply_next-Both;
        restarted = λ n h. (k.restarted n h.0, new_node-Runs n h.0 h.1);
      }

-- The term does not fall, and who contends in a term that goes on did before.
pub step-Contends :
    (e : Event) (n m : Node)
    → IsSparing e
    → IsRecoverable n
    → step e n ≡ some m
    → (n.current_term ≤ m.current_term)
      × (Contends m.state → m.current_term ≡ n.current_term → Contends n.state)
step-Contends e n m sparing back ran =
    let Kept = Both n.current_term (Contends n.state) in
    (Ensures-some Kept (step e n) m ran (
      sparing_inv Kept (Unit {0}) (Both-Spares n.current_term (Contends n.state)) e n sparing
        (λ _. tt) (back, (omega arith, λ contends _. contends)))).1

module _ (next : Map ℤ) (peers : Map String) where
  abbrev pub Points : Node → Type 0
  Points n = is_leader n.state ≡ true → (n.next_index ≡ next) × (n.peers ≡ peers)

  cast_vote-Points : (req : RequestVoteRequest) (n : Node) → Points n → Points (cast_vote req n).0
  unfolding cast_vote reset_election_timer
  cast_vote-Points req n h = elim (Bool-cases (can_vote n req && log_up_to_date n req)) [
    | inl granted ↦ rw granted h
    | inr refused ↦ rw refused h
  ]

  fired-Points : (n : Node) → Points n → Points (start_election (disarm n)).0
  unfolding start_election begin_candidacy reset_election_timer
  fired-Points n h = elim (Bool-cases (is_leader n.state)) [
    | inl leads ↦ rw leads h
    | inr other ↦ rw other (λ leads. absurd (cc))
  ]

  apply_next-Points : (n : Node) → Points n → Ensures Points (apply_next n)
  unfolding apply_next
  apply_next-Points n h = Ensures-then Points (at n.log (n.last_applied +ℤ pos 1)) _ λ e. h

  pub Points-Spares : Spares Points ⊥
  unfolding step_down commit_to reset_election_timer
  Points-Spares = record {
    stepped = λ later n newer h leads. absurd (cc);
    voted = cast_vote-Points;
    committed = λ index n above h. h;
    fired = fired-Points;
    armed = λ n h. h;
    indexed = λ never next match n h. absurd never;
    applied = apply_next-Points;
    restarted = λ n h leads. absurd (cc (leads, new_node-follows n.id n.addr n.peers n.wal));
  }

-- Whoever leads after such an event, but for the answer of a peer, has the next indices of before.
pub step-next_index :
    (e : Event) (n m : Node)
    → IsSparing e
    → ¬ IsIndexing e
    → step e n ≡ some m
    → is_leader m.state ≡ true
    → (m.next_index ≡ n.next_index) × (m.peers ≡ n.peers)
step-next_index e n m sparing other ran =
    let Kept = Points n.next_index n.peers in
    Ensures-some Kept (step e n) m ran (
      sparing_inv Kept ⊥ (Points-Spares n.next_index n.peers) e n sparing other (λ _. (refl, refl)))
