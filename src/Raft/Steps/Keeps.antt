-- ===== src/Raft/Steps/Keeps.antt =====
pub mod Regions
pub mod Runs
-- The rule for invariants of a node: what each write of the package keeps, every step keeps.
use orris.Prelude.{
  ◌+◌, ◌&&◌, ◌≡◌, true, false, ◌≤ℤ◌, minus_one, ℕ, ◌≤◌, ◌<◌, arith, ℤ, inl, inr, Bool-cases, ◌==◌,
  nat_eq, Map, not, ◌||◌,
}
use orris.Storage.{LogEntry}
use orris.Transport.{RequestVoteRequest, RequestVoteResponse, AppendEntriesRequest}
use orris.Raft.State.{Node, reset_election_timer}
use orris.Raft.Vote.{step_down, cast_vote}
use orris.Raft.Append.{push, adopt_leader}
use orris.Raft.Append.Merge.{cut_to}
use orris.Raft.Append.Invariant.{Ensures}
use orris.Raft.Election.{
  Election, is_leader, is_candidate, start_election, become_leader, has_majority, count_vote,
  finish_election,
}
use orris.Raft.Commit.{commit_to}
use orris.Raft.Apply.{apply_next}
use orris.Raft.Recovery.{new_node}
use orris.Raft.Steps.{disarm}

-- `P` survives each write that leaves the log alone, but for the start of a leadership; the writes of the
-- peers' indices only under `Indexes`.
pub record Spares (P : Node → Type 0) (Indexes : Type 0) : Type 0 where
  pub stepped : (term : ℕ) (n : Node) → n.current_term < term → P n → P (step_down term n)
  pub voted : (req : RequestVoteRequest) (n : Node) → P n → P (cast_vote req n).0
  pub committed :
      (index : ℤ) (n : Node)
      → (minus_one ≤ℤ n.commit_index → minus_one ≤ℤ index)
      → P n
      → P (commit_to index n)
  pub fired : (n : Node) → P n → P (start_election (disarm n)).0
  pub armed : (n : Node) → P n → P (reset_election_timer n)
  pub indexed :
      Indexes
      → (next match : Map ℤ) (n : Node) → P n
      → P (record n { next_index = next; match_index = match })
  pub applied : (n : Node) → P n → Ensures P (apply_next n)
  pub restarted : (n : Node) → P n → P (new_node n.id n.addr n.peers n.wal)

-- `P` survives each write, but for the start of a leadership.
pub record Keeps (P : Node → Type 0) : Type 0 where
  pub stepped : (term : ℕ) (n : Node) → n.current_term < term → P n → P (step_down term n)
  pub adopted :
      (req : AppendEntriesRequest) (n : Node)
      → n.current_term ≤ req.term
      → P n
      → P (adopt_leader req n)
  pub voted : (req : RequestVoteRequest) (n : Node) → P n → P (cast_vote req n).0
  pub pushed : (e : LogEntry) (n : Node) → P n → P (push e n)
  -- The log is only cut on a request of a leader, which the node follows then.
  pub cut : (k : ℕ) (n : Node) → is_leader n.state ≡ false → P n → P (cut_to k n)
  pub committed :
      (index : ℤ) (n : Node)
      → (minus_one ≤ℤ n.commit_index → minus_one ≤ℤ index)
      → P n
      → P (commit_to index n)
  pub fired : (n : Node) → P n → P (start_election (disarm n)).0
  pub armed : (n : Node) → P n → P (reset_election_timer n)
  pub indexed :
      (next match : Map ℤ) (n : Node)
      → P n
      → P (record n { next_index = next; match_index = match })
  pub applied : (n : Node) → P n → Ensures P (apply_next n)
  pub restarted : (n : Node) → P n → P (new_node n.id n.addr n.peers n.wal)

pub Keeps-Spares : (P : Node → Type 0) → Keeps P → Spares P (Unit {0})
Keeps-Spares P k = record {
  stepped = k.stepped;
  voted = k.voted;
  committed = k.committed;
  fired = k.fired;
  armed = k.armed;
  indexed = λ _. k.indexed;
  applied = k.applied;
  restarted = k.restarted;
}

-- A count of votes, and the end of an election, leave the node as it is or make it the leader.
module _ (P : Node → Type 0) (e : Election) (n : Node) (h : P n) where
  pub count_vote_inv :
      (resp : RequestVoteResponse)
      → (resp.vote_granted ≡ true
          → is_candidate n.state ≡ true
          → has_majority (record e { votes = e.votes + 1 }) ≡ true
          → n.current_term ≡ e.term
          → P (become_leader n))
      → P (count_vote resp e n).1
  unfolding count_vote
  count_vote_inv resp led = elim (Bool-cases resp.vote_granted) [
    | inr refused ↦ rw refused h
    | inl granted ↦
        let counted : Election = record e { votes = e.votes + 1 } in
        elim (Bool-cases
          (has_majority counted && is_candidate n.state && n.current_term == e.term)) [
            | inr stays ↦ rw (granted, stays) h
            | inl wins ↦
                let stands : is_candidate n.state ≡ true = ground (arith, wins) in
                let enough : has_majority counted ≡ true = ground (arith, wins) in
                let same : n.current_term ≡ e.term = ground (arith, wins) in
                rw (granted, wins) (led granted stands enough same)
          ]
  ]

  pub finish_election_inv :
      (is_candidate n.state ≡ true
        → has_majority e ≡ true
        → n.current_term ≡ e.term
        → P (become_leader n))
      → P (reset_election_timer n)
      → P (finish_election e n)
  unfolding finish_election
  finish_election_inv led armed =
      elim (Bool-cases (not (is_candidate n.state) || not (n.current_term == e.term))) [
        | inl over ↦ rw over h
        | inr stands ↦ elim (Bool-cases (has_majority e)) [
          | inl enough ↦
              let candidate : is_candidate n.state ≡ true = ground (arith, stands) in
              let same : n.current_term ≡ e.term = ground (arith, stands) in
              rw (stands, enough) (led candidate enough same)
          | inr few ↦ rw (stands, few) armed
        ]
      ]
