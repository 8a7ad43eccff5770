-- ===== src/Raft/Steps/Leads.antt =====
-- What a node knows as the leader of its term, and that it does not lead when it starts.
use orris.Prelude.{
  false, ap, String, ℕ, suc, ◌≡◌, refl, true, List, [], ◌∷◌, arith, pos, inl, inr, Bool-cases, ltb,
  ◌&&◌, Map, at, ◌+ℤ◌, length,
}
use orris.Storage.{LogEntry}
use orris.Storage.Journal.{Journal}
use orris.Transport.{AppendEntriesRequest, RequestVoteRequest}
use orris.Raft.State.{Node, leader, follower, reset_election_timer}
use orris.Raft.Vote.{step_down, cast_vote, can_vote, log_up_to_date}
use orris.Raft.Append.{adopt_leader, push}
use orris.Raft.Append.Invariant.{Ensures, Ensures-then}
use orris.Raft.Commit.{commit_to}
use orris.Raft.Election.{is_leader, start_election, begin_candidacy, become_leader}
use orris.Raft.Apply.{apply_next, apply_entry}
use orris.Raft.Recovery.{new_node, fresh_node, recover_state, replay, replay_entries}
use orris.Raft.Steps.{disarm}
use orris.Raft.Steps.Recoverable.{start_peers_same}
use orris.Raft.Steps.Keeps.{Keeps}

-- What a leader knows of its term: it lasts while the node leads in this term.
module _ (Won : ℕ → Type 0) where
  abbrev pub Leads : Node → Type 0
  Leads n = is_leader n.state ≡ true → Won n.current_term

  replay_entries-state :
      (rest : List LogEntry) (i : ℕ) (n : Node) → (replay_entries i rest n).state ≡ n.state
  unfolding replay_entries
  replay_entries-state [] i n = refl
  replay_entries-state (e ∷ rest) i n =
      let next =
        replay_entries-state rest (suc i)
          (record n { kv_store = apply_entry e n.kv_store; last_applied = pos i }) in
      ground (arith, next)

  new_node-Leads : (n : Node) → Leads (new_node n.id n.addr n.peers n.wal)
  unfolding new_node recover_state reset_election_timer
  new_node-Leads n =
      let fresh = fresh_node n.id n.addr n.peers n.wal in
      let m : Node = record fresh { durable = replay n.wal.records } in
      λ leads. absurd (cc (replay_entries-state m.log 0 m))

  adopt_leader-Leads : (req : AppendEntriesRequest) (n : Node) → Leads (adopt_leader req n)
  unfolding adopt_leader step_down reset_election_timer
  adopt_leader-Leads req n = elim (Bool-cases (ltb n.current_term req.term)) [
    | inl newer ↦ rw newer (λ leads. absurd (cc))
    | inr same ↦ rw same (λ leads. absurd (cc))
  ]

  cast_vote-Leads : (req : RequestVoteRequest) (n : Node) → Leads n → Leads (cast_vote req n).0
  unfolding cast_vote reset_election_timer
  cast_vote-Leads req n h = elim (Bool-cases (can_vote n req && log_up_to_date n req)) [
    | inl e ↦ rw e h
    | inr e ↦ rw e h
  ]

  fired-Leads : (n : Node) → Leads n → Leads (start_election (disarm n)).0
  unfolding start_election begin_candidacy reset_election_timer
  fired-Leads n h = elim (Bool-cases (is_leader n.state)) [
    | inl leads ↦ rw leads h
    | inr other ↦ rw other (λ leads. absurd (cc))
  ]

  apply_next-Leads : (n : Node) → Leads n → Ensures Leads (apply_next n)
  unfolding apply_next
  apply_next-Leads n h = Ensures-then Leads (at n.log (n.last_applied +ℤ pos 1)) _ λ e. h

  pub Leads-Keeps : Keeps Leads
  unfolding step_down push commit_to reset_election_timer
  Leads-Keeps = record {
    stepped = λ term n _ h leads. absurd (cc);
    adopted = λ req n _ h. adopt_leader-Leads req n;
    voted = cast_vote-Leads;
    pushed = λ e n h. h;
    cut = λ k n _ h. h;
    committed = λ index n _ h. h;
    fired = fired-Leads;
    armed = λ n h. h;
    indexed = λ next match n h. h;
    applied = apply_next-Leads;
    restarted = λ n h. new_node-Leads n;
  }

pub become_leader_term : (n : Node) → (become_leader n).current_term ≡ n.current_term
unfolding become_leader reset_election_timer
become_leader_term n = elim (Bool-cases (is_leader n.state)) [
  | inl leads ↦ rw leads refl
  | inr other ↦
      let (held, _, _) =
        start_peers_same n.peers (pos (length n.log)) (record n { state = leader }) in
      rw (other, held) refl
]

-- A node that starts does not lead.
module _ (id addr : String) (peers : Map String) (wal : Journal) where
  pub new_node_state : (new_node id addr peers wal).state ≡ follower
  unfolding new_node recover_state reset_election_timer
  new_node_state =
      let m : Node = record (fresh_node id addr peers wal) { durable = replay wal.records } in
      replay_entries-state (λ _. Unit) m.log 0 m

  pub new_node-follows : is_leader (new_node id addr peers wal).state ≡ false
  new_node-follows = ap is_leader new_node_state
