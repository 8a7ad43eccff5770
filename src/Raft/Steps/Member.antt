-- ===== src/Raft/Steps/Member.antt =====
-- A node keeps its name and its peers.
use orris.Prelude.{
  String, ℕ, suc, ◌≡◌, refl, List, [], ◌∷◌, ℤ, pos, inl, inr, Bool-cases, ltb, ◌&&◌, Map, at, ◌+ℤ◌,
  length, leb_ℤ,
}
use orris.Storage.{LogEntry}
use orris.Storage.Journal.{Journal}
use orris.Transport.{AppendEntriesRequest, RequestVoteRequest}
use orris.Raft.State.{Node, leader, reset_election_timer}
use orris.Raft.Vote.{step_down, cast_vote, can_vote, log_up_to_date}
use orris.Raft.Append.{adopt_leader, push}
use orris.Raft.Append.Invariant.{Ensures, Ensures-then}
use orris.Raft.Commit.{commit_to}
use orris.Raft.Election.{is_leader, start_election, begin_candidacy, become_leader, start_peers}
use orris.Raft.Apply.{apply_next, apply_entry}
use orris.Raft.Recovery.{new_node, fresh_node, recover_state, replay, replay_entries}
use orris.Raft.Steps.{disarm}
use orris.Raft.Steps.Keeps.{Keeps}

-- The name and the peers, which nothing changes.
pub record IsMember (name : String) (peers : ℕ) (n : Node) : Type 0 where
  pub named : n.id ≡ name
  pub sized : length n.peers ≡ peers

module _ (name : String) (peers : ℕ) where
  abbrev Is : Node → Type 0
  Is = IsMember name peers

  Is-same : (n m : Node) → m.id ≡ n.id → m.peers ≡ n.peers → Is n → Is m
  Is-same n m id ps h = record { named = rw id h.named; sized = rw ps h.sized }

  start_peers-Is : (ps : Map String) (next : ℤ) (n : Node) → Is n → Is (start_peers ps next n)
  unfolding start_peers
  start_peers-Is [] next n h = h
  start_peers-Is ((id, _) ∷ ps) next n h = start_peers-Is ps next _ (Is-same n _ refl refl h)

  replay_entries-Is :
      (rest : List LogEntry) (i : ℕ) (n : Node) → Is n → Is (replay_entries i rest n)
  unfolding replay_entries
  replay_entries-Is [] i n h = h
  replay_entries-Is (e ∷ rest) i n h =
      let m : Node = record n { kv_store = apply_entry e n.kv_store; last_applied = pos i } in
      let next = replay_entries-Is rest (suc i) m (Is-same n m refl refl h) in
      elim (Bool-cases (leb_ℤ (pos i) n.commit_index)) [
        | inl more ↦ rw more next
        | inr done ↦ rw done h
      ]

  new_node-Is : (n : Node) → Is n → Is (new_node n.id n.addr n.peers n.wal)
  unfolding new_node recover_state reset_election_timer
  new_node-Is n h =
      let fresh = fresh_node n.id n.addr n.peers n.wal in
      let m : Node = record fresh { durable = replay n.wal.records } in
      Is-same (replay_entries 0 m.log m) _ refl refl
        (replay_entries-Is m.log 0 m (Is-same n m refl refl h))

  adopt_leader-Is : (req : AppendEntriesRequest) (n : Node) → Is n → Is (adopt_leader req n)
  unfolding adopt_leader step_down reset_election_timer
  adopt_leader-Is req n h = elim (Bool-cases (ltb n.current_term req.term)) [
    | inl newer ↦ rw newer (Is-same n _ refl refl h)
    | inr same ↦ rw same (Is-same n _ refl refl h)
  ]

  cast_vote-Is : (req : RequestVoteRequest) (n : Node) → Is n → Is (cast_vote req n).0
  unfolding cast_vote reset_election_timer
  cast_vote-Is req n h = elim (Bool-cases (can_vote n req && log_up_to_date n req)) [
    | inl e ↦ rw e (Is-same n _ refl refl h)
    | inr e ↦ rw e h
  ]

  fired-Is : (n : Node) → Is n → Is (start_election (disarm n)).0
  unfolding start_election begin_candidacy reset_election_timer
  fired-Is n h = elim (Bool-cases (is_leader n.state)) [
    | inl leads ↦ rw leads (Is-same n _ refl refl h)
    | inr other ↦ rw other (Is-same n _ refl refl h)
  ]

  apply_next-Is : (n : Node) → Is n → Ensures Is (apply_next n)
  unfolding apply_next
  apply_next-Is n h =
      Ensures-then Is (at n.log (n.last_applied +ℤ pos 1)) _ λ e. Is-same n _ refl refl h

  pub become_leader-IsMember : (n : Node) → Is n → Is (become_leader n)
  unfolding become_leader reset_election_timer
  become_leader-IsMember n h = elim (Bool-cases (is_leader n.state)) [
    | inl leads ↦ rw leads h
    | inr other ↦
        let m : Node = record n { state = leader } in
        let led = start_peers-Is n.peers (pos (length n.log)) m (Is-same n m refl refl h) in
        rw other (Is-same (start_peers n.peers (pos (length n.log)) m) _ refl refl led)
  ]

  pub IsMember-Keeps : Keeps Is
  unfolding step_down push commit_to reset_election_timer
  IsMember-Keeps = record {
    stepped = λ term n _ h. Is-same n _ refl refl h;
    adopted = λ req n _ h. adopt_leader-Is req n h;
    voted = cast_vote-Is;
    pushed = λ e n h. Is-same n _ refl refl h;
    cut = λ k n _ h. Is-same n _ refl refl h;
    committed = λ index n _ h. Is-same n _ refl refl h;
    fired = fired-Is;
    armed = λ n h. Is-same n _ refl refl h;
    indexed = λ next match n h. Is-same n _ refl refl h;
    applied = apply_next-Is;
    restarted = new_node-Is;
  }

-- A node that starts has the name and the peers that it was given.
module _ (id addr : String) (peers : Map String) (wal : Journal) where
  pub new_node-IsMember : IsMember id (length peers) (new_node id addr peers wal)
  new_node-IsMember =
      new_node-Is id (length peers) (fresh_node id addr peers wal)
        (record { named = refl; sized = refl })
