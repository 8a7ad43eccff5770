-- ===== src/Raft/Steps/InRange.antt =====
-- CommitIndex and LastApplied over the steps of a node, against -1, where they start.
use orris.Prelude.{
  ℕ, suc, String, List, [], ◌∷◌, arith, leb_ℤ, ℤ, pos, minus_one, ◌≤ℤ◌, ◌+ℤ◌, +ℤ_parts, inl, inr,
  Bool-cases, Map, at, ◌&&◌, ltb,
}
use orris.Storage.{LogEntry}
use orris.Storage.Journal.{Journal}
use orris.Transport.{AppendEntriesRequest}
use orris.Raft.State.{Node, leader, reset_election_timer, blank}
use orris.Raft.Vote.{step_down, cast_vote, can_vote, log_up_to_date}
use orris.Raft.Append.{adopt_leader, push}
use orris.Raft.Append.Invariant.{Ensures, Ensures-then}
use orris.Raft.Commit.{commit_to}
use orris.Raft.Election.{is_leader, start_election, begin_candidacy, become_leader, start_peers}
use orris.Raft.Apply.{apply_entry, apply_next}
use orris.Raft.Recovery.{new_node, recover_state, replay_entries, replay}
use orris.Raft.Recovery.Restart.{foldl-above}
use orris.Raft.Steps.{disarm}
use orris.Raft.Steps.Keeps.{Keeps}

-- Both indices are at -1 or above.
abbrev pub InRange : Node → Type 0
InRange n = (minus_one ≤ℤ n.commit_index) × (minus_one ≤ℤ n.last_applied)

cast_vote-InRange : (req : _) (n : Node) → InRange n → InRange (cast_vote req n).0
unfolding cast_vote
cast_vote-InRange req n h = elim (Bool-cases (can_vote n req && log_up_to_date n req)) [
  | inl e ↦ rw e h
  | inr e ↦ rw e h
]

adopt_leader-InRange :
    (req : AppendEntriesRequest) (n : Node) → InRange n → InRange (adopt_leader req n)
unfolding adopt_leader step_down
adopt_leader-InRange req n h = elim (Bool-cases (ltb n.current_term req.term)) [
  | inl e ↦ rw e h
  | inr e ↦ rw e h
]

fired-InRange : (n : Node) → InRange n → InRange (start_election (disarm n)).0
unfolding start_election begin_candidacy
fired-InRange n h = elim (Bool-cases (is_leader n.state)) [ inl e ↦ rw e h | inr e ↦ rw e h ]

start_peers-InRange :
    (peers : Map String) (next : ℤ) (n : Node) → InRange n → InRange (start_peers peers next n)
unfolding start_peers
start_peers-InRange [] next n h = h
start_peers-InRange ((id, _) ∷ peers) next n h = start_peers-InRange peers next _ h

pub become_leader-InRange : (n : Node) → InRange n → InRange (become_leader n)
unfolding become_leader
become_leader-InRange n h = elim (Bool-cases (is_leader n.state)) [
  | inl e ↦ rw e h
  | inr e ↦ rw e (start_peers-InRange n.peers _ (record n { state = leader }) h)
]

pub apply_next-InRange : (n : Node) → InRange n → Ensures InRange (apply_next n)
unfolding apply_next
apply_next-InRange n h =
    Ensures-then InRange (at n.log (n.last_applied +ℤ pos 1)) _
      λ e. (h.0, omega (arith, +ℤ_parts n.last_applied (pos 1)))

replay_entries-InRange :
    (rest : List LogEntry) (i : ℕ) (n : Node) → InRange n → InRange (replay_entries i rest n)
unfolding replay_entries
replay_entries-InRange [] i n h = h
replay_entries-InRange (e ∷ rest) i n h =
    let m : Node = record n { kv_store = apply_entry e n.kv_store; last_applied = pos i } in
    let next = replay_entries-InRange rest (suc i) m (h.0, omega arith) in
    elim (Bool-cases (leb_ℤ (pos i) n.commit_index)) [
      | inl more ↦ rw more next
      | inr done ↦ rw done h
    ]

pub new_node-InRange :
    (id addr : String) (peers : Map String) (wal : Journal) → InRange (new_node id addr peers wal)
unfolding new_node recover_state replay
new_node-InRange id addr peers wal =
    replay_entries-InRange _ 0 _ (foldl-above wal.records blank (omega arith), omega arith)

pub InRange-Keeps : Keeps InRange
unfolding step_down push commit_to reset_election_timer
InRange-Keeps = record {
  stepped = λ term n _ h. h;
  adopted = λ req n _ h. adopt_leader-InRange req n h;
  voted = cast_vote-InRange;
  pushed = λ e n h. h;
  cut = λ k n _ h. h;
  committed = λ index n above h. (above h.0, h.1);
  fired = fired-InRange;
  armed = λ n h. h;
  indexed = λ next match n h. h;
  applied = apply_next-InRange;
  restarted = λ n h. new_node-InRange n.id n.addr n.peers n.wal;
}
