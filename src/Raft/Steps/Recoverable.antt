-- ===== src/Raft/Steps/Recoverable.antt =====
-- Restarts between the steps of a run, and the log that they read.
use Prim.Native.Nat.{min}
use orris.Prelude.{
  succ_of_above, ◌≤ℤ◌, String, ℕ, suc, ◌≡◌, refl, true, some, List, [], ◌∷◌, arith, ℤ, pos, inl,
  inr, Bool-cases, ltb, Map, at, ◌+ℤ◌, length, ◌+◌,
}
use orris.Storage.{LogEntry}
use orris.Storage.Journal.{Journal}
use orris.Transport.{AppendEntriesRequest}
use orris.Raft.State.{blank, Node, leader, state_record, reset_election_timer}
use orris.Raft.Append.{adopt_leader}
use orris.Raft.Append.Invariant.{Ensures, Ensures-some, Ensures-then}
use orris.Raft.Election.{is_leader, start_election, begin_candidacy, become_leader, start_peers}
use orris.Raft.Apply.{apply_next, apply_entry}
use orris.Raft.Apply.Prefix.{state_at}
use orris.Raft.Recovery.Restart.{restart_restores, foldl-above}
use orris.Raft.Recovery.{new_node, recover_state, replay, replay_entries}
use orris.Raft.Recovery.Restores.{IsRecoverable, append-Recovers, state_record-Restores}
use orris.Raft.Recovery.Preserved.{
  step_down-IsRecoverable, cast_vote-IsRecoverable, push-IsRecoverable, cut_to-IsRecoverable,
  commit_to-IsRecoverable,
}
use orris.Raft.Steps.{Event, disarm, run}
use orris.Raft.Steps.Keeps.{Keeps}
use orris.Raft.Steps.Keeps.Runs.{run_inv}

-- What applying entries, and starting to lead, leave alone.
replay_entries_same :
    (rest : List LogEntry) (i : ℕ) (n : Node)
    → ((replay_entries i rest n).durable ≡ n.durable) × ((replay_entries i rest n).wal ≡ n.wal)
unfolding replay_entries
replay_entries_same [] i n = (refl, refl)
replay_entries_same (e ∷ rest) i n =
    let next =
      replay_entries_same rest (suc i)
        (record n { kv_store = apply_entry e n.kv_store; last_applied = pos i }) in
    ground (arith, next)

pub start_peers_same :
    (peers : Map String) (next : ℤ) (n : Node)
    → ((start_peers peers next n).durable ≡ n.durable)
      × ((start_peers peers next n).wal ≡ n.wal)
      × ((start_peers peers next n).state ≡ n.state)
unfolding start_peers
start_peers_same [] next n = (refl, refl, refl)
start_peers_same ((id, _) ∷ peers) next n = start_peers_same peers next _

pub new_node_same :
    (id addr : String) (peers : Map String) (wal : Journal)
    → ((new_node id addr peers wal).durable ≡ replay wal.records)
      × ((new_node id addr peers wal).wal ≡ wal)
unfolding new_node recover_state
new_node_same id addr peers wal = replay_entries_same _ 0 _

pub new_node-IsRecoverable :
    (id addr : String) (peers : Map String) (wal : Journal)
    → wal.is_open ≡ true
    → IsRecoverable (new_node id addr peers wal)
new_node-IsRecoverable id addr peers wal opened =
    let (held, kept) = new_node_same id addr peers wal in
    rw (held, kept)
      (record {
        is_open = opened;
        restores = record { term = refl; vote = refl; log = refl; commit = omega arith };
      })

pub become_leader-IsRecoverable : (n : Node) → IsRecoverable n → IsRecoverable (become_leader n)
unfolding become_leader
become_leader-IsRecoverable n h = elim (Bool-cases (is_leader n.state)) [
  | inl leads ↦ rw leads h
  | inr other ↦
      let (held, kept, _) =
        start_peers_same n.peers (pos (length n.log)) (record n { state = leader }) in
      rw (other, held, kept) h
]

fired-IsRecoverable : (n : Node) → IsRecoverable n → IsRecoverable (start_election (disarm n)).0
unfolding start_election begin_candidacy
fired-IsRecoverable n h = elim (Bool-cases (is_leader n.state)) [
  | inl leads ↦ rw leads h
  | inr other ↦
      let term = n.current_term + 1 in
      rw other (
        append-Recovers (state_record term n.id) n.wal n.durable _ h
          λ d r. state_record-Restores d n.durable r term n.id)
]

adopt_leader-IsRecoverable :
    (req : AppendEntriesRequest) (n : Node) → IsRecoverable n → IsRecoverable (adopt_leader req n)
unfolding adopt_leader
adopt_leader-IsRecoverable req n h = elim (Bool-cases (ltb n.current_term req.term)) [
  | inl newer ↦ rw newer (step_down-IsRecoverable n h req.term)
  | inr same ↦ rw same h
]

apply_next-IsRecoverable : (n : Node) → IsRecoverable n → Ensures IsRecoverable (apply_next n)
unfolding apply_next
apply_next-IsRecoverable n h =
    Ensures-then IsRecoverable (at n.log (n.last_applied +ℤ pos 1)) _ λ e. h

pub IsRecoverable-Keeps : Keeps IsRecoverable
IsRecoverable-Keeps = record {
  stepped = λ term n _ h. step_down-IsRecoverable n h term;
  adopted = λ req n _ h. adopt_leader-IsRecoverable req n h;
  voted = λ req n h. cast_vote-IsRecoverable n h req;
  pushed = λ e n h. push-IsRecoverable n h e;
  cut = λ k n _ h. cut_to-IsRecoverable n h k;
  committed = λ index n _ h. commit_to-IsRecoverable n h index;
  fired = fired-IsRecoverable;
  armed = λ n h. unfold reset_election_timer in h;
  indexed = λ next match n h. h;
  applied = apply_next-IsRecoverable;
  restarted = λ n h. new_node-IsRecoverable n.id n.addr n.peers n.wal h.is_open;
}

run-IsRecoverable :
    (es : List Event) (n m : Node) → IsRecoverable n → run es n ≡ some m → IsRecoverable m
run-IsRecoverable es n m h e =
    Ensures-some IsRecoverable (run es n) m e
      (run_inv IsRecoverable IsRecoverable-Keeps (λ n _. become_leader-IsRecoverable n) es n h)

-- What a restart of `m` makes: `c` is the number of entries up to the commit index.
abbrev pub RestoredBy : Node → Node → ℕ → Type 0
RestoredBy m r c =
    (r.commit_index +ℤ pos 1 ≡ pos c)
    × (r.current_term ≡ m.current_term)
    × (r.voted_for ≡ m.voted_for)
    × (r.log ≡ m.log)
    × (m.commit_index ≤ℤ r.commit_index)
    × (r.kv_store ≡ state_at (min c (length m.log)) m.log)

-- A node was started on an open log file whose records can all be read, and then went through any events,
-- restarts among them. If it crashes between two of the regions that its mutex locks, with every record that it
-- has appended written whole, the restart finds its term, its vote and its log as they were and a commit index that is no
-- lower, and its store is what the committed entries of this log make.
pub crash_restores :
    (id addr : String) (peers : Map String) (wal : Journal) (es : List Event) (m : Node)
    → wal.is_open ≡ true
    → run es (new_node id addr peers wal) ≡ some m
    → (c : ℕ) × RestoredBy m (new_node m.id m.addr m.peers m.wal) c
crash_restores id addr peers wal es m opened ran =
    let start = new_node-IsRecoverable id addr peers wal opened in
    let back = run-IsRecoverable es (new_node id addr peers wal) m start ran in
    let above = foldl-above m.wal.records blank (omega arith) in
    let (c, hc) = succ_of_above (replay m.wal.records).commit_index (unfold replay in above) in
    let (held, _) = new_node_same m.id m.addr m.peers m.wal in
    let end : (new_node m.id m.addr m.peers m.wal).commit_index +ℤ pos 1 ≡ pos c = rw held hc in
    let (term, vote, log, commit, store) = restart_restores m c back hc in
    (c, (end, term, vote, log, commit, store))
