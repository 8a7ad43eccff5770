-- ===== src/Raft/Recovery.antt =====
pub mod Restores
pub mod Preserved
pub mod Restart
pub mod Spelling
pub mod Spelled
-- `NewNode` and `recoverState` of internal/raft/node.go.
use orris.Prelude.{
  ℕ, String, false, Option, none, some, List, [], ◌∷◌, ◌++◌, foldl, ◌==◌, string_eq, if◌then◌else◌,
  length, take, pos, ℤ, ltb_ℤ, leb_ℤ, minus_one, suc, ◌+ℤ◌, ltb, Map,
}
use orris.Kv.{new_store}
use orris.Storage.{WalRecord, LogEntry, record_state, record_entry, record_truncate, record_commit}
use orris.Storage.Journal.{Journal}
use orris.Raft.State.{Node, Durable, blank, follower, reset_election_timer}
use orris.Raft.Apply.{apply_entry}

abbrev pub push_some : Option LogEntry → List LogEntry → List LogEntry
push_some none log = log
push_some (some entry) log = log ++ entry ∷ []

-- `n.Log[:k]` for a `k` below the length; a `k` of 0 or less empties the log, any other keeps it.
abbrev pub recover_truncate : ℤ → List LogEntry → List LogEntry
recover_truncate (pos k) log =
    if ltb k (length log) then take k log else if leb_ℤ (pos k) (pos 0) then [] else log
recover_truncate _ log = []

unfoldable pub recover_record : Durable → WalRecord → Durable
recover_record d rec =
    if rec.type == record_state
    then record d { current_term = rec.term; voted_for = rec.voted_for }
    else if rec.type == record_entry
    then record d { log = push_some rec.entry d.log }
    else if rec.type == record_truncate
    then record d { log = recover_truncate (rec.commit_index +ℤ pos 1) d.log }
    else if rec.type == record_commit
    then (if ltb_ℤ d.commit_index rec.commit_index
        then record d { commit_index = rec.commit_index }
        else d)
    else d

unfoldable pub replay : List WalRecord → Durable
replay = foldl recover_record blank

-- `for i := 0; i <= n.CommitIndex && i < len(n.Log); i++`, over the entries that are left.
unfoldable pub replay_entries : ℕ → List LogEntry → Node → Node
replay_entries i [] n = n
replay_entries i (entry ∷ rest) n =
    let next =
      replay_entries (suc i) rest
        (record n { kv_store = apply_entry entry n.kv_store; last_applied = pos i }) in
    if leb_ℤ (pos i) n.commit_index then next else n

-- `none`: the log could not be read, and the node starts blank.
unfoldable pub recover_state : Option (List WalRecord) → Node → Node
recover_state none n = n
recover_state (some records) n =
    let m = record n { durable = replay records } in replay_entries 0 m.log m

abbrev pub fresh_node : String → String → Map String → Journal → Node
fresh_node id addr peers wal = record {
  id = id;
  addr = addr;
  peers = peers;
  state = follower;
  durable = blank;
  last_applied = minus_one;
  next_index = [];
  match_index = [];
  kv_store = new_store;
  election_timer = false;
  wal = wal;
  apply_notify = false;
}

-- The node that starts on a log file whose records are `wal.records`.
unfoldable pub new_node : String → String → Map String → Journal → Node
unfolding reset_election_timer
new_node id addr peers wal =
    reset_election_timer (recover_state (some wal.records) (fresh_node id addr peers wal))
