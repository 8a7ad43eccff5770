-- ===== src/Raft/Replication.antt =====
pub mod Exchange
pub mod CatchUp
-- `sendHeartbeats` and `replicateToPeer` of internal/raft/replication.go: the locked region before the
-- call of a peer, and the one after its answer. Other tasks may run in between.
use orris.Prelude.{
  ℕ, String, Bool, true, false, ◌&&◌, not, Option, none, some, List, [], ◌∷◌, ◌==◌, nat_eq, ltb,
  if◌then◌else◌, length, at, drop, pos, ℤ, ltb_ℤ, ◌+ℤ◌, ◌-ℤ◌, Map, insert, lookup,
}
use orris.Storage.{LogEntry}
use orris.Transport.{AppendEntriesRequest, AppendEntriesResponse}
use orris.Raft.State.{Node, int_at}
use orris.Raft.Vote.{step_down}
use orris.Raft.Election.{is_leader}
use orris.Raft.Commit.{advance_commit_index}

-- One task of a round of heartbeats: the peer, and what the round read of the node.
pub record PeerTask : Type 0 where
  pub peer_id : String
  pub peer_addr : String
  pub next : ℤ
  pub term : ℕ
  pub commit_index : ℤ

unfoldable pub peer_tasks : Node → Map String → List PeerTask
peer_tasks n [] = []
peer_tasks n ((id, addr) ∷ rest) =
    record {
      peer_id = id;
      peer_addr = addr;
      next = int_at (lookup id n.next_index);
      term = n.current_term;
      commit_index = n.commit_index;
    }
    ∷ peer_tasks n rest

unfoldable pub send_heartbeats : Node → List PeerTask
send_heartbeats n = if is_leader n.state then peer_tasks n n.peers else []

-- `n.Log[from:]`, where that is in range, and no entries where it is not.
abbrev pub entries_from : ℤ → List LogEntry → List LogEntry
entries_from (pos from) log = if ltb from (length log) then drop from log else []
entries_from _ log = []

-- The term at an index, and 0 where the log has no entry there.
abbrev pub term_or_zero : Option LogEntry → ℕ
term_or_zero none = 0
term_or_zero (some e) = e.term

abbrev pub is_current : PeerTask → Node → Bool
is_current task n = is_leader n.state && n.current_term == task.term

unfoldable pub append_request : PeerTask → Node → AppendEntriesRequest
append_request task n =
    let previous = task.next -ℤ pos 1 in
    record {
      term = task.term;
      leader_id = n.id;
      prev_log_index = previous;
      prev_log_term = term_or_zero (at n.log previous);
      entries = entries_from task.next n.log;
      leader_commit = task.commit_index;
    }

-- none: the node is no longer the leader of that term, and nothing is sent.
unfoldable pub begin_replication : PeerTask → Node → Option AppendEntriesRequest
begin_replication task n = if is_current task n then some (append_request task n) else none

-- `MatchIndex[peer] = prevLogIndex + len(entries)`, and `NextIndex[peer]` behind it.
unfoldable pub record_match : String → AppendEntriesRequest → Node → Node
record_match peer req n =
    let match = req.prev_log_index +ℤ pos (length req.entries) in
    record n {
      match_index = insert peer match n.match_index;
      next_index = insert peer (match +ℤ pos 1) n.next_index;
    }

unfoldable pub back_off : PeerTask → Node → Node
back_off task n =
    if ltb_ℤ (pos 0) task.next
    then record n { next_index = insert task.peer_id (task.next -ℤ pos 1) n.next_index }
    else n

abbrev pub has_entries : List LogEntry → Bool
has_entries [] = false
has_entries (_ ∷ _) = true

-- The peer answered `resp` to `req`. none is a panic of `advanceCommitIndex`.
unfoldable pub finish_replication :
    PeerTask → AppendEntriesRequest → AppendEntriesResponse → Node → Option Node
finish_replication task req resp n =
    if not (is_current task n)
    then some n
    else if ltb n.current_term resp.term
    then some (step_down resp.term n)
    else if resp.success
    then (if has_entries req.entries
        then advance_commit_index (record_match task.peer_id req n)
        else some n)
    else some (back_off task n)
