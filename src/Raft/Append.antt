-- ===== src/Raft/Append.antt =====
pub mod Merge
pub mod Invariant
pub mod Agreement
pub mod Outcome
pub mod Joined
-- `HandleAppendEntries` of internal/raft/replication.go. `none` is a panic: an index out of range.
use orris.Prelude.{
  Bool, true, false, not, ◌&&◌, Option, some, List, [], ◌∷◌, ◌++◌, ltb, ◌==◌, nat_eq, if◌then◌else◌,
  ◌>>=◌, length, at, slice_to, ℤ, pos, minus_one, ◌+ℤ◌, ◌-ℤ◌, ltb_ℤ, leb_ℤ, beq_ℤ,
}
use orris.Storage.{LogEntry}
use orris.Transport.{AppendEntriesRequest, AppendEntriesResponse}
use orris.Raft.State.{
  Node, follower, write, entry_record, truncate_record, commit_record, reset_election_timer,
  notify_apply, last_index,
}
use orris.Raft.Vote.{step_down}

-- `n.Log = n.Log[:idx]`, and its record.
unfoldable pub truncate : ℤ → Node → Option Node
unfolding write
truncate idx n = do
  kept ← slice_to n.log idx
  some (
      write (truncate_record (idx -ℤ pos 1))
        (record n { durable = record n.durable { log = kept } }))

-- `n.Log = append(n.Log, entry)`, and its record.
unfoldable pub push : LogEntry → Node → Node
unfolding write
push entry n =
    write (entry_record entry)
      (record n { durable = record n.durable { log = n.log ++ entry ∷ [] } })

unfoldable pub push_all : List LogEntry → Node → Node
push_all [] n = n
push_all (entry ∷ rest) n = push_all rest (push entry n)

-- The loop over the request's entries, `idx` the position of the first one.
unfoldable pub append_entries : ℤ → List LogEntry → Node → Option Node
append_entries idx [] n = some n
append_entries idx (entry ∷ rest) n =
    let beyond = append_entries (idx +ℤ pos 1) rest (push entry n) in
    let within : Option Node = (do
      old ← at n.log idx
      let agreed = append_entries (idx +ℤ pos 1) rest n
      if old.term == entry.term
          then agreed
          else (do cut ← truncate idx n; some (push_all (entry ∷ rest) cut))) in
    if ltb_ℤ idx (pos (length n.log)) then within else beyond

-- The sender is the leader of a term that is not over: the node follows it.
unfoldable pub adopt_leader : AppendEntriesRequest → Node → Node
unfolding reset_election_timer
adopt_leader req n =
    reset_election_timer
      (if ltb n.current_term req.term then step_down req.term n else record n { state = follower })

-- `req.PrevLogIndex < len(n.Log) && n.Log[req.PrevLogIndex].Term == req.PrevLogTerm`
unfoldable pub has_previous : AppendEntriesRequest → Node → Option Bool
has_previous req n =
    if leb_ℤ (pos (length n.log)) req.prev_log_index
    then some false
    else (do old ← at n.log req.prev_log_index; some (old.term == req.prev_log_term))

abbrev pub first_terms_differ : List LogEntry → List LogEntry → Bool
first_terms_differ (entry ∷ _) (old ∷ _) = not (old.term == entry.term)
first_terms_differ _ _ = false

-- The log consistency check at `prevLogIndex`: the node, and whether the entries may be appended.
unfoldable pub check_previous : AppendEntriesRequest → Node → Option (Node × Bool)
check_previous req n =
    if leb_ℤ (pos 0) req.prev_log_index
    then (do
      found ← has_previous req n
      if found then some (n, true) else (do
        let size = pos (length n.log)
        cut ← truncate (if ltb_ℤ size req.prev_log_index then size else req.prev_log_index) n
        some (cut, false)))
    else if beq_ℤ req.prev_log_index minus_one && first_terms_differ req.entries n.log
    then (do cut ← truncate (pos 0) n; some (cut, true))
    else some (n, true)

unfoldable pub update_commit : AppendEntriesRequest → Node → Node
unfolding write notify_apply last_index
update_commit req n =
    if ltb_ℤ n.commit_index req.leader_commit
    then (let last = last_index n in
        let index = if ltb_ℤ req.leader_commit last then req.leader_commit else last in
        notify_apply (
          write (commit_record index)
            (record n { durable = record n.durable { commit_index = index } })))
    else n

unfoldable pub refusal : Node → AppendEntriesResponse
refusal n = record { term = n.current_term; success = false; match_index = pos 0 }

unfoldable pub acceptance : Node → AppendEntriesResponse
unfolding last_index
acceptance n = record { term = n.current_term; success = true; match_index = last_index n }

unfoldable pub handle_append_entries :
    AppendEntriesRequest → Node → Option (Node × AppendEntriesResponse)
handle_append_entries req n = if ltb req.term n.current_term then some (n, refusal n) else (do
  (checked, may_append) ← check_previous req (adopt_leader req n)
  if may_append
      then (do
        appended ← append_entries (req.prev_log_index +ℤ pos 1) req.entries checked
        let done = update_commit req appended
        some (done, acceptance done))
      else some (checked, refusal checked))
