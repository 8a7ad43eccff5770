-- ===== src/Raft/Replication/Exchange.antt =====
-- One round of replication between a leader and a follower.
use orris.Prelude.{
  ℕ, zero, suc, List, [], ◌∷◌, ◌<◌, ◌⊎◌, false, minus_one, ◌≤ℤ◌, pos_part, neg_part, ◌-◌, ◌≡◌, ◌≤◌,
  refl, sym, ap, true, some, arith, pos, ◌+ℤ◌, inl, inr, length, take, drop, drop_all, length-drop,
  ltb, lookup, lookup-insert, succ_pred, int_laws, Bool-cases, string_eq,
}
use text.Mathlib.TextPositions.{eq_refl}
use orris.Transport.{AppendEntriesRequest, AppendEntriesResponse}
use orris.Raft.State.{Node, int_at}
use orris.Raft.Append.{handle_append_entries}
use orris.Raft.Append.Outcome.{Outcome, handle_append_entries-Handled}
use orris.Raft.Append.Agreement.{terms, accepted_agrees}
use native.Mathlib.Decide.{dec_lt}
use orris.Storage.{LogEntry}
use orris.Raft.Append.Joined.{accepted_term}
use orris.Raft.Election.{is_leader}
use orris.Raft.Commit.{commit_to, advance_commit_index}
use orris.Raft.Commit.Majority.{advance_commit_index-Advances}
use orris.Raft.Replication.{
  PeerTask, append_request, record_match, is_current, has_entries, finish_replication,
}

has_entries-drop : (k : ℕ) (log : List LogEntry) → k < length log → has_entries (drop k log) ≡ true
has_entries-drop k [] h = absurd (omega arith)
has_entries-drop zero (e ∷ log) h = refl
has_entries-drop (suc k) (e ∷ log) h = has_entries-drop k log (omega arith)

pub append_request_term : (task : PeerTask) (n : Node) → (append_request task n).term ≡ task.term
unfolding append_request
append_request_term task n = refl

module _ (task : PeerTask) (k : ℕ) (l : Node) (next : task.next ≡ pos k) where
  pub start-append_request : (append_request task l).prev_log_index +ℤ pos 1 ≡ pos k
  unfolding append_request
  start-append_request = rw next (succ_pred k)

  pub entries-append_request : k ≤ length l.log → (append_request task l).entries ≡ drop k l.log
  unfolding append_request
  entries-append_request inside = elim (Bool-cases (ltb k (length l.log))) [
    | inl more ↦ rw (next, more) refl
    | inr end ↦
        let past : length l.log ≤ k = ground (arith, end) in
        rw (next, end) (sym (drop_all k l.log past))
  ]

  -- What the leader knows of the peer: the index behind the last one that matches, and the next one.
  abbrev pub Matched : Node → ℕ → Type 0
  Matched m size =
      (int_at (lookup task.peer_id m.match_index) +ℤ pos 1 ≡ pos size)
      × (int_at (lookup task.peer_id m.next_index) ≡ pos size)

  record_match-Matched :
      (n : Node)
      → k ≤ length l.log
      → Matched (record_match task.peer_id (append_request task l) n) (length l.log)
  unfolding record_match
  record_match-Matched n inside =
      let req = append_request task l in
      let match = req.prev_log_index +ℤ pos (length req.entries) in
      let read = lookup-insert task.peer_id task.peer_id match n.match_index in
      let read_next = lookup-insert task.peer_id task.peer_id (match +ℤ pos 1) n.next_index in
      let sent = entries-append_request inside in
      let size : match +ℤ pos 1 ≡ pos (length l.log) = rw sent (
        omega (
          int_laws,
          length-drop k l.log,
          ap pos_part start-append_request,
          ap neg_part start-append_request,
        )) in
      (rw (read, eq_refl task.peer_id) size, rw (read_next, eq_refl task.peer_id) size)

  -- What an accepted request becomes at the leader `m`: with entries, the match is recorded and the commit
  -- index may advance; without, nothing changes.
  abbrev pub Recorded : AppendEntriesResponse → Node → Type 0
  Recorded resp m =
      ((k < length l.log)
        × (r : Node) × (finish_replication task (append_request task l) resp m ≡ some r)
        × Matched r (length l.log))
      ⊎ ((k ≡ length l.log) × (finish_replication task (append_request task l) resp m ≡ some m))

  advanced-Matched :
      (n : Node) (size : ℕ)
      → minus_one ≤ℤ n.commit_index
      → Matched n size
      → (r : Node) × (advance_commit_index n ≡ some r) × Matched r size
  unfolding commit_to
  advanced-Matched n size from h = elim (advance_commit_index-Advances n from) [
    | inl (index, ran, _, _, _) ↦ (commit_to (pos index) n, ran, h)
    | inr (ran, _) ↦ (n, ran, h)
  ]

  finished-Recorded :
      (m : Node) (resp : AppendEntriesResponse)
      → k ≤ length l.log
      → resp.success ≡ true
      → resp.term ≤ task.term
      → is_current task m ≡ true
      → minus_one ≤ℤ m.commit_index
      → Recorded resp m
  unfolding finish_replication record_match
  finished-Recorded m resp inside won no_later current from =
      let term : m.current_term ≡ task.term = ground (arith, current) in
      let old : ltb m.current_term resp.term ≡ false = ground arith in
      let sent = entries-append_request inside in
      let matched = record_match task.peer_id (append_request task l) m in
      elim (dec_lt k (length l.log)) [
        | yes more ↦
            let some_sent : has_entries (append_request task l).entries ≡ true =
              rw sent (has_entries-drop k l.log more) in
            let (r, ran, h) =
              advanced-Matched matched (length l.log) from (record_match-Matched m inside) in
            inl (more, r, rw (current, old, won, some_sent) ran, h)
        | no end ↦
            let here : k ≡ length l.log = omega arith in
            let none_sent : has_entries (append_request task l).entries ≡ false =
              rw (sent, drop_all k l.log (omega arith)) refl in
            inr (here, rw (current, old, won, none_sent) refl)
      ]

  -- When a follower accepts the request that a leader made for NextIndex `k`, up to the end of the
  -- leader's log as it was then: from `k` on, the follower's log has entries of the leader's terms, and before
  -- `k` it is as it was. When the answer arrives and the sender still leads in this term, with a commit index of -1 or more, and there were
  -- entries in the request, it does not panic, and records for the peer as MatchIndex the last index of the log that it sent, and as
  -- NextIndex the one behind it; if there were none, it changes nothing.
  pub accepted_replicates :
      (n m l' : Node) (resp : AppendEntriesResponse)
      → k ≤ length l.log
      → handle_append_entries (append_request task l) n ≡ some (m, resp)
      → resp.success ≡ true
      → is_leader l'.state ≡ true
      → l'.current_term ≡ task.term
      → minus_one ≤ℤ l'.commit_index
      → (terms (take (length l.log - k) (drop k m.log)) ≡ terms (drop k l.log))
        × (take k m.log ≡ take k n.log)
        × Recorded resp l'
  accepted_replicates n m l' resp inside ran won leads same from =
      let req = append_request task l in
      let (before, after) = accepted_agrees k req n m resp start-append_request ran won in
      let sent = entries-append_request inside in
      let size = length-drop k l.log in
      let no_later = accepted_term k req n m resp start-append_request ran won in
      (
        rw (← size, ← sent) after,
        before,
        finished-Recorded l' resp inside won (rw (← append_request_term task l) no_later)
            (ground (arith, leads, same)) from,
      )

accepts_of_Outcome :
    (req : AppendEntriesRequest) (n : Node) (r : Node × AppendEntriesResponse)
    → n.current_term ≤ req.term
    → Outcome 0 req n r
    → r.1.success ≡ true
accepts_of_Outcome req n r current (inl (over, _, _)) = absurd (omega arith)
accepts_of_Outcome req n r current (inr (inl (_, missing, _, _))) = absurd (missing tt)
accepts_of_Outcome req n r current (inr (inr (_, _, won, _))) = won

-- A follower whose term is no later than the leader's accepts the request that begins with the first entry
-- of the log, whatever its own log is.
pub first_accepts :
    (task : PeerTask) (l n : Node)
    → task.next ≡ pos 0
    → n.current_term ≤ task.term
    → (r : Node × AppendEntriesResponse) × (handle_append_entries (append_request task l) n
        ≡ some r)
      × (r.1.success ≡ true)
unfolding append_request
first_accepts task l n next current =
    let req = append_request task l in
    let (r, ran, outcome) =
      handle_append_entries-Handled 0 req n (start-append_request task 0 l next) in
    (r, ran, accepts_of_Outcome req n r current outcome)
