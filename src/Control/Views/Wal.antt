-- ===== src/Control/Views/Wal.antt =====
-- The last term that the control tool finds in a node's log file.
use Prim.Native.Nat.{max}
use orris.Prelude.{
  ℕ, ◌+◌, ◌<◌, ◌≡◌, refl, sym, ◌∙◌, ap, true, some, List, [], ◌∷◌, ◌++◌, arith, ltb, inl, inr,
  Bool-cases, if◌then◌else◌, ◌&&◌, ◌-ℤ◌, ◌+ℤ◌, pos, length, at,
}
use orris.Storage.{WalRecord}
use orris.Storage.Journal.{Journal, append}
use orris.Transport.{AppendEntriesRequest, RequestVoteRequest}
use orris.Raft.State.{
  Node, leader, write, state_record, entry_record, truncate_record, commit_record,
  reset_election_timer, notify_apply,
}
use orris.Raft.Vote.{step_down, cast_vote, can_vote, log_up_to_date}
use orris.Raft.Append.{adopt_leader, push}
use orris.Raft.Append.Invariant.{Ensures, Ensures-some, Ensures-then}
use orris.Raft.Commit.{commit_to}
use orris.Raft.Election.{is_leader, start_election, begin_candidacy, become_leader}
use orris.Raft.Apply.{apply_next}
use orris.Raft.Recovery.{new_node}
use orris.Raft.Recovery.Restores.{IsRecoverable}
use orris.Raft.Steps.{Event, disarm, run}
use orris.Raft.Steps.Keeps.{Keeps}
use orris.Raft.Steps.Keeps.Runs.{run_inv}
use orris.Raft.Steps.Recoverable.{
  IsRecoverable-Keeps, become_leader-IsRecoverable, new_node_same, start_peers_same,
}
use orris.Control.Views.{last_term}

last_term-append :
    (best : ℕ) (records : List WalRecord) (r : WalRecord)
    → last_term best (records ++ r ∷ []) ≡ max (last_term best records) r.term
unfolding last_term
last_term-append best [] r = ground arith
last_term-append best (q ∷ records) r =
    last_term-append (if ltb best q.term then q.term else best) records r

-- The file is open, and the last term in it is the node's.
abbrev pub IsCurrent : Journal → ℕ → Type 0
IsCurrent wal term = (wal.is_open ≡ true) × (last_term 0 wal.records ≡ term)

append-IsCurrent :
    (wal : Journal) (r : WalRecord) (term term' : ℕ)
    → IsCurrent wal term
    → max term r.term ≡ term'
    → IsCurrent (append wal r) term'
unfolding append
append-IsCurrent wal r term term' (opened, last) same =
    rw opened ((refl, last_term-append 0 wal.records r ∙ ap (λ t. max t r.term) last ∙ same))

abbrev pub Current : Node → Type 0
Current n = IsCurrent n.wal n.current_term

step_down-Current :
    (term : ℕ) (n : Node) → n.current_term < term → Current n → Current (step_down term n)
unfolding step_down
step_down-Current term n newer h =
    append-IsCurrent n.wal (state_record term "") n.current_term term h (omega arith)

adopt_leader-Current :
    (req : AppendEntriesRequest) (n : Node) → Current n → Current (adopt_leader req n)
unfolding adopt_leader reset_election_timer
adopt_leader-Current req n h = elim (Bool-cases (ltb n.current_term req.term)) [
  | inl newer ↦ rw newer (step_down-Current req.term n (ground (arith, newer)) h)
  | inr same ↦ rw same h
]

cast_vote-Current : (req : RequestVoteRequest) (n : Node) → Current n → Current (cast_vote req n).0
unfolding cast_vote write reset_election_timer
cast_vote-Current req n h = elim (Bool-cases (can_vote n req && log_up_to_date n req)) [
  | inl e ↦ rw e (
      append-IsCurrent n.wal (state_record n.current_term req.candidate_id) n.current_term
        n.current_term h (omega arith))
  | inr e ↦ rw e h
]

fired-Current : (n : Node) → Current n → Current (start_election (disarm n)).0
unfolding start_election begin_candidacy
fired-Current n h = elim (Bool-cases (is_leader n.state)) [
  | inl leads ↦ rw leads h
  | inr other ↦
      let term = n.current_term + 1 in
      rw other (append-IsCurrent n.wal (state_record term n.id) n.current_term term h (omega arith))
]

become_leader-Current : (n : Node) → Current n → Current (become_leader n)
unfolding become_leader reset_election_timer
become_leader-Current n h = elim (Bool-cases (is_leader n.state)) [
  | inl leads ↦ rw leads h
  | inr other ↦
      let (held, kept, _) =
        start_peers_same n.peers (pos (length n.log)) (record n { state = leader }) in
      rw (other, held, kept) h
]

new_node-Current :
    (n : Node) → IsRecoverable n → Current n → Current (new_node n.id n.addr n.peers n.wal)
new_node-Current n back h =
    let (held, kept) = new_node_same n.id n.addr n.peers n.wal in
    rw (held, kept) ((h.0, h.1 ∙ sym back.restores.term))

abbrev Both : Node → Type 0
Both n = IsRecoverable n × Current n

apply_next-Both : (n : Node) → Both n → Ensures Both (apply_next n)
unfolding apply_next
apply_next-Both n h = Ensures-then Both (at n.log (n.last_applied +ℤ pos 1)) _ λ e. h

Both-Keeps : Keeps Both
unfolding push write commit_to notify_apply reset_election_timer
Both-Keeps =
    let k = IsRecoverable-Keeps in
    let same : (n : Node) (r : WalRecord)
        → r.term ≡ 0
        → Current n
        → IsCurrent (append n.wal r) n.current_term =
      λ n r none h.
        append-IsCurrent n.wal r n.current_term n.current_term h (omega (arith, none)) in
    record {
      stepped = λ term n newer h. (k.stepped term n newer h.0, step_down-Current term n newer h.1);
      adopted = λ req n le h. (k.adopted req n le h.0, adopt_leader-Current req n h.1);
      voted = λ req n h. (k.voted req n h.0, cast_vote-Current req n h.1);
      pushed = λ e n h. (k.pushed e n h.0, same n (entry_record e) refl h.1);
      cut =
          λ i n other h. (k.cut i n other h.0, same n (truncate_record (pos i -ℤ pos 1)) refl h.1);
      committed =
          λ index n above h. (k.committed index n above h.0, same n (commit_record index) refl h.1);
      fired = λ n h. (k.fired n h.0, fired-Current n h.1);
      armed = λ n h. (k.armed n h.0, h.1);
      indexed = λ next match n h. h;
      applied = apply_next-Both;
      restarted = λ n h. (k.restarted n h.0, new_node-Current n h.0 h.1);
    }

-- The last term that `displayAllWALs` finds in the log file of a node is the node's current term, at any time in a run, crashes
-- and restarts included, if it was so at first, the log was open, and a restart would have restored the node.
pub last_term_current :
    (es : List Event) (n m : Node)
    → IsRecoverable n
    → last_term 0 n.wal.records ≡ n.current_term
    → run es n ≡ some m
    → last_term 0 m.wal.records ≡ m.current_term
last_term_current es n m back last ran =
    (Ensures-some Both (run es n) m ran (
      run_inv Both Both-Keeps
        (λ l _ h. (become_leader-IsRecoverable l h.0, become_leader-Current l h.1)) es n
        (back, (back.is_open, last)))).1.1
