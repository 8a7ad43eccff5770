-- ===== src/Raft/Replication/CatchUp.antt =====
-- Rounds of replication until the follower accepts.
use orris.Prelude.{
  String, ℕ, zero, suc, ◌≡◌, ◌≤◌, refl, true, false, Option, none, some, arith, pos, ◌+ℤ◌, inl, inr,
  ltb, ltb_ℤ, lookup, lookup-insert, pred_succ, Bool-cases, if◌then◌else◌, nat_eq, string_eq, ◌>>=◌,
}
use text.Mathlib.TextPositions.{eq_refl}
use orris.Transport.{AppendEntriesRequest, AppendEntriesResponse}
use orris.Raft.State.{Node, int_at}
use orris.Raft.Election.{is_leader}
use orris.Raft.Vote.{step_down}
use orris.Raft.Append.{
  handle_append_entries, adopt_leader, update_commit, push, refusal, acceptance, check_previous,
  append_entries,
}
use orris.Raft.Append.Invariant.{
  Ensures, Ensures-if, Ensures-then, Ensures-some, handle_append_entries_inv,
}
use orris.Raft.Append.Outcome.{handle_append_entries-Handled}
use orris.Raft.Replication.{PeerTask, append_request, finish_replication, back_off}
use orris.Raft.Replication.Exchange.{first_accepts, start-append_request}

-- The task of a leader for a peer, as a heartbeat makes it.
abbrev task_for : String → String → Node → PeerTask
task_for id addr l = record {
  peer_id = id;
  peer_addr = addr;
  next = int_at (lookup id l.next_index);
  term = l.current_term;
  commit_index = l.commit_index;
}

-- Heartbeats to one follower, each answered before the next, until the follower accepts: the leader as it
-- was before it learns of that, and the follower. None if `fuel` heartbeats are not enough, or on a panic.
pub catch_up : ℕ → String → String → Node → Node → Option (Node × Node)
catch_up zero id addr l n = none
catch_up (suc fuel) id addr l n = do
  let task = task_for id addr l
  let req = append_request task l
  (m, resp) ← handle_append_entries req n
  if resp.success
      then some (l, m)
      else (do l' ← finish_replication task req resp l; catch_up fuel id addr l' m)

-- Nodes of a term up to `term`.
module _ (term : ℕ) where
  abbrev UpTo : Node → Type 0
  UpTo n = n.current_term ≤ term

  adopt_leader-UpTo :
      (req : AppendEntriesRequest) (n : Node) → req.term ≤ term → UpTo n → UpTo (adopt_leader req n)
  unfolding adopt_leader step_down
  adopt_leader-UpTo req n le h = elim (Bool-cases (ltb n.current_term req.term)) [
    | inl newer ↦ rw newer le
    | inr same ↦ rw same h
  ]

  update_commit-UpTo : (req : AppendEntriesRequest) (n : Node) → UpTo n → UpTo (update_commit req n)
  unfolding update_commit
  update_commit-UpTo req n h = elim (Bool-cases (ltb_ℤ n.commit_index req.leader_commit)) [
    | inl higher ↦ rw higher h
    | inr known ↦ rw known h
  ]

  handled-UpTo :
      (req : AppendEntriesRequest) (n m : Node) (resp : AppendEntriesResponse)
      → req.term ≤ term
      → UpTo n
      → handle_append_entries req n ≡ some (m, resp)
      → UpTo m
  unfolding push
  handled-UpTo req n m resp le h ran =
      Ensures-some (λ (r : Node × AppendEntriesResponse). UpTo r.0) (handle_append_entries req n)
        (m, resp) ran
        (handle_append_entries_inv UpTo (λ e n h. h) (λ k n h. h) req UpTo (λ n h. h)
          (λ n _. adopt_leader-UpTo req n le) (update_commit-UpTo req) n h)

-- The reply has the term of the node that gives it.
reply-term :
    (req : AppendEntriesRequest) (n : Node)
    → Ensures
        (λ (r : Node × AppendEntriesResponse). r.1.term ≡ r.0.current_term)
        (handle_append_entries req n)
unfolding handle_append_entries refusal acceptance
reply-term req n =
    let Q : Node × AppendEntriesResponse → Type 0 = λ r. r.1.term ≡ r.0.current_term in
    Ensures-if Q (ltb req.term n.current_term) _ _ refl (
      Ensures-then Q (check_previous req (adopt_leader req n)) _ λ r.
        Ensures-if Q r.1 _ _
          (Ensures-then Q (append_entries (req.prev_log_index +ℤ pos 1) req.entries r.0) _
            λ m. refl)
          refl)

module _ (id addr : String) (l : Node) (leads : is_leader l.state ≡ true) where
  refused_backs_off :
      (req : AppendEntriesRequest) (resp : AppendEntriesResponse)
      → resp.success ≡ false
      → resp.term ≤ l.current_term
      → finish_replication (task_for id addr l) req resp l ≡ some (back_off (task_for id addr l) l)
  unfolding finish_replication
  refused_backs_off req resp lost old = rw (leads, lost) (ground arith)

  backed_off :
      (k : ℕ)
      → int_at (lookup id l.next_index) ≡ pos (suc k)
      → int_at (lookup id (back_off (task_for id addr l) l).next_index) ≡ pos k
  unfolding back_off
  backed_off k next =
      let more : ltb_ℤ (pos 0) (pos (suc k)) ≡ true = ground arith in
      rw (next, pred_succ k, more, lookup-insert id id (pos k) l.next_index, eq_refl id) refl

back_off-same :
    (task : PeerTask) (l : Node)
    → ((back_off task l).state ≡ l.state) × ((back_off task l).current_term ≡ l.current_term)
unfolding back_off
back_off-same task l = ground arith

-- A leader that sends from NextIndex `k` to a follower of no later term needs at most `k + 1` heartbeats
-- until the follower accepts, whatever the two logs are, if each is answered before the next and nothing
-- else happens to the two nodes.
pub catch_up-accepts :
    (k : ℕ) (id addr : String) (l n : Node)
    → is_leader l.state ≡ true
    → int_at (lookup id l.next_index) ≡ pos k
    → n.current_term ≤ l.current_term
    → (r : Node × Node) × (catch_up (suc k) id addr l n ≡ some r)
unfolding catch_up
catch_up-accepts zero id addr l n leads next old =
    let (r, ran, won) = first_accepts (task_for id addr l) l n next old in rw (ran, won) (_, refl)
catch_up-accepts (suc k) id addr l n leads next old =
    let task = task_for id addr l in
    let req = append_request task l in
    let ((m, resp), ran, _) =
      handle_append_entries-Handled (suc k) req n (start-append_request task (suc k) l next) in
    let sent_term : (append_request task l).term ≤ l.current_term =
      unfold append_request in omega arith in
    let later : m.current_term ≤ l.current_term =
      handled-UpTo l.current_term req n m resp sent_term old ran in
    let told : resp.term ≡ m.current_term =
      Ensures-some (λ (r : Node × AppendEntriesResponse). r.1.term ≡ r.0.current_term)
        (handle_append_entries req n) (m, resp) ran (reply-term req n) in
    let (state, term) = back_off-same task l in
    let still_leads : is_leader (back_off task l).state ≡ true = rw state leads in
    elim (Bool-cases resp.success) [
      | inl won ↦ rw (ran, won) (_, refl)
      | inr lost ↦
          let again =
            catch_up-accepts k id addr (back_off task l) m still_leads
              (backed_off id addr l leads k next) (omega arith) in
          rw (ran, lost, refused_backs_off id addr l leads req resp lost (omega arith)) again
    ]
