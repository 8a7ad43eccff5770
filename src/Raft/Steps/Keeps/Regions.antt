-- ===== src/Raft/Steps/Keeps/Regions.antt =====
-- What each write keeps, every locked region of internal/raft keeps.
use orris.Prelude.{
  ◌≡◌, refl, false, -ℤ_parts, String, ℕ, zero, suc, ◌≤◌, none, some, arith, pos, inl, inr,
  Bool-cases, get_elem?, ltb, ltb_ℤ, ◌==◌, nat_eq, not, ◌||◌, if_both, length,
}
use orris.Transport.{
  RequestVoteRequest, RequestVoteResponse, AppendEntriesRequest, AppendEntriesResponse,
}
use orris.Raft.State.{last_index, Node, ClientReq, reset_election_timer, write}
use orris.Raft.Vote.{step_down, handle_request_vote}
use orris.Raft.Vote.Grant.{request_vote_cases}
use orris.Raft.Append.{push, adopt_leader, update_commit, handle_append_entries}
use orris.Raft.Append.Invariant.{
  Ensures, Ensures-bind, Ensures-then, Ensures-if, handle_append_entries_inv,
}
use orris.Raft.Election.{Election, is_leader, is_candidate, check_reply}
use orris.Raft.Commit.{commit_to, advance_from, advance_commit_index}
use orris.Raft.Replication.{
  PeerTask, is_current, has_entries, record_match, back_off, finish_replication,
}
use orris.Raft.Apply.{has_unapplied, apply_next, apply_loop}
use orris.Raft.Client.{client_entry, begin_client_req}
use orris.Raft.Steps.Keeps.{Spares, Keeps, Keeps-Spares}

-- The receiver of a request that is not over follows, and still does at its end.
pub adopt_leader-follows :
    (req : AppendEntriesRequest) (n : Node) → is_leader (adopt_leader req n).state ≡ false
unfolding adopt_leader step_down reset_election_timer
adopt_leader-follows req n = elim (Bool-cases (ltb n.current_term req.term)) [
  | inl newer ↦ rw newer refl
  | inr same ↦ rw same refl
]

pub update_commit-follows :
    (req : AppendEntriesRequest) (n : Node)
    → is_leader n.state ≡ false
    → is_leader (update_commit req n).state ≡ false
unfolding update_commit
update_commit-follows req n other =
    if_both (λ (m : Node). is_leader m.state ≡ false) (ltb_ℤ n.commit_index req.leader_commit) _ n
      other other

module _ (P : Node → Type 0) (Indexes : Type 0) (spares : Spares P Indexes) where
  pub handle_request_vote_inv :
      (req : RequestVoteRequest) (n : Node) → P n → P (handle_request_vote req n).0
  handle_request_vote_inv req n h =
      request_vote_cases req n (λ r. P r.0) (λ _. h)
        (λ newer. spares.voted req (step_down req.term n) (spares.stepped req.term n newer h))
        (λ _. spares.voted req n h)

  update_commit_inv : (req : AppendEntriesRequest) (n : Node) → P n → P (update_commit req n)
  unfolding update_commit last_index commit_to
  update_commit_inv req n h = elim (Bool-cases (ltb_ℤ n.commit_index req.leader_commit)) [
    | inl higher ↦
        rw higher
          (spares.committed _ n (λ above. ground (arith, -ℤ_parts (pos (length n.log)) (pos 1))) h)
    | inr known ↦ rw known h
  ]

  pub check_reply_inv :
      (e : Election) (resp : RequestVoteResponse) (n : Node) → P n → P (check_reply e resp n).0
  unfolding check_reply
  check_reply_inv e resp n h =
      elim (Bool-cases (not (n.current_term == e.term) || not (is_candidate n.state))) [
        | inl other ↦ rw other h
        | inr same ↦ elim (Bool-cases (ltb n.current_term resp.term)) [
          | inl newer ↦ rw (same, newer) (spares.stepped resp.term n (ground arith) h)
          | inr old ↦ rw (same, old) h
        ]
      ]

  pub advance_from_inv : (k : ℕ) (n : Node) → P n → Ensures P (advance_from k n)
  unfolding advance_from
  advance_from_inv zero n h = Ensures-if P _ none (some n) tt h
  advance_from_inv (suc index) n h =
      Ensures-if P (ltb_ℤ n.commit_index (pos index)) _ (some n)
        (Ensures-then P (get_elem? n.log index) _ λ entry.
          Ensures-if P _ (some (commit_to (pos index) n)) _
            (spares.committed (pos index) n (λ _. omega arith) h) (advance_from_inv index n h))
        h

  pub apply_loop_inv : (fuel : ℕ) (n : Node) → P n → Ensures P (apply_loop fuel n)
  unfolding apply_loop
  apply_loop_inv zero n h = h
  apply_loop_inv (suc fuel) n h = elim (Bool-cases (has_unapplied n)) [
    | inl more ↦
        rw (more, apply_loop)
          (Ensures-bind P P (apply_next n) (apply_loop fuel) (spares.applied n h)
            (apply_loop_inv fuel))
    | inr done ↦ rw (done, apply_loop) h
  ]

  record_match_inv :
      Indexes
      → (peer : String) (req : AppendEntriesRequest) (n : Node) → P n
      → P (record_match peer req n)
  unfolding record_match
  record_match_inv ix peer req n h = spares.indexed ix _ _ n h

  back_off_inv : Indexes → (task : PeerTask) (n : Node) → P n → P (back_off task n)
  unfolding back_off
  back_off_inv ix task n h = if_both P _ _ n (spares.indexed ix _ n.match_index n h) h

  pub finish_replication_inv :
      Indexes
      → (task : PeerTask) (req : AppendEntriesRequest) (resp : AppendEntriesResponse) (n : Node)
      → P n
      → Ensures P (finish_replication task req resp n)
  unfolding finish_replication advance_commit_index
  finish_replication_inv ix task req resp n h = elim (Bool-cases (ltb n.current_term resp.term)) [
    | inl newer ↦
        Ensures-if P (not (is_current task n)) (some n) _ h
          (rw newer (spares.stepped resp.term n (ground arith) h))
    | inr old ↦
        let matched = record_match task.peer_id req n in
        Ensures-if P (not (is_current task n)) (some n) _ h (
          rw old (
            Ensures-if P resp.success _ _
              (Ensures-if P (has_entries req.entries) _ (some n)
                (advance_from_inv (length matched.log) matched
                  (record_match_inv ix task.peer_id req n h))
                h)
              (back_off_inv ix task n h)))
  ]

module _ (P : Node → Type 0) (keeps : Keeps P) where
  -- A node that does not lead.
  abbrev Apart : Node → Type 0
  Apart n = P n × (is_leader n.state ≡ false)

  adopted-Apart :
      (req : AppendEntriesRequest) (n : Node)
      → n.current_term ≤ req.term
      → P n
      → Apart (adopt_leader req n)
  adopted-Apart req n le h = (keeps.adopted req n le h, adopt_leader-follows req n)

  update_commit-Apart :
      (req : AppendEntriesRequest) (n : Node) → Apart n → Apart (update_commit req n)
  update_commit-Apart req n (h, other) = (
    update_commit_inv P (Unit {0}) (Keeps-Spares P keeps) req n h,
    update_commit-follows req n other,
  )

  pub entries_inv :
      (req : AppendEntriesRequest) (n : Node)
      → P n
      → Ensures (λ (r : Node × AppendEntriesResponse). P r.0) (handle_append_entries req n)
  unfolding push write
  entries_inv req n h =
      handle_append_entries_inv Apart (λ e m k. (keeps.pushed e m k.0, k.1))
        (λ i m k. (keeps.cut i m k.1 k.0, k.1)) req P (λ m k. k.0) (adopted-Apart req)
        (update_commit-Apart req) n h

  pub begin_client_req_inv : (req : ClientReq) (n : Node) → P n → P (begin_client_req req n).0
  unfolding begin_client_req
  begin_client_req_inv req n h = elim (Bool-cases (not (is_leader n.state))) [
    | inl other ↦ rw other h
    | inr leads ↦ rw leads (keeps.pushed (client_entry req n) n h)
  ]
