-- ===== src/Raft/Append/Joined.antt =====
-- Who follows whom after `HandleAppendEntries`: a request is refused as one of an earlier term, or its sender is
-- the node's leader now.
use orris.Prelude.{
  ℕ, ◌≡◌, ◌≤◌, ◌⊎◌, inl, inr, refl, true, ap, subst, some, arith, ltb, Bool-cases, if_both, ◌+ℤ◌,
  pos, ltb_ℤ,
}
use orris.Transport.{AppendEntriesRequest, AppendEntriesResponse}
use orris.Raft.State.{Node, follower, write, reset_election_timer}
use orris.Raft.Vote.{step_down}
use orris.Raft.Append.{
  push, adopt_leader, update_commit, handle_append_entries, refusal, acceptance, check_previous,
  append_entries,
}
use orris.Raft.Append.Invariant.{
  Ensures, Ensures-if, Ensures-then, Ensures-some, handle_append_entries_inv,
}
use orris.Raft.Append.Outcome.{Outcome, handle_append_entries-Handled}

-- It follows the leader of the request's term.
abbrev pub Joined : AppendEntriesRequest → Node → Node → Type 0
Joined req n m = (n.current_term ≤ req.term) × (m.current_term ≡ req.term) × (m.state ≡ follower)

adopt_leader-Joined :
    (req : AppendEntriesRequest) (n : Node)
    → n.current_term ≤ req.term
    → ((adopt_leader req n).current_term ≡ req.term) × ((adopt_leader req n).state ≡ follower)
unfolding adopt_leader step_down reset_election_timer
adopt_leader-Joined req n le = elim (Bool-cases (ltb n.current_term req.term)) [
  | inl newer ↦ rw newer (refl, refl)
  | inr same ↦ rw same (ground (arith, same, le), refl)
]

update_commit-Joined :
    (req : AppendEntriesRequest) (n m : Node) → Joined req n m → Joined req n (update_commit req m)
unfolding update_commit
update_commit-Joined req n m h =
    if_both (Joined req n) (ltb_ℤ m.commit_index req.leader_commit) _ m h h

-- The request is refused as one of an earlier term, or the node follows its sender.
pub received-either :
    (req : AppendEntriesRequest) (n m : Node) (resp : AppendEntriesResponse)
    → handle_append_entries req n ≡ some (m, resp)
    → (m ≡ n) ⊎ Joined req n m
unfolding push write
received-either req n m resp ran =
    let Either : Node → Type 0 = λ l. (l ≡ n) ⊎ Joined req n l in
    Ensures-some (λ (r : Node × AppendEntriesResponse). Either r.0) (handle_append_entries req n)
      (m, resp) ran
      (handle_append_entries_inv (Joined req n) (λ e l h. h) (λ k l h. h) req Either (λ l. inr)
        (λ l le h. elim h [
          | inl same ↦
              let (term, state) = adopt_leader-Joined req l le in (rw (← same) le, term, state)
          | inr (before, _, _) ↦
              let (term, state) = adopt_leader-Joined req l le in (before, term, state)
        ])
        (update_commit-Joined req n) n (inl refl))

reply-Ensures :
    (req : AppendEntriesRequest) (n : Node)
    → Ensures
        (λ (r : Node × AppendEntriesResponse). r.1.term ≡ r.0.current_term)
        (handle_append_entries req n)
unfolding handle_append_entries acceptance refusal
reply-Ensures req n =
    let P : Node × AppendEntriesResponse → Type 0 = λ r. r.1.term ≡ r.0.current_term in
    Ensures-if P (ltb req.term n.current_term) _ _ refl (
      Ensures-then P (check_previous req (adopt_leader req n)) _ λ r.
        Ensures-if P r.1 _ _
          (Ensures-then P (append_entries (req.prev_log_index +ℤ pos 1) req.entries r.0) _
            λ m. refl)
          refl)

accepted_current :
    (k : ℕ) (req : AppendEntriesRequest) (n m : Node) (resp : AppendEntriesResponse)
    → resp.success ≡ true
    → Outcome k req n (m, resp)
    → n.current_term ≤ req.term
accepted_current k req n m resp won (inl (_, refused, _)) = absurd (cc (won, refused))
accepted_current k req n m resp won (inr (inl (current, _, _, _))) = current
accepted_current k req n m resp won (inr (inr (current, _, _, _))) = current

-- An acceptance has no later term than the request.
pub accepted_term :
    (k : ℕ) (req : AppendEntriesRequest) (n m : Node) (resp : AppendEntriesResponse)
    → req.prev_log_index +ℤ pos 1 ≡ pos k
    → handle_append_entries req n ≡ some (m, resp)
    → resp.success ≡ true
    → resp.term ≤ req.term
accepted_term k req n m resp start ran won =
    let term : resp.term ≡ m.current_term =
      Ensures-some (λ (r : Node × AppendEntriesResponse). r.1.term ≡ r.0.current_term)
        (handle_append_entries req n) (m, resp) ran (reply-Ensures req n) in
    let (r, ran', outcome) = handle_append_entries-Handled k req n start in
    let same : r ≡ (m, resp) = cc (ran, ran') in
    let current = accepted_current k req n m resp won (subst (Outcome k req n) same outcome) in
    elim (received-either req n m resp ran) [
      | inl stays ↦ omega (arith, term, current, ap (λ (l : Node). l.current_term) stays)
      | inr (_, joined, _) ↦ omega (arith, term, joined)
    ]
