-- ===== src/Raft/Append/Invariant.antt =====
-- The rule for invariants of `HandleAppendEntries`: what each of its writes keeps, the handler keeps.
use orris.Prelude.{
  subst, negsuc, ℕ, ◌≡◌, ◌≤◌, Bool, true, false, Option, none, some, List, [], ◌∷◌, arith, ℤ, pos,
  ◌+ℤ◌, inl, inr, Bool-cases, at, length, ltb, ltb_ℤ, leb_ℤ, beq_ℤ, minus_one, ◌&&◌, if◌then◌else◌,
  ◌>>=◌, ◌==◌, nat_eq,
}
use orris.Storage.{LogEntry}
use orris.Transport.{AppendEntriesRequest, AppendEntriesResponse}
use orris.Raft.State.{Node}
use orris.Raft.Append.{
  truncate, push, push_all, append_entries, adopt_leader, has_previous, check_previous,
  first_terms_differ, update_commit, handle_append_entries, acceptance, refusal,
}
use orris.Raft.Append.Merge.{cut_to, truncate-pos}

-- Every node that a run may return satisfies `P`.
abbrev pub Ensures {ℓ κ} : {A : Type ℓ} → (A → Type κ) → Option A → Type κ
Ensures P none = Unit
Ensures P (some a) = P a

pub Ensures-bind {ℓ κ μ ν} :
    {A : Type ℓ} {B : Type κ} (P : A → Type μ) (Q : B → Type ν) (o : Option A) (f : A → Option B)
    → Ensures P o
    → ((a : A) → P a → Ensures Q (f a))
    → Ensures Q (o >>= f)
Ensures-bind P Q none f h k = tt
Ensures-bind P Q (some a) f h k = k a h

pub Ensures-then {ℓ κ ν} :
    {A : Type ℓ} {B : Type κ} (Q : B → Type ν) (o : Option A) (f : A → Option B)
    → ((a : A) → Ensures Q (f a))
    → Ensures Q (o >>= f)
Ensures-then Q none f k = tt
Ensures-then Q (some a) f k = k a

pub Ensures-if {ℓ κ} :
    {A : Type ℓ} (Q : A → Type κ) (b : Bool) (x y : Option A)
    → Ensures Q x
    → Ensures Q y
    → Ensures Q (if b then x else y)
Ensures-if Q true x y hx hy = hx
Ensures-if Q false x y hx hy = hy

pub Ensures-map {ℓ κ ν} :
    {A : Type ℓ} (P : A → Type κ) (Q : A → Type ν) (o : Option A)
    → ((a : A) → P a → Q a)
    → Ensures P o
    → Ensures Q o
Ensures-map P Q none f h = tt
Ensures-map P Q (some a) f h = f a h

pub Ensures-some {ℓ κ} :
    {A : Type ℓ} (P : A → Type κ) (o : Option A) (a : A) → o ≡ some a → Ensures P o → P a
Ensures-some P o a e h = subst (Ensures P) e h

module _ (P : Node → Type 0) (pushed : (e : LogEntry) (n : Node) → P n → P (push e n))
    (cut : (k : ℕ) (n : Node) → P n → P (cut_to k n)) where
  truncate_inv : (idx : ℤ) (n : Node) → P n → Ensures P (truncate idx n)
  truncate_inv (pos k) n h = rw truncate-pos (cut k n h)
  truncate_inv (negsuc k) n h = unfold truncate in tt

  push_all_inv : (es : List LogEntry) (n : Node) → P n → P (push_all es n)
  unfolding push_all
  push_all_inv [] n h = h
  push_all_inv (e ∷ es) n h = push_all_inv es (push e n) (pushed e n h)

  append_entries_inv :
      (es : List LogEntry) (idx : ℤ) (n : Node) → P n → Ensures P (append_entries idx es n)
  unfolding append_entries
  append_entries_inv [] idx n h = h
  append_entries_inv (e ∷ es) idx n h =
      let next = append_entries_inv es (idx +ℤ pos 1) in
      Ensures-if P (ltb_ℤ idx (pos (length n.log))) _ _
        (Ensures-then P (at n.log idx) _ λ old.
          Ensures-if P (old.term == e.term) _ _ (next n h)
            (Ensures-bind P P (truncate idx n) _ (truncate_inv idx n h) (push_all_inv (e ∷ es))))
        (next (push e n) (pushed e n h))

  check_previous_inv :
      (req : AppendEntriesRequest) (n : Node)
      → P n
      → Ensures (λ (r : Node × Bool). P r.0) (check_previous req n)
  unfolding check_previous
  check_previous_inv req n h =
      let Q : Node × Bool → Type 0 = λ r. P r.0 in
      let size = pos (length n.log) in
      let cut_at : (idx : ℤ) (flag : Bool) → Ensures Q (truncate idx n >>= λ m. some (m, flag)) =
        λ idx flag. Ensures-bind P Q (truncate idx n) _ (truncate_inv idx n h) (λ m k. k) in
      Ensures-if Q (leb_ℤ (pos 0) req.prev_log_index) _ _
        (Ensures-then Q (has_previous req n) _ λ found.
          Ensures-if Q found _ _ h
            (cut_at (if ltb_ℤ size req.prev_log_index then size else req.prev_log_index) false))
        (Ensures-if Q (beq_ℤ req.prev_log_index minus_one && first_terms_differ req.entries n.log) _
          _ (cut_at (pos 0) true) h)

  module _ (req : AppendEntriesRequest) (Q : Node → Type 0) (weaker : (n : Node) → P n → Q n)
      (adopted : (n : Node) → n.current_term ≤ req.term → Q n → P (adopt_leader req n))
      (updated : (n : Node) → P n → P (update_commit req n)) where
    abbrev Replied : Node × AppendEntriesResponse → Type 0
    Replied r = P r.0

    finish_inv :
        (c : Node) (may_append : Bool)
        → P c
        → Ensures Replied (
            if may_append
            then (append_entries (req.prev_log_index +ℤ pos 1) req.entries c >>= λ m.
                some (update_commit req m, acceptance (update_commit req m)))
            else some (c, refusal c))
    finish_inv c may_append h =
        Ensures-if Replied may_append _ _
          (Ensures-bind P Replied (append_entries (req.prev_log_index +ℤ pos 1) req.entries c) _
            (append_entries_inv req.entries (req.prev_log_index +ℤ pos 1) c h) updated)
          h

    -- The handler keeps `Q` if its first write makes `P` of it.
    pub handle_append_entries_inv :
        (n : Node)
        → Q n
        → Ensures (λ (r : Node × AppendEntriesResponse). Q r.0) (handle_append_entries req n)
    unfolding handle_append_entries
    handle_append_entries_inv n h = elim (Bool-cases (ltb req.term n.current_term)) [
      | inl over ↦ rw over h
      | inr current ↦
          let start = adopted n (ground arith) h in
          let replies : Node × AppendEntriesResponse → Type 0 = λ r. Q r.0 in
          rw current (
            Ensures-bind (λ (r : Node × Bool). P r.0) replies
              (check_previous req (adopt_leader req n)) _
              (check_previous_inv req (adopt_leader req n) start)
              (λ r k. Ensures-map Replied replies _ (λ a. weaker a.0) (finish_inv r.0 r.1 k)))
    ]
