-- ===== src/Raft/Apply/Prefix.antt =====
-- The store as a function of the log and of how much of it has been applied.
use native.Mathlib.Decide.{dec_lt}
use Prim.Native.Nat.{min, max}
use mathlib.Core.List.{foldl-append}
use orris.Prelude.{
  pred_parts, -ℤ_parts, pred_eq, pred_succ, succ_pred, ℕ, zero, suc, ◌+◌, ◌≡◌, ◌≤◌, ◌<◌, refl, sym,
  ap, true, false, some, List, foldl, arith, length, take, get_elem?, pos, ◌+ℤ◌, ◌-ℤ◌, get_elem?_lt,
  take-suc,
}
use orris.Kv.{Store, new_store}
use orris.Storage.{LogEntry}
use orris.Raft.State.{Node}
use orris.Raft.Apply.{apply_entry, has_unapplied, apply_next, apply_loop, apply_committed_entries}

-- The store after the first entries of a log.
pub state_at : ℕ → List LogEntry → Store
state_at k log = foldl (λ s e. apply_entry e s) new_store (take k log)

pub state_at-zero : (log : List LogEntry) → state_at 0 log ≡ new_store
unfolding state_at
state_at-zero log = refl

pub state_at-suc :
    (k : ℕ) (log : List LogEntry) (e : LogEntry)
    → get_elem? log k ≡ some e
    → state_at (suc k) log ≡ apply_entry e (state_at k log)
unfolding state_at
state_at-suc k log e got = rw (take-suc k log e got, foldl-append)

-- The first `k` entries of the log have been applied, and no others.
pub record IsApplied (k : ℕ) (n : Node) : Type 0 where
  pub index : n.last_applied +ℤ pos 1 ≡ pos k
  pub store : n.kv_store ≡ state_at k n.log

-- The node with the first `k` entries applied.
abbrev pub applied_to : ℕ → Node → Node
applied_to k n = record n { last_applied = pos k -ℤ pos 1; kv_store = state_at k n.log }

pub applied_to-IsApplied : (k : ℕ) (n : Node) → IsApplied k (applied_to k n)
applied_to-IsApplied k n = record { index = succ_pred k; store = refl }

pub IsApplied-eq : (k : ℕ) (n : Node) → IsApplied k n → applied_to k n ≡ n
IsApplied-eq k n h = ground (arith, pred_eq n.last_applied k h.index, h.store)

module _ (c k : ℕ) (n : Node) (hc : n.commit_index +ℤ pos 1 ≡ pos c) (h : IsApplied k n) where
  unapplied : k < c → k < length n.log → has_unapplied n ≡ true
  unfolding has_unapplied
  unapplied below inside = ground (
    arith,
    pred_parts n.commit_index c hc,
    pred_parts n.last_applied k h.index,
    -ℤ_parts (pos (length n.log)) (pos 1),
  )

  all_applied : min c (length n.log) ≤ k → has_unapplied n ≡ false
  unfolding has_unapplied
  all_applied done = ground (
    arith,
    pred_parts n.commit_index c hc,
    pred_parts n.last_applied k h.index,
    -ℤ_parts (pos (length n.log)) (pos 1),
  )

apply_next-IsApplied :
    (k : ℕ) (n : Node)
    → IsApplied k n
    → k < length n.log
    → apply_next n ≡ some (applied_to (suc k) n)
unfolding apply_next
apply_next-IsApplied k n h inside =
    let (e, got) = get_elem?_lt k n.log inside in
    rw (h.index, got) (ground (arith, pred_succ k, h.store, state_at-suc k n.log e got))

apply_loop-IsApplied :
    (fuel c k : ℕ) (n : Node)
    → n.commit_index +ℤ pos 1 ≡ pos c
    → IsApplied k n
    → length n.log < fuel + k
    → apply_loop fuel n ≡ some (applied_to (max k (min c (length n.log))) n)
unfolding apply_loop
apply_loop-IsApplied zero c k n hc h enough =
    let here : max k (min c (length n.log)) ≡ k = omega arith in
    ap some (rw here (sym (IsApplied-eq k n h)))
apply_loop-IsApplied (suc fuel) c k n hc h enough = elim (dec_lt k (min c (length n.log))) [
  | yes more ↦
      let rest =
        apply_loop-IsApplied fuel c (suc k) (applied_to (suc k) n) hc
          (applied_to-IsApplied (suc k) n) (omega arith) in
      let reached : max (suc k) (min c (length n.log)) ≡ max k (min c (length n.log)) =
        omega arith in
      rw
        (
          unapplied c k n hc h (omega arith) (omega arith),
          apply_loop,
          apply_next-IsApplied k n h (omega arith),
          ← reached,
        )
        rest
  | no done ↦
      let here : max k (min c (length n.log)) ≡ k = omega arith in
      rw (all_applied c k n hc h (omega arith), apply_loop, here)
        (ap some (sym (IsApplied-eq k n h)))
]

-- With the first `k` entries applied and a commit index of `c - 1`, the apply loop does not panic, and
-- ends with exactly the committed entries that the log holds applied, in order and each once (and no
-- fewer than before): the bound on its rounds is never what stops it. It changes only the store and
-- LastApplied.
pub apply_committed_entries-IsApplied :
    (c k : ℕ) (n : Node)
    → n.commit_index +ℤ pos 1 ≡ pos c
    → IsApplied k n
    → apply_committed_entries n ≡ some (applied_to (max k (min c (length n.log))) n)
unfolding apply_committed_entries
apply_committed_entries-IsApplied c k n hc h =
    apply_loop-IsApplied (suc (length n.log)) c k n hc h (omega arith)
