-- ===== src/Raft/Apply.antt =====
pub mod Prefix
-- `applyCommittedEntries` of internal/raft/apply.go.
use orris.Prelude.{
  ℕ, zero, suc, Bool, true, false, ◌&&◌, Option, some, ◌==◌, string_eq, if◌then◌else◌, ◌>>=◌,
  length, at, pos, ltb_ℤ, ◌+ℤ◌,
}
use orris.Kv
use orris.Kv.{Store}
use orris.Storage.{LogEntry, op_set, op_delete}
use orris.Raft.State.{Node, last_index}

-- An operation that is neither SET nor DELETE changes nothing.
unfoldable pub apply_entry : LogEntry → Store → Store
apply_entry entry store =
    if entry.operation == op_set
    then Kv.set store entry.key entry.value
    else if entry.operation == op_delete
    then Kv.delete store entry.key
    else store

unfoldable pub has_unapplied : Node → Bool
unfolding last_index
has_unapplied n = ltb_ℤ n.last_applied n.commit_index && ltb_ℤ n.last_applied (last_index n)

-- The loop's body; none is a panic at a negative index.
unfoldable pub apply_next : Node → Option Node
apply_next n = do
  let index = n.last_applied +ℤ pos 1
  entry ← at n.log index
  some (record n { last_applied = index; kv_store = apply_entry entry n.kv_store })

unfoldable pub apply_loop : ℕ → Node → Option Node
apply_loop zero n = some n
apply_loop (suc fuel) n = elim (has_unapplied n) [
  | true ↦ apply_next n >>= apply_loop fuel
  | false ↦ some n
]

-- There are no more rounds than entries, from an index of -1 on.
unfoldable pub apply_committed_entries : Node → Option Node
apply_committed_entries n = apply_loop (suc (length n.log)) n
