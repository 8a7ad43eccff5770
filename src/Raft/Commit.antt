-- ===== src/Raft/Commit.antt =====
pub mod Majority
-- `advanceCommitIndex` of internal/raft/replication.go.
use orris.Prelude.{
  ℕ, zero, suc, ◌+◌, ◌/◌, Bool, ◌&&◌, Option, none, some, [], ◌∷◌, ltb, ◌==◌, nat_eq, if◌then◌else◌,
  ◌>>=◌, length, get_elem?, pos, minus_one, ℤ, ltb_ℤ, leb_ℤ, Map,
}
use orris.Raft.State.{Node, write, commit_record, notify_apply}

-- The peers that are known to hold the entry at `N`.
unfoldable pub count_matches : ℤ → Map ℤ → ℕ
count_matches index [] = 0
count_matches index ((_, match) ∷ rest) =
    if leb_ℤ index match then suc (count_matches index rest) else count_matches index rest

-- `count > (len(n.Peers)+1)/2`, the node itself counted.
unfoldable pub is_replicated : ℤ → Node → Bool
unfolding count_matches
is_replicated index n = ltb ((length n.peers + 1) / 2) (1 + count_matches index n.match_index)

unfoldable pub commit_to : ℤ → Node → Node
unfolding write notify_apply
commit_to index n =
    notify_apply (
      write (commit_record index)
        (record n { durable = record n.durable { commit_index = index } }))

-- The loop, with `N + 1` rounds left: `N` falls from the last index to the one above the commit index.
unfoldable pub advance_from : ℕ → Node → Option Node
advance_from zero n = if ltb_ℤ n.commit_index minus_one then none else some n
advance_from (suc index) n =
    let next = advance_from index n in
    if ltb_ℤ n.commit_index (pos index)
    then (do
      entry ← get_elem? n.log index
      if entry.term == n.current_term && is_replicated (pos index) n
          then some (commit_to (pos index) n)
          else next)
    else some n

unfoldable pub advance_commit_index : Node → Option Node
advance_commit_index n = advance_from (length n.log) n
