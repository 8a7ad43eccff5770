-- ===== src/Examples/Logs.antt =====
-- The log of node "a": entries that arrive, are committed and applied.
use Prim.Native.Nat.{min, max}
use orris.Prelude.{
  ◌≡◌, sym, refl, true, some, none, Option, List, [], ◌∷◌, pos, minus_one, arith, take, drop,
  length, ◌+ℤ◌, int_laws,
}
use orris.Storage.{LogEntry}
use orris.Transport.{AppendEntriesRequest, AppendEntriesResponse}
use orris.Raft.State.{Node, leader}
use orris.Raft.Vote.{step_down}
use orris.Raft.Append.{
  truncate, push, push_all, append_entries, adopt_leader, has_previous, check_previous,
  update_commit, acceptance, refusal, handle_append_entries,
}
use orris.Raft.Append.Merge.{Merges, append_entries-Merges}
use orris.Raft.Append.Agreement.{terms, accepted_agrees, accepted_again}
use orris.Raft.Commit.{advance_commit_index}
use orris.Raft.Commit.Majority.{Advances, advance_commit_index-Advances}
use orris.Raft.Apply.{apply_committed_entries}
use orris.Raft.Apply.Prefix.{
  IsApplied, applied_to, apply_committed_entries-IsApplied, state_at-zero,
}
use orris.Kv.{new_store}
use orris.Examples.Nodes.{started, set_at}

-- Two entries of term 1; the leader of term 2 replaces the second and adds a third.
abbrev old_log : List LogEntry
old_log = set_at (pos 0) 1 "one" ∷ set_at (pos 1) 1 "two" ∷ []

abbrev pub behind : Node
behind = record started { durable = record started.durable { log = old_log; current_term = 1 } }

abbrev new_entries : List LogEntry
new_entries = set_at (pos 1) 2 "new" ∷ set_at (pos 2) 2 "three" ∷ []

abbrev pub replacement : AppendEntriesRequest
replacement = record {
  term = 2;
  leader_id = "b";
  prev_log_index = pos 0;
  prev_log_term = 1;
  entries = new_entries;
  leader_commit = pos 1;
}

start : replacement.prev_log_index +ℤ pos 1 ≡ pos 1
start = omega int_laws

append_entries-Merges_example :
    Merges 1 new_entries behind (append_entries (pos 1) new_entries behind)
append_entries-Merges_example = append_entries-Merges new_entries 1 behind (omega arith)

abbrev pub result_or :
    Node × AppendEntriesResponse
    → Option (Node × AppendEntriesResponse)
    → Node × AppendEntriesResponse
result_or d none = d
result_or d (some r) = r

abbrev pub first : Node × AppendEntriesResponse
first = result_or (behind, refusal behind) (handle_append_entries replacement behind)

abbrev second : Node × AppendEntriesResponse
second = result_or (behind, refusal behind) (handle_append_entries replacement first.0)

pub first-reached : handle_append_entries replacement behind ≡ some (first.0, first.1)
unfolding handle_append_entries check_previous has_previous append_entries adopt_leader step_down
    ◌+ℤ◌ truncate update_commit acceptance push_all push
first-reached = refl

first-success : first.1.success ≡ true
unfolding handle_append_entries check_previous has_previous append_entries adopt_leader step_down
    ◌+ℤ◌ truncate update_commit acceptance push_all push
first-success = refl

second-reached : handle_append_entries replacement first.0 ≡ some (second.0, second.1)
unfolding handle_append_entries check_previous has_previous append_entries adopt_leader step_down
    ◌+ℤ◌ truncate update_commit acceptance push_all push
second-reached = refl

second-success : second.1.success ≡ true
unfolding handle_append_entries check_previous has_previous append_entries adopt_leader step_down
    ◌+ℤ◌ truncate update_commit acceptance push_all push
second-success = refl

accepted_agrees_example :
    (take 1 first.0.log ≡ take 1 old_log)
    × (terms (take (length new_entries) (drop 1 first.0.log)) ≡ terms new_entries)
accepted_agrees_example =
    accepted_agrees 1 replacement behind first.0 first.1 start first-reached first-success

accepted_again_example : second.0.log ≡ first.0.log
accepted_again_example =
    accepted_again 1 replacement behind first.0 second.0 first.1 second.1 start first-reached
      first-success second-reached second-success

-- A leader of term 2 whose third entry, of this term, is on "b" too.
abbrev pub leading : Node
leading = record behind {
  state = leader;
  durable = record behind.durable { current_term = 2; log = set_at (pos 0) 1 "one" ∷ new_entries };
  match_index = ("b", pos 2) ∷ ("c", minus_one) ∷ [];
}

advance_commit_index-Advances_example : Advances leading (advance_commit_index leading)
advance_commit_index-Advances_example = advance_commit_index-Advances leading (omega arith)

-- Its first two entries are committed, and none applied yet.
abbrev committed : Node
committed = record leading { durable = record leading.durable { commit_index = pos 1 } }

committed-IsApplied : IsApplied 0 committed
unfolding new_store
committed-IsApplied = record { index = omega int_laws; store = sym (state_at-zero committed.log) }

two_committed : committed.commit_index +ℤ pos 1 ≡ pos 2
two_committed = omega int_laws

apply_committed_entries-IsApplied_example :
    apply_committed_entries committed
    ≡ some (applied_to (max 0 (min 2 (length committed.log))) committed)
apply_committed_entries-IsApplied_example =
    apply_committed_entries-IsApplied 2 0 committed two_committed committed-IsApplied
