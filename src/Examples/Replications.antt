-- ===== src/Examples/Replications.antt =====
-- The leader "a" replicates to the follower of `Examples.Logs`.
use orris.Prelude.{
  [], ◌∷◌, ◌≡◌, refl, true, some, ◌-◌, arith, pos, length, take, drop, ◌+ℤ◌, ◌-ℤ◌, lookup,
  minus_one,
}
use orris.Transport.{AppendEntriesResponse}
use orris.Raft.State.{Node, int_at}
use orris.Raft.Vote.{step_down}
use orris.Raft.Append.{
  truncate, push, push_all, append_entries, adopt_leader, has_previous, check_previous,
  update_commit, acceptance, refusal, handle_append_entries,
}
use orris.Raft.Append.Agreement.{terms}
use orris.Raft.Replication.{PeerTask, append_request}
use orris.Raft.Replication.Exchange.{Recorded, accepted_replicates}
use orris.Raft.Replication.CatchUp.{catch_up, catch_up-accepts}
use orris.Examples.Logs.{leading, behind, result_or}

abbrev to_b : PeerTask
to_b = record { peer_id = "b"; peer_addr = "b:1"; next = pos 1; term = 2; commit_index = minus_one }

abbrev received : Node × AppendEntriesResponse
received =
    result_or (behind, refusal behind) (handle_append_entries (append_request to_b leading) behind)

received-reached :
    handle_append_entries (append_request to_b leading) behind ≡ some (received.0, received.1)
unfolding handle_append_entries check_previous has_previous append_entries adopt_leader step_down
    ◌+ℤ◌ ◌-ℤ◌ truncate update_commit acceptance push_all push append_request
received-reached = refl

received-success : received.1.success ≡ true
unfolding handle_append_entries check_previous has_previous append_entries adopt_leader step_down
    ◌+ℤ◌ ◌-ℤ◌ truncate update_commit acceptance push_all push append_request
received-success = refl

accepted_replicates_example :
    (terms (take (length leading.log - 1) (drop 1 received.0.log)) ≡ terms (drop 1 leading.log))
    × (take 1 received.0.log ≡ take 1 behind.log)
    × Recorded to_b 1 leading refl received.1 leading
accepted_replicates_example =
    accepted_replicates to_b 1 leading refl behind received.0 leading received.1 (omega arith)
      received-reached received-success refl refl (omega arith)

-- It starts at the end of its log and backs off twice.
abbrev eager : Node
eager = record leading { next_index = ("b", pos 3) ∷ ("c", pos 3) ∷ [] }

b_next : int_at (lookup "b" eager.next_index) ≡ pos 3
unfolding lookup
b_next = refl

catch_up-accepts_example : (r : Node × Node) × (catch_up 4 "b" "b:1" eager behind ≡ some r)
catch_up-accepts_example = catch_up-accepts 3 "b" "b:1" eager behind refl b_next (omega arith)
