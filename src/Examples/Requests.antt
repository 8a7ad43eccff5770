-- ===== src/Examples/Requests.antt =====
-- A client writes to the leader "a", the follower "b" confirms, and the wait ends.
use orris.Prelude.{
  ◌≡◌, refl, arith, true, false, some, List, [], ◌∷◌, pos, minus_one, ◌≤ℤ◌, ◌+ℤ◌, ◌-ℤ◌, insert,
  get_elem?,
}
use orris.Storage.{op_set}
use orris.Raft.State.{Node, ClientReq, leader, blank, state_record}
use orris.Raft.Append.{push}
use orris.Raft.Client.{Pending, committed, client_entry, begin_client_req, poll_client_req}
use orris.Raft.Recovery.{replay, recover_record}
use orris.Raft.Recovery.Restores.{IsRecoverable}
use orris.Raft.Replication.{PeerTask, append_request, finish_replication, record_match}
use orris.Raft.Commit.{advance_commit_index, advance_from, is_replicated, count_matches, commit_to}
use orris.Raft.Steps.{Event, peer_replied, run, step}
use orris.Raft.Steps.Waits.{client_reply}
use orris.Examples.Nodes.{started, or_started}

abbrev elected : Node
elected = record started {
  state = leader;
  durable = record blank { current_term = 1; voted_for = "a" };
  next_index = ("b", pos 0) ∷ ("c", pos 0) ∷ [];
  match_index = ("b", minus_one) ∷ ("c", minus_one) ∷ [];
  wal = record { records = state_record 1 "a" ∷ []; is_open = true };
}

elected-IsRecoverable : IsRecoverable elected
unfolding replay recover_record
elected-IsRecoverable = record {
  is_open = refl;
  restores = record { term = refl; vote = refl; log = refl; commit = omega arith };
}

abbrev set_x : ClientReq
set_x = record { op = op_set; key = "x"; value = "one" }

abbrev its_place : Pending
its_place = record { idx = 0; term = 1 }

accepted : (begin_client_req set_x elected).1 ≡ some its_place
unfolding begin_client_req
accepted = refl

abbrev appended : Node
appended = (begin_client_req set_x elected).0

abbrev to_b : PeerTask
to_b = record { peer_id = "b"; peer_addr = "b:1"; next = pos 0; term = 1; commit_index = minus_one }

-- "b" has appended the entry.
abbrev confirmed : List Event
confirmed =
    peer_replied to_b (append_request to_b appended)
      (record { term = 1; success = true; match_index = pos 0 })
    ∷ []

abbrev replicated : Node
replicated = or_started (run confirmed appended)

replicated-reached : run confirmed appended ≡ some replicated
unfolding run step finish_replication advance_commit_index advance_from record_match append_request
    begin_client_req push is_replicated count_matches client_entry insert ◌+ℤ◌ ◌-ℤ◌
replicated-reached = refl

replied : poll_client_req its_place false replicated ≡ committed
unfolding run step finish_replication advance_commit_index advance_from record_match append_request
    begin_client_req push is_replicated count_matches poll_client_req commit_to client_entry insert
    ◌+ℤ◌ ◌-ℤ◌
replied = refl

client_reply_example :
    (get_elem? replicated.log 0 ≡ some (client_entry set_x elected))
    × (pos 0 ≤ℤ replicated.commit_index)
client_reply_example =
    client_reply set_x elected replicated its_place confirmed false elected-IsRecoverable accepted
      replicated-reached replied
