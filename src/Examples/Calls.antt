-- ===== src/Examples/Calls.antt =====
-- Calls to node "a", over a wire that knows the envelopes that are sent here.
use orris.Prelude.{
  ◌-ℤ◌, ◌+ℤ◌, nat_eq, ◌≡◌, String, true, false, refl, Option, none, some, [], ◌∷◌, pos, ◌==◌,
  string_eq, if◌then◌else◌,
}
use orris.Transport.{
  RequestVoteResponse, AppendEntriesResponse, Rpc, empty_rpc, rpc_request_vote_req,
  rpc_request_vote_resp, rpc_append_entries_req, rpc_append_entries_resp,
}
use orris.Transport.Tcp.{
  Bytes, Wire, Handler, vote, entries, rpc_request, handle_conn, send_vote, send_entries,
}
use orris.Transport.Calls.{
  Decodes, vote_answer, entries_answer, connected, state_of, vote_call, entries_call,
}
use orris.Raft.State.{Node}
use orris.Raft.Vote.{handle_request_vote, cast_vote, can_vote, log_up_to_date, step_down}
use orris.Raft.Append.{
  truncate, push, push_all, append_entries, adopt_leader, has_previous, check_previous,
  update_commit, acceptance, handle_append_entries,
}
use orris.Examples.Nodes.{started, asks_for}
use orris.Examples.Logs.{replacement, behind, first, first-reached}

abbrev node_handler : Handler Node
node_handler = record {
  handle_request_vote = handle_request_vote;
  handle_append_entries = handle_append_entries;
}

abbrev granted : RequestVoteResponse
granted = record { term = 1; vote_granted = true }

abbrev zero_vote : RequestVoteResponse
zero_vote = record { term = 0; vote_granted = false }

abbrev zero_entries : AppendEntriesResponse
zero_entries = record { term = 0; success = false; match_index = pos 0 }

abbrev taken : AppendEntriesResponse
taken = record { term = 2; success = true; match_index = pos 2 }

-- One byte for each type of envelope, with the contents of the calls below.
abbrev encode_type : String → Bytes
encode_type type =
    if type == rpc_request_vote_req
    then 1 ∷ []
    else if type == rpc_request_vote_resp
    then 2 ∷ []
    else if type == rpc_append_entries_req
    then 3 ∷ []
    else if type == rpc_append_entries_resp
    then 4 ∷ []
    else if type == "NOISE"
    then 5 ∷ []
    else 6 ∷ []

abbrev decode_byte : Bytes → Option Rpc
decode_byte [] = none
decode_byte (byte ∷ _) =
    if byte == 1
    then some (rpc_request rpc_request_vote_req (vote (asks_for "b")))
    else if byte == 2
    then some (vote_answer granted)
    else if byte == 3
    then some (rpc_request rpc_append_entries_req (entries replacement))
    else if byte == 4
    then some (entries_answer taken)
    else if byte == 5
    then some (rpc_request "NOISE" (vote (asks_for "b")))
    else some (empty_rpc "")

abbrev small_wire : Wire
small_wire = record { encode = λ rpc. encode_type rpc.type; decode = decode_byte }

reply-Decodes : Decodes small_wire (vote_answer (handle_request_vote (asks_for "b") started).1)
unfolding handle_request_vote cast_vote can_vote log_up_to_date step_down
reply-Decodes = refl

vote_call_example :
    (send_vote small_wire
        (connected small_wire node_handler started)
        rpc_request_vote_req
        (vote (asks_for "b"))
        zero_vote
      ≡ some (handle_request_vote (asks_for "b") started).1)
    × (state_of (handle_conn small_wire node_handler (encode_type rpc_request_vote_req) started)
        ≡ some (handle_request_vote (asks_for "b") started).0)
vote_call_example =
    vote_call small_wire node_handler started (asks_for "b") zero_vote refl reply-Decodes

first-Decodes : Decodes small_wire (entries_answer first.1)
unfolding handle_append_entries check_previous has_previous append_entries adopt_leader step_down
    ◌+ℤ◌ truncate update_commit acceptance push_all push ◌-ℤ◌
first-Decodes = refl

entries_call_example :
    (send_entries small_wire
        (connected small_wire node_handler behind)
        rpc_append_entries_req
        (entries replacement)
        zero_entries
      ≡ some first.1)
    × (state_of (handle_conn small_wire node_handler (encode_type rpc_append_entries_req) behind)
        ≡ some first.0)
entries_call_example =
    entries_call small_wire node_handler behind replacement zero_entries first.1 first.0
      first-reached refl first-Decodes
