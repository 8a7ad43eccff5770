-- ===== src/Transport/Calls.antt =====
-- A call through `SendRPC` and `handleConn`, against the handler that it is meant to reach.
use orris.Prelude.{String, ◌≡◌, ◌≢◌, refl, Option, none, some, arith, false, ◌==◌, string_eq}
use text.Mathlib.TextEquality.{eq_iff}
use orris.Transport.{
  RequestVoteRequest, RequestVoteResponse, AppendEntriesRequest, AppendEntriesResponse, Rpc,
  empty_rpc, rpc_request_vote_req, rpc_request_vote_resp, rpc_append_entries_req,
  rpc_append_entries_resp,
}
use orris.Transport.Tcp.{
  Bytes, Wire, Handler, vote, entries, rpc_request, serve, handle_conn, send_vote, send_entries,
}

-- gob decodes this envelope to itself.
abbrev pub Decodes : Wire → Rpc → Type 0
Decodes wire rpc = wire.decode (wire.encode rpc) ≡ some rpc

abbrev pub vote_answer : RequestVoteResponse → Rpc
vote_answer resp = record (empty_rpc rpc_request_vote_resp) { rv_resp = some resp }

abbrev pub entries_answer : AppendEntriesResponse → Rpc
entries_answer resp = record (empty_rpc rpc_append_entries_resp) { ae_resp = some resp }

module _ {S : Type 0} where
  -- What comes back to the caller of a served connection.
  abbrev pub answer_of : Option (S × Option Bytes) → Option Bytes
  answer_of none = none
  answer_of (some (_, answer)) = answer

  abbrev pub state_of : Option (S × Option Bytes) → Option S
  state_of none = none
  state_of (some (s, _)) = some s

  module _ (wire : Wire) (handler : Handler S) (s : S) where
    -- The connection of a caller to this server.
    abbrev pub connected : Bytes → Option Bytes
    connected bytes = answer_of (handle_conn wire handler bytes s)

    -- A vote request sent to a server reaches its handler, and the caller gets the handler's reply, where
    -- gob decodes the two envelopes to what was encoded.
    pub vote_call :
        (req : RequestVoteRequest) (old : RequestVoteResponse)
        → Decodes wire (rpc_request rpc_request_vote_req (vote req))
        → Decodes wire (vote_answer (handler.handle_request_vote req s).1)
        → (send_vote wire connected rpc_request_vote_req (vote req) old
            ≡ some (handler.handle_request_vote req s).1)
          × (state_of (
                handle_conn wire handler
                  (wire.encode (rpc_request rpc_request_vote_req (vote req)))
                  s)
              ≡ some (handler.handle_request_vote req s).0)
    unfolding send_vote handle_conn serve
    vote_call req old there back = (rw (there, back) refl, rw there refl)

    -- An AppendEntries request sent to a server reaches its handler, and the caller gets the handler's
    -- reply, where the handler does not panic and gob decodes the two envelopes to what was encoded.
    pub entries_call :
        (req : AppendEntriesRequest) (old resp : AppendEntriesResponse) (s' : S)
        → handler.handle_append_entries req s ≡ some (s', resp)
        → Decodes wire (rpc_request rpc_append_entries_req (entries req))
        → Decodes wire (entries_answer resp)
        → (send_entries wire connected rpc_append_entries_req (entries req) old ≡ some resp)
          × (state_of (
                handle_conn wire handler
                  (wire.encode (rpc_request rpc_append_entries_req (entries req)))
                  s)
              ≡ some s')
    unfolding send_entries handle_conn serve
    entries_call req old resp s' ran there back = (rw (there, ran, back) refl, rw (there, ran) refl)

    -- A vote request under a type that is neither of the two calls no handler, and the caller gets no
    -- error: the reply that it passed in stays. gob decodes the two envelopes to what was encoded.
    unknown_call :
        (type : String) (req : RequestVoteRequest) (old : RequestVoteResponse)
        → type ≢ rpc_request_vote_req
        → type ≢ rpc_append_entries_req
        → Decodes wire (rpc_request type (vote req))
        → Decodes wire (empty_rpc "")
        → (send_vote wire connected type (vote req) old ≡ some old)
          × (state_of (handle_conn wire handler (wire.encode (rpc_request type (vote req))) s)
              ≡ some s)
    unfolding send_vote handle_conn serve
    unknown_call type req old other₁ other₂ there back =
        let test₁ : (type == rpc_request_vote_req) ≡ false =
          ground (arith, other₁, eq_iff type rpc_request_vote_req) in
        let test₂ : (type == rpc_append_entries_req) ≡ false =
          ground (arith, other₂, eq_iff type rpc_append_entries_req) in
        (rw (there, test₁, test₂, back) refl, rw (there, test₁, test₂) refl)
