-- ===== src/Transport/Tcp.antt =====
-- `SendRPC` and `handleConn` of internal/transport/tcp.go. gob and the connection are not modelled: a
-- `Wire` encodes an envelope, and a connection carries the bytes of one envelope each way. A failed dial or
-- a missed deadline is an answer that does not come.
use orris.Prelude.{ℕ, String, Option, none, some, List, ◌==◌, string_eq, if◌then◌else◌, ◌>>=◌}
use orris.Transport.{
  RequestVoteRequest, RequestVoteResponse, AppendEntriesRequest, AppendEntriesResponse, Rpc,
  empty_rpc, rpc_request_vote_req, rpc_request_vote_resp, rpc_append_entries_req,
  rpc_append_entries_resp,
}

abbrev pub Bytes : Type 0
Bytes = List ℕ

pub record Wire : Type 0 where
  pub encode : Rpc → Bytes
  pub decode : Bytes → Option Rpc

-- What the server calls, on a state `S`; `none` is a panic of the handler.
pub record Handler (S : Type 0) : Type 0 where
  pub handle_request_vote : RequestVoteRequest → S → S × RequestVoteResponse
  pub handle_append_entries : AppendEntriesRequest → S → Option (S × AppendEntriesResponse)

-- The dynamic type of `req`.
pub data Request : Type 0 where
  vote : RequestVoteRequest → Request
  entries : AppendEntriesRequest → Request

abbrev pub rpc_request : String → Request → Rpc
rpc_request type (vote req) = record (empty_rpc type) { rv_req = some req }
rpc_request type (entries req) = record (empty_rpc type) { ae_req = some req }

-- `resp` is overwritten where the answer has one of its type.
abbrev pub or_old {ℓ} : {A : Type ℓ} → A → Option A → A
or_old old none = old
or_old old (some new) = new

module _ {S : Type 0} (handler : Handler S) where
  abbrev pub serve_vote : Option RequestVoteRequest → S → Option (S × Rpc)
  serve_vote none s = some (s, empty_rpc "")
  serve_vote (some req) s =
      let (s', resp) = handler.handle_request_vote req s in
      some (s', record (empty_rpc rpc_request_vote_resp) { rv_resp = some resp })

  abbrev pub serve_entries : Option AppendEntriesRequest → S → Option (S × Rpc)
  serve_entries none s = some (s, empty_rpc "")
  serve_entries (some req) s = do
    (s', resp) ← handler.handle_append_entries req s
    some (s', record (empty_rpc rpc_append_entries_resp) { ae_resp = some resp })

  -- The switch of `handleConn`.
  unfoldable pub serve : Rpc → S → Option (S × Rpc)
  serve rpc s =
      if rpc.type == rpc_request_vote_req
      then serve_vote rpc.rv_req s
      else if rpc.type == rpc_append_entries_req
      then serve_entries rpc.ae_req s
      else some (s, empty_rpc "")

module _ (wire : Wire) where
  abbrev pub serve_decoded : {S : Type 0} → Handler S → Option Rpc → S → Option (S × Option Bytes)
  serve_decoded handler none s = some (s, none)
  serve_decoded handler (some rpc) s = do
    (s', answer) ← serve handler rpc s
    some (s', some (wire.encode answer))

  -- The bytes that come in; the state after, and the bytes that go back, if any.
  unfoldable pub handle_conn : {S : Type 0} → Handler S → Bytes → S → Option (S × Option Bytes)
  handle_conn handler bytes s = serve_decoded handler (wire.decode bytes) s

  -- `exchange` writes the request and reads the answer. `none` is an error, which leaves `resp` alone.
  unfoldable pub send_vote :
      (Bytes → Option Bytes) → String → Request → RequestVoteResponse → Option RequestVoteResponse
  send_vote exchange type req resp = do
    answer ← exchange (wire.encode (rpc_request type req))
    rpc ← wire.decode answer
    some (or_old resp rpc.rv_resp)

  unfoldable pub send_entries :
      (Bytes → Option Bytes)
      → String
      → Request
      → AppendEntriesResponse
      → Option AppendEntriesResponse
  send_entries exchange type req resp = do
    answer ← exchange (wire.encode (rpc_request type req))
    rpc ← wire.decode answer
    some (or_old resp rpc.ae_resp)
