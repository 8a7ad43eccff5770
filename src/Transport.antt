-- ===== src/Transport.antt =====
pub mod Tcp
pub mod Calls
-- internal/transport: the messages between nodes.
use orris.Prelude.{ℕ, String, Bool, Option, none, List, ℤ}
use orris.Storage.{LogEntry}

pub record RequestVoteRequest : Type 0 where
  pub term : ℕ
  pub candidate_id : String
  pub last_log_index : ℤ
  pub last_log_term : ℕ

pub record RequestVoteResponse : Type 0 where
  pub term : ℕ
  pub vote_granted : Bool

pub record AppendEntriesRequest : Type 0 where
  pub term : ℕ
  pub leader_id : String
  pub prev_log_index : ℤ
  pub prev_log_term : ℕ
  pub entries : List LogEntry
  pub leader_commit : ℤ

pub record AppendEntriesResponse : Type 0 where
  pub term : ℕ
  pub success : Bool
  pub match_index : ℤ

abbrev pub rpc_request_vote_req : String
rpc_request_vote_req = "RV_REQ"

abbrev pub rpc_request_vote_resp : String
rpc_request_vote_resp = "RV_RESP"

abbrev pub rpc_append_entries_req : String
rpc_append_entries_req = "AE_REQ"

abbrev pub rpc_append_entries_resp : String
rpc_append_entries_resp = "AE_RESP"

-- The envelope; a nil pointer is `none`.
pub record Rpc : Type 0 where
  pub type : String
  pub rv_req : Option RequestVoteRequest
  pub rv_resp : Option RequestVoteResponse
  pub ae_req : Option AppendEntriesRequest
  pub ae_resp : Option AppendEntriesResponse

-- `RPC{Type: type}`
abbrev pub empty_rpc : String → Rpc
empty_rpc type = record {
  type = type;
  rv_req = none;
  rv_resp = none;
  ae_req = none;
  ae_resp = none;
}
