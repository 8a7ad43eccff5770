-- ===== src/Raft/Client.antt =====
-- `handleClientReq` of internal/raft/client.go: the locked region that appends the entry, and the one
-- that each tick of the wait runs. What ends the wait is its result.
use orris.Prelude.{
  ℕ, Bool, ◌||◌, not, Option, none, some, ◌==◌, nat_eq, if◌then◌else◌, length, pos, leb_ℤ,
}
use orris.Storage.{LogEntry}
use orris.Raft.State.{Node, ClientReq}
use orris.Raft.Election.{is_leader}
use orris.Raft.Append.{push}

pub data ClientError : Type 0 where
  not_leader lost_leadership timeout node_stopped : ClientError

-- The entry's place, for the wait.
pub record Pending : Type 0 where
  pub idx : ℕ
  pub term : ℕ

unfoldable pub client_entry : ClientReq → Node → LogEntry
client_entry req n = record {
  index = pos (length n.log);
  term = n.current_term;
  operation = req.op;
  key = req.key;
  value = req.value;
}

-- none is ErrNotLeader.
unfoldable pub begin_client_req : ClientReq → Node → Node × Option Pending
begin_client_req req n =
    if not (is_leader n.state)
    then (n, none)
    else (push (client_entry req n) n, some (record { idx = length n.log; term = n.current_term }))

pub data Wait : Type 0 where
  waiting committed : Wait
  failed : ClientError → Wait

-- One tick; `late` says whether the deadline has passed.
unfoldable pub poll_client_req : Pending → Bool → Node → Wait
poll_client_req p late n =
    if not (is_leader n.state) || not (n.current_term == p.term)
    then failed lost_leadership
    else if leb_ℤ (pos p.idx) n.commit_index
    then committed
    else if late
    then failed timeout
    else waiting
