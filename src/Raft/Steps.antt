-- ===== src/Raft/Steps.antt =====
pub mod Keeps
pub mod Recoverable
pub mod Combine
pub mod SameLog
pub mod Contending
pub mod Member
pub mod Leads
pub mod Follows
pub mod Votes
pub mod Timer
pub mod InRange
pub mod Total
pub mod Standing
pub mod Waits
-- What can happen to a node, as one step for each locked region of internal/raft, and a crash with a
-- restart between two of them. The environment
-- chooses: an event carries whatever a peer, a client or an earlier region handed to the region.
use orris.Prelude.{false, Option, some, List, [], ◌∷◌, ◌>>=◌}
use orris.Transport.{
  RequestVoteRequest, RequestVoteResponse, AppendEntriesRequest, AppendEntriesResponse,
}
use orris.Raft.State.{Node, ClientReq}
use orris.Raft.Vote.{handle_request_vote}
use orris.Raft.Append.{handle_append_entries}
use orris.Raft.Election.{Election, start_election, check_reply, count_vote, finish_election}
use orris.Raft.Replication.{PeerTask, finish_replication}
use orris.Raft.Apply.{apply_committed_entries}
use orris.Raft.Recovery.{new_node}
use orris.Raft.Client.{begin_client_req}

pub data Event : Type 0 where
  vote_requested : RequestVoteRequest → Event
  entries_received : AppendEntriesRequest → Event
  timer_fired : Event
  reply_checked : Election → RequestVoteResponse → Event
  vote_counted : Election → RequestVoteResponse → Event
  election_finished : Election → Event
  peer_replied : PeerTask → AppendEntriesRequest → AppendEntriesResponse → Event
  apply_ticked : Event
  client_requested : ClientReq → Event
  restarted : Event

-- A timer that fires is no longer armed.
abbrev pub disarm : Node → Node
disarm n = record n { election_timer = false }

-- A region that only reads the node is no event.
unfoldable pub step : Event → Node → Option Node
step (vote_requested req) n = some (handle_request_vote req n).0
step (entries_received req) n = handle_append_entries req n >>= λ r. some r.0
step timer_fired n = some (start_election (disarm n)).0
step (reply_checked e resp) n = some (check_reply e resp n).0
step (vote_counted e resp) n = some (count_vote resp e n).1
step (election_finished e) n = some (finish_election e n)
step (peer_replied task req resp) n = finish_replication task req resp n
step apply_ticked n = apply_committed_entries n
step (client_requested req) n = some (begin_client_req req n).0
step restarted n = some (new_node n.id n.addr n.peers n.wal)

unfoldable pub run : List Event → Node → Option Node
run [] n = some n
run (e ∷ es) n = step e n >>= run es
