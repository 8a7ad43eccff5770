-- ===== src/Network.antt =====
pub mod Ledger
pub mod Requests
pub mod Invariant
pub mod Events
pub mod Writes
pub mod Order
pub mod Indexes
pub mod Merges
pub mod Received
pub mod Moved
pub mod Bids
pub mod Backed
pub mod UpToDate
pub mod Moves
pub mod Chosen
pub mod Advances
pub mod Ties
pub mod Matching
pub mod Lasting
pub mod Completeness
-- The cluster with the requests that leaders send: `sendHeartbeats` and `replicateToPeer` of
-- internal/raft/replication.go over `HandleAppendEntries` at each peer that is reached. A request may be lost,
-- be handled late or more than once, and its answer may be lost.
use orris.Prelude.{ℕ, suc, Option, some, ◌<◌, ◌≡◌, put, get_elem?}
use orris.Transport.{AppendEntriesRequest, AppendEntriesResponse}
use orris.Raft.State.{Node}
use orris.Raft.Append.{handle_append_entries}
use orris.Raft.Replication.{PeerTask, send_heartbeats, begin_replication, finish_replication}
use orris.Raft.Steps.{Event, entries_received, peer_replied}
use orris.Raft.Steps.Keeps.Runs.{IsQuiet}
use orris.Cluster
use orris.Cluster.{Cluster, set_node, happens, stands, asks, checks, counts, ends}

-- How far the task for one peer is: the round of heartbeats has planned it, the request was made, the answer
-- is there, or it is over.
pub data Stage : Type 0 where
  planned : Stage
  sent : AppendEntriesRequest → Stage
  answered : AppendEntriesRequest → AppendEntriesResponse → Stage
  closed : Stage

-- One call of `replicateToPeer` at node `owner` for node `peer`.
pub record Call : Type 0 where
  pub owner : ℕ
  pub peer : ℕ
  pub task : PeerTask
  pub stage : Stage

-- `calls` is the number of calls so far.
pub record Network : Type 0 where
  pub cluster : Cluster
  pub call : ℕ → Call
  pub calls : ℕ

-- A round of heartbeats at node `i` starts a task for node `j`.
unfoldable pub plan : ℕ → ℕ → PeerTask → Network → Network
plan i j task w = record w {
  call = put w.call w.calls (record { owner = i; peer = j; task = task; stage = planned });
  calls = suc w.calls;
}

unfoldable pub set_stage : ℕ → Stage → Network → Network
set_stage k stage w = record w { call = put w.call k (record (w.call k) { stage = stage }) }

unfoldable pub set_cluster : Cluster → Network → Network
set_cluster c w = record w { cluster = c }

-- What is no part of a call of `replicateToPeer`.
abbrev pub IsOther : Event → Type 0
IsOther (entries_received req) = ⊥
IsOther (peer_replied task req resp) = ⊥
IsOther e = Unit

abbrev pub IsApart : {size : ℕ} {c d : Cluster} → Cluster.Step size c d → Type 0
IsApart (happens e i n less quiet ran) = IsOther e
IsApart (stands i n e req less starts) = Unit
IsApart (asks r j running less at) = Unit
IsApart (checks r j resp running less at) = Unit
IsApart (counts r j resp running less at) = Unit
IsApart (ends r running) = Unit

-- One step: of the elections, of clients, of the apply loops, a crash with its restart, or of a call.
pub data Step (size : ℕ) (w : Network) : Network → Type 0 where
  moves :
      (d : Cluster) (s : Cluster.Step size w.cluster d) → IsApart s → Step size w (set_cluster d w)
  plans :
      (i j p : ℕ) (task : PeerTask)
      → i < size
      → j < size
      → get_elem? (send_heartbeats (w.cluster.node i)) p ≡ some task
      → task.peer_id ≡ (w.cluster.node j).id
      → Step size w (plan i j task w)
  sends :
      (k : ℕ) (req : AppendEntriesRequest)
      → k < w.calls
      → (w.call k).stage ≡ planned
      → begin_replication (w.call k).task (w.cluster.node (w.call k).owner) ≡ some req
      → Step size w (set_stage k (sent req) w)
  answers :
      (k : ℕ) (req : AppendEntriesRequest) (n : Node) (resp : AppendEntriesResponse)
      → k < w.calls
      → (w.call k).stage ≡ sent req
      → handle_append_entries req (w.cluster.node (w.call k).peer) ≡ some (n, resp)
      → Step size w
          (set_stage k (answered req resp) (set_cluster (set_node (w.call k).peer n w.cluster) w))
  -- The request is handled, and no answer arrives.
  strays :
      (k : ℕ) (req : AppendEntriesRequest) (n : Node) (resp : AppendEntriesResponse)
      → k < w.calls
      → (w.call k).stage ≡ sent req
      → handle_append_entries req (w.cluster.node (w.call k).peer) ≡ some (n, resp)
      → Step size w (set_cluster (set_node (w.call k).peer n w.cluster) w)
  closes :
      (k : ℕ) (req : AppendEntriesRequest) (resp : AppendEntriesResponse) (n : Node)
      → k < w.calls
      → (w.call k).stage ≡ answered req resp
      → finish_replication (w.call k).task req resp (w.cluster.node (w.call k).owner) ≡ some n
      → Step size w (set_stage k closed (set_cluster (set_node (w.call k).owner n w.cluster) w))

-- Any number of steps.
pub data Reach (size : ℕ) (w : Network) : Network → Type 0 where
  stays : Reach size w w
  goes_on : {u v : Network} → Reach size w u → Step size u v → Reach size w v
