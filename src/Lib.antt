-- ===== src/Lib.antt =====
-- Orris: a Raft cluster that replicates a key-value store.
--
-- The program and its model. A node (internal/raft) keeps a log of entries, applies the committed ones to a
-- store (internal/kv), and writes every change of its durable fields to a write-ahead log (internal/storage).
-- Nodes call each other's HandleRequestVote and HandleAppendEntries (internal/transport). Clients speak
-- a line protocol (internal/client).
--
--   * Prelude: the numbers, lists and association maps that the model uses. A Go `int` that starts at -1 is
--     a ℤ of this library; terms and lengths are native numbers; a Go map is an association list. Prelude
--     holds their lemmas, and the shared rules for omega, ground and grind are named at each use.
--   * Kv: internal/kv/store.go. Kv.Laws compares it with the function that a client sees.
--   * Storage.Records, Storage.Wal: internal/storage/wal.go, the file as its bytes; Wal.Framing treats one
--     frame, Wal.RoundTrip and Wal.Refines the file. Storage.Journal is the list of records that a
--     node relies on.
--   * Transport: internal/transport. rpc.go has the messages, Transport.Tcp is SendRPC and handleConn over a
--     wire, and Transport.Calls a call through both.
--   * Client: internal/client/server.go. Client.Text is what it uses of strings and fmt, Client.Server the
--     answer to a line, Client.Requests a line of SET, and Client.Answers the table of
--     all commands.
--   * Raft.State: internal/raft/state.go. Raft.Vote, Raft.Append, Raft.Commit and Raft.Replication:
--     replication.go. Raft.Election: election.go. Raft.Apply: apply.go. Raft.Recovery: node.go. Raft.Client:
--     client.go. Each function has the name of the Go function, and a handler is a function from the
--     node to the node and the reply. `none` is a panic of the Go code. Lemmas stand in
--     child modules; Replication.Exchange and Replication.CatchUp put a leader and a follower together.
--   * Raft.Steps: what can happen to a node, one event for each region that the mutex locks and one for a
--     crash with a restart, so that a list of events is an interleaving of the goroutines. Raft.Steps.Keeps
--     is the rule by which an invariant of all writes is an invariant of every run. Raft.Steps.Waits follows a
--     client request from its entry to its reply.
--   * Cluster: the nodes and the elections that run among them, as a step relation: the tasks of `startElection`
--     one by one, and every event of Raft.Steps at any node. Cluster.Invariant is what makes elections safe, about
--     a record of the votes that were cast; Cluster.Safety holds the result.
--   * Network: the cluster with the calls of `replicateToPeer`, from the round of heartbeats that plans one to the
--     answer. Network.Ledger is what the leaders of each term have written, a record kept beside the
--     state for the proofs; Network.Ties ties the logs to it, and Network.Matching and
--     Network.Completeness hold the results. Network.Indexes is about NextIndex, Network.UpToDate about the order of
--     logs by which votes are given, and Network.Lasting about what a network keeps of a text that a
--     majority holds.
--   * Control: cmd/orrisctl/main.go and cmd/orrisd/main.go. Control.Text is what they use of strings and strconv;
--     Control.Start the arguments of the nodes of a cluster and the peers flag of the daemon; Control.Node
--     `queryNode` and `parseLogItem`, against the answers of Client.Server; Control.Routed `executeRouted`, with the
--     connections as a parameter; Control.Command the switches of `main` and of the interactive mode;
--     Control.Views what the displays compute.
--   * Examples: concrete runs.
--
-- Bounds. The apply loop runs on fuel, one round more than the log has entries: a round applies one entry,
-- and LastApplied starts at -1. ReadAll has one round more than the file has bytes: a frame has at least
-- eight. Splitting a text has one round more than it has characters. CatchUp counts the heartbeats that a leader sends. All other loops recurse on a list or a number.
--
-- Crashes. A crash stands between two steps of a node, and a restart finds every record that the node has
-- appended and has the arguments of its first start. A write that a crash cuts short, and a log file with a tail that
-- cannot be read, are treated by Storage.Wal alone; so is what is lost behind such a tail.
--
-- Not modelled: gob, CRC32 and the operating system (a `Codec` is a parameter; reads, writes and syncs of an
-- open file succeed), the network, how long timers run, the goroutines that wait on tickers and channels,
-- logging, and of the two commands the processes, the files and the printing: pid files, layout, colours, the
-- benchmark and the demo. Numbers do not overflow.
pub mod Prelude
pub mod Kv
pub mod Storage
pub mod Transport
pub mod Raft
pub mod Client
pub mod Control
pub mod Cluster
pub mod Network
pub mod Examples
