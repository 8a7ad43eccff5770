-- ===== src/Raft.antt =====
-- internal/raft: one node of the cluster. Each child models one file of the package, and has the proofs
-- about it below itself.
pub mod State
pub mod Vote
pub mod Append
pub mod Election
pub mod Commit
pub mod Replication
pub mod Apply
pub mod Recovery
pub mod Client
pub mod Steps
