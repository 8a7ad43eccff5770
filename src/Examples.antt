-- ===== src/Examples.antt =====
-- Concrete runs of the store, the log file and a node.
pub mod Nodes
pub mod Stores
pub mod Files
pub mod Elections
pub mod Logs
pub mod Crashes
pub mod Requests
pub mod Replications
pub mod Lines
pub mod Calls
pub mod Leaders
pub mod Launched
pub mod Networks
pub mod Successors
pub mod Tools
