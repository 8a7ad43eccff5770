-- ===== src/Storage.antt =====
-- internal/storage/wal.go. `Records` has the data, `Wal` the file format, and `Journal` what a node
-- relies on.
mod Records
pub mod Journal
pub mod Wal
pub use Records.*
