-- ===== src/Storage/Records.antt =====
-- internal/storage/wal.go: log entries, and the records of the write-ahead log.
use orris.Prelude.{ℕ, String, Option, none, ℤ, pos}

abbrev pub op_set : String
op_set = "SET"

abbrev pub op_delete : String
op_delete = "DELETE"

pub record LogEntry : Type 0 where
  pub index : ℤ
  pub term : ℕ
  pub operation : String
  pub key : String
  pub value : String

abbrev pub record_state : String
record_state = "STATE"

abbrev pub record_entry : String
record_entry = "ENTRY"

abbrev pub record_truncate : String
record_truncate = "TRUNCATE"

abbrev pub record_commit : String
record_commit = "COMMIT"

-- A field that a literal in the source leaves out has its zero value.
pub record WalRecord : Type 0 where
  pub type : String
  pub term : ℕ
  pub voted_for : String
  pub commit_index : ℤ
  pub entry : Option LogEntry

-- The record literals of the program.
abbrev pub zero_record : String → WalRecord
zero_record type = record {
  type = type;
  term = 0;
  voted_for = "";
  commit_index = pos 0;
  entry = none;
}
