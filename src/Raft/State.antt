-- ===== src/Raft/State.antt =====
-- internal/raft/state.go, and the helpers of the package that every handler calls. The mutex makes each
-- locked region one step. Terms are never negative, so they are native numbers; an `int` that starts at
-- -1 is a ℤ. Neither overflows here.
use orris.Prelude.{
  ℕ, String, Bool, true, Option, none, some, List, [], ℤ, pos, minus_one, ◌-ℤ◌, Map, length,
}
use orris.Storage.{
  LogEntry, WalRecord, zero_record, record_state, record_entry, record_truncate, record_commit,
}
use orris.Storage.Journal.{Journal, append}
use orris.Kv
use orris.Kv.{Store}

pub data NodeState : Type 0 where
  follower candidate leader : NodeState

unfoldable pub show : NodeState → String
show follower = "FOLLOWER"
show candidate = "CANDIDATE"
show leader = "LEADER"

-- The fields that the records of the write-ahead log restore.
pub record Durable : Type 0 where
  pub current_term : ℕ
  pub voted_for : String
  pub log : List LogEntry
  pub commit_index : ℤ

-- `election_timer` says whether the timer is armed: how long it runs is not modelled. `apply_notify`
-- says whether the channel of capacity one holds a signal.
pub record Node : Type 0 where
  pub id : String
  pub addr : String
  pub peers : Map String
  pub state : NodeState
  pub durable : Durable
  pub open durable use *
  pub last_applied : ℤ
  pub next_index : Map ℤ
  pub match_index : Map ℤ
  pub kv_store : Store
  pub election_timer : Bool
  pub wal : Journal
  pub apply_notify : Bool

abbrev pub blank : Durable
blank = record { current_term = 0; voted_for = ""; log = []; commit_index = minus_one }

-- `_ = n.wal.Append(rec)`
unfoldable pub write : WalRecord → Node → Node
write rec n = record n { wal = append n.wal rec }

abbrev pub state_record : ℕ → String → WalRecord
state_record term voted_for = record (zero_record record_state) {
  term = term;
  voted_for = voted_for;
}

abbrev pub entry_record : LogEntry → WalRecord
entry_record entry = record (zero_record record_entry) { entry = some entry }

abbrev pub truncate_record : ℤ → WalRecord
truncate_record last = record (zero_record record_truncate) { commit_index = last }

abbrev pub commit_record : ℤ → WalRecord
commit_record index = record (zero_record record_commit) { commit_index = index }

-- A new timer is armed in the place of the old one.
unfoldable pub reset_election_timer : Node → Node
reset_election_timer n = record n { election_timer = true }

-- A signal is dropped where one waits already.
unfoldable pub notify_apply : Node → Node
notify_apply n = record n { apply_notify = true }

-- `len(n.Log) - 1`
unfoldable pub last_index : Node → ℤ
last_index n = pos (length n.log) -ℤ pos 1

-- `m[k]` of a `map[string]int`
abbrev pub int_at : Option ℤ → ℤ
int_at none = pos 0
int_at (some i) = i

-- The index and the term of the last entry, as elections compare them.
abbrev pub last_log_index : Option LogEntry → ℤ
last_log_index none = minus_one
last_log_index (some e) = e.index

abbrev pub last_log_term : Option LogEntry → ℕ
last_log_term none = 0
last_log_term (some e) = e.term

-- The getters, each one locked read.
unfoldable pub get_state : Node → String → Option String
get_state n key = Kv.get n.kv_store key

unfoldable pub get_role : Node → String
unfolding show
get_role n = show n.state

unfoldable pub get_term : Node → ℕ
get_term n = n.current_term

unfoldable pub get_commit : Node → ℤ
get_commit n = n.commit_index

unfoldable pub get_last_applied : Node → ℤ
get_last_applied n = n.last_applied

unfoldable pub get_log_entries : Node → List LogEntry
get_log_entries n = n.log

unfoldable pub get_all_keys : Node → Map String
get_all_keys n = Kv.get_all n.kv_store

-- A request, less the channel that its reply goes to.
pub record ClientReq : Type 0 where
  pub op : String
  pub key : String
  pub value : String
