-- ===== src/Examples/Nodes.antt =====
-- A cluster of three, seen from node "a".
use orris.Prelude.{
  ℕ, String, true, false, refl, Option, none, some, [], ◌∷◌, arith, minus_one, Map, ℤ,
}
use orris.Storage.{LogEntry, op_set}
use orris.Storage.Journal.{Journal}
use orris.Transport.{RequestVoteRequest}
use orris.Raft.State.{Node, follower, blank}
use orris.Raft.Recovery.{replay}
use orris.Raft.Recovery.Restores.{IsRecoverable}

abbrev pub neighbours : Map String
neighbours = ("b", "b:1") ∷ ("c", "c:1") ∷ []

abbrev pub empty_journal : Journal
empty_journal = record { records = []; is_open = true }

-- A node that has just started on an empty log.
abbrev pub started : Node
started = record {
  id = "a";
  addr = "a:1";
  peers = neighbours;
  state = follower;
  durable = blank;
  last_applied = minus_one;
  next_index = [];
  match_index = [];
  kv_store = record { contents = [] };
  election_timer = true;
  wal = empty_journal;
  apply_notify = false;
}

pub started-IsRecoverable : IsRecoverable started
unfolding replay
started-IsRecoverable = record {
  is_open = refl;
  restores = record { term = refl; vote = refl; log = refl; commit = omega arith };
}

abbrev pub set_at : ℤ → ℕ → String → LogEntry
set_at index term value = record {
  index = index;
  term = term;
  operation = op_set;
  key = "x";
  value = value;
}

abbrev pub asks_for : String → RequestVoteRequest
asks_for name = record {
  term = 1;
  candidate_id = name;
  last_log_index = minus_one;
  last_log_term = 0;
}

-- The node of a run that does not panic.
abbrev pub or_started : Option Node → Node
or_started none = started
or_started (some n) = n
