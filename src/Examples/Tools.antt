-- ===== src/Examples/Tools.antt =====
-- The control tool and the daemon at work on a cluster of three.
use Prim.Native.String.{String}
use text.Mathlib.TextEquality.{eq_iff}
use orris.Prelude.{
  ◌+◌, ◌≡◌, ◌≢◌, ◌↔◌, ℕ, suc, true, false, refl, Option, some, List, [], ◌∷◌, arith, ◌==◌,
  string_eq, map, minus_one, pos, length, insert, if◌then◌else◌,
}
use orris.Kv.{get_all, copy_into}
use orris.Raft.State.{Node, get_all_keys}
use orris.Raft.Steps.{Event, timer_fired, vote_requested, restarted, step, run}
use orris.Client.Text.{trim_right}
use orris.Control.Text.Cut.{is_solid-IsSolid, lacks-Avoids}
use orris.Control.Start.{launch, parse_peers}
use orris.Control.Start.Peers.{others, launch_knows_others}
use orris.Control.Node.{NodeInfo, LogItem, offline, query_node, parse_log_item}
use orris.Control.Node.Items.{shown}
use orris.Control.Node.Status.{served, Shows, query_node-Shows}
use orris.Control.Node.Keys.{AllWords, query_node-keys}
use orris.Control.Node.Logs.{IsPlain, query_node-logs}
use orris.Control.Routed.{Outcome, execute_routed, execute_routed-Outcome}
use orris.Control.Command.{main_command}
use orris.Control.Command.Counts.{IsRunnable, main_command-IsRunnable}
use orris.Control.Views.{log_row, highest_commit, last_term}
use orris.Control.Views.Highest.{IsReached, log_row_committed}
use orris.Control.Views.Wal.{last_term_current}
use orris.Examples.Nodes.{started, set_at, asks_for, or_started, started-IsRecoverable}
use orris.Examples.Lines.{takes}

launch_knows_others_example :
    (parse_peers (launch (pos 2) 3).peers ≡ others (pos 2) 3 1 3)
    × (length (parse_peers (launch (pos 2) 3).peers) + 1 ≡ 3)
launch_knows_others_example = launch_knows_others 2 3 (omega arith) (omega arith)

differ : (s t : String) → (s == t) ≡ false → s ≢ t
differ s t h e = absurd (ground (arith, h, e, eq_iff s t))

query_node-Shows_example : Shows started (query_node "127.0.0.1:9001" (served takes started))
query_node-Shows_example =
    query_node-Shows takes started "127.0.0.1:9001" (is_solid-IsSolid "a" refl) (differ "a" "" refl)
      (differ "a" "NODE" refl)

-- Node "a" with two entries.
abbrev logged : Node
logged = record started {
  durable = record started.durable { log = set_at (pos 0) 1 "one" ∷ set_at (pos 1) 1 "two" ∷ [] };
}

one-IsPlain : IsPlain (set_at (pos 0) 1 "one")
unfolding trim_right
one-IsPlain = record {
  op_word = lacks-Avoids 32 "SET" refl;
  key_word = lacks-Avoids 32 "x" refl;
  value_word = lacks-Avoids 32 "one" refl;
  op = lacks-Avoids 58 "SET" refl;
  key = lacks-Avoids 61 "x" refl;
  trimmed = refl;
}

two-IsPlain : IsPlain (set_at (pos 1) 1 "two")
unfolding trim_right
two-IsPlain = record {
  op_word = lacks-Avoids 32 "SET" refl;
  key_word = lacks-Avoids 32 "x" refl;
  value_word = lacks-Avoids 32 "two" refl;
  op = lacks-Avoids 58 "SET" refl;
  key = lacks-Avoids 61 "x" refl;
  trimmed = refl;
}

query_node-logs_example :
    map parse_log_item (query_node "127.0.0.1:9001" (served takes logged)).logs
    ≡ map (λ e. (shown e, true)) logged.log
query_node-logs_example =
    query_node-logs takes logged "127.0.0.1:9001" (one-IsPlain, (two-IsPlain, tt))

-- Node "a" with two keys.
abbrev stored : Node
stored = record started { kv_store = record { contents = ("x", "one") ∷ ("y", "two") ∷ [] } }

stored-AllWords : AllWords (get_all_keys stored)
unfolding get_all_keys get_all copy_into insert
stored-AllWords = (
  (lacks-Avoids 32 "x" refl, lacks-Avoids 32 "one" refl, lacks-Avoids 61 "x" refl),
  ((lacks-Avoids 32 "y" refl, lacks-Avoids 32 "two" refl, lacks-Avoids 61 "y" refl), tt),
)

query_node-keys_example :
    (query_node "127.0.0.1:9001" (served takes stored)).keys ≡ get_all_keys stored
query_node-keys_example = query_node-keys takes stored "127.0.0.1:9001" stored-AllWords

-- Three nodes, of which the second leads and the third is offline; each command that is sent is counted.
abbrev seen : List NodeInfo
seen =
    record (offline "127.0.0.1:9001") { online = true; role = "FOLLOWER"; commit_index = pos 1 }
    ∷ record (offline "127.0.0.1:9002") { online = true; role = "LEADER"; commit_index = pos 2 }
    ∷ offline "127.0.0.1:9003"
    ∷ []

abbrev counting : ℕ → String → String → ℕ × Option String
counting sent addr cmd =
    (suc sent, if addr == "127.0.0.1:9002" then some "OK COMMITTED" else some "ERR NOT_LEADER")

execute_routed-Outcome_example :
    Outcome ℕ counting "SET x 1" seen 0 (execute_routed ℕ counting "SET x 1" seen 0)
execute_routed-Outcome_example = execute_routed-Outcome ℕ counting "SET x 1" seen 0

main_command-IsRunnable_example :
    IsRunnable (main_command (λ s. s) (λ s. s) "BENCH" ("0" ∷ "-3" ∷ []) "" ("127.0.0.1:9001" ∷ []))
main_command-IsRunnable_example =
    main_command-IsRunnable (λ s. s) (λ s. s) "BENCH" ("0" ∷ "-3" ∷ []) "" ("127.0.0.1:9001" ∷ [])

abbrev item_two : LogItem
item_two = record { index = pos 2; term = pos 1; op = "SET"; key = "x"; val = "1" }

log_row_committed_example :
    ((log_row (highest_commit minus_one seen) item_two).committed ≡ true) ↔ IsReached (pos 2) seen
log_row_committed_example = log_row_committed seen item_two (omega arith)

abbrev elected : List Event
elected = timer_fired ∷ restarted ∷ vote_requested (asks_for "c") ∷ []

abbrev after_election : Node
after_election = or_started (run elected started)

after_election-reached : run elected started ≡ some after_election
unfolding run step
after_election-reached = refl

nothing_logged : last_term 0 started.wal.records ≡ started.current_term
unfolding last_term
nothing_logged = refl

last_term_current_example : last_term 0 after_election.wal.records ≡ after_election.current_term
last_term_current_example =
    last_term_current elected started after_election started-IsRecoverable nothing_logged
      after_election-reached
