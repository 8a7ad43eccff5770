-- ===== src/Examples/Crashes.antt =====
-- Node "a" crashes and starts again.
use Prim.Native.Nat.{min}
use orris.Prelude.{◌≡◌, ℕ, true, refl, some, List, [], ◌∷◌, pos, ◌+ℤ◌, length}
use orris.Storage.Journal.{Journal}
use orris.Raft.State.{Node, state_record, entry_record, commit_record}
use orris.Raft.Apply.Prefix.{IsApplied}
use orris.Raft.Recovery.{new_node}
use orris.Raft.Recovery.Spelling.{Spells}
use orris.Raft.Recovery.Spelled.{new_node-Spells}
use orris.Examples.Logs.{replacement}
use orris.Raft.Steps.{
  entries_received, apply_ticked, Event, timer_fired, vote_requested, restarted, step, run,
}
use orris.Raft.Steps.Recoverable.{RestoredBy, crash_restores}
use orris.Examples.Nodes.{neighbours, set_at, asks_for, or_started}

-- A log with two entries, of which one is committed.
abbrev used_journal : Journal
used_journal = record {
  records =
      state_record 1 "a"
      ∷ entry_record (set_at (pos 0) 1 "one")
      ∷ commit_record (pos 0)
      ∷ entry_record (set_at (pos 1) 1 "two")
      ∷ [];
  is_open = true;
}

abbrev started_again : Node
started_again = new_node "a" "a:1" neighbours used_journal

new_node-Spells_example :
    Spells used_journal.records started_again.durable
    × (c : ℕ) × (started_again.commit_index +ℤ pos 1 ≡ pos c)
    × IsApplied (min c (length started_again.log)) started_again
new_node-Spells_example = new_node-Spells "a" "a:1" neighbours used_journal

abbrev history : List Event
history = timer_fired ∷ restarted ∷ vote_requested (asks_for "c") ∷ []

abbrev before_crash : Node
before_crash = or_started (run history (new_node "a" "a:1" neighbours used_journal))

before_crash-reached : run history (new_node "a" "a:1" neighbours used_journal) ≡ some before_crash
unfolding run step
before_crash-reached = refl

crash_restores_example :
    (c : ℕ) × RestoredBy before_crash
      (new_node before_crash.id before_crash.addr before_crash.peers before_crash.wal)
      c
crash_restores_example =
    crash_restores "a" "a:1" neighbours used_journal history before_crash refl before_crash-reached

-- Entries of a leader arrive and are applied, and the node crashes.
abbrev served : List Event
served = entries_received replacement ∷ apply_ticked ∷ restarted ∷ []
