-- ===== src/Raft/Recovery/Restores.antt =====
-- What a restart reads back from the log, against what the running node holds.
use mathlib.Core.List.{foldl-append}
use orris.Prelude.{
  ℕ, String, ◌≡◌, refl, true, List, [], ◌∷◌, ◌++◌, arith, ℤ, pos, ◌≤ℤ◌, ◌+ℤ◌, ◌-ℤ◌, ltb_ℤ, take,
  int_laws, Bool-cases, inl, inr, ltb_ℤ→le, take_all,
}
use orris.Storage.{WalRecord, LogEntry}
use orris.Storage.Journal.{Journal, append}
use orris.Raft.State.{Node, Durable, state_record, entry_record, truncate_record, commit_record}
use orris.Raft.Recovery.{recover_record, replay, recover_truncate}

-- The term, the vote and the log are those of the node; the commit index is no lower.
pub record Restores (recovered live : Durable) : Type 0 where
  pub term : recovered.current_term ≡ live.current_term
  pub vote : recovered.voted_for ≡ live.voted_for
  pub log : recovered.log ≡ live.log
  pub commit : live.commit_index ≤ℤ recovered.commit_index

-- The log is open, and a restart from it restores the durable fields.
pub record Recovers (wal : Journal) (live : Durable) : Type 0 where
  pub is_open : wal.is_open ≡ true
  pub restores : Restores (replay wal.records) live

abbrev pub IsRecoverable : Node → Type 0
IsRecoverable n = Recovers n.wal n.durable

replay-append :
    (rs : List WalRecord) (r : WalRecord) → replay (rs ++ r ∷ []) ≡ recover_record (replay rs) r
unfolding replay
replay-append rs r = rw foldl-append

-- An append keeps this if its record takes what was restored to what is live now.
pub append-Recovers :
    (r : WalRecord) (wal : Journal) (old live : Durable)
    → Recovers wal old
    → ((d : Durable) → Restores d old → Restores (recover_record d r) live)
    → Recovers (append wal r) live
unfolding append
append-Recovers r wal old live h keep = record {
  is_open = rw h.is_open;
  restores = rw (h.is_open, replay-append) (keep (replay wal.records) h.restores);
}

recover_truncate-take :
    (k : ℕ) (log : List LogEntry) → recover_truncate (pos k -ℤ pos 1 +ℤ pos 1) log ≡ take k log
recover_truncate-take k log =
    let back : pos k -ℤ pos 1 +ℤ pos 1 ≡ pos k = omega int_laws in
    let empty : k ≡ 0 → take k log ≡ [] = λ e. rw e in
    rw back (ground (arith, take_all k log, empty))

module _ (d live : Durable) (h : Restores d live) where
  pub state_record-Restores :
      (term : ℕ) (vote : String)
      → Restores
          (recover_record d (state_record term vote))
          (record live { current_term = term; voted_for = vote })
  unfolding recover_record
  state_record-Restores term vote = record {
    term = refl;
    vote = refl;
    log = h.log;
    commit = h.commit;
  }

  pub entry_record-Restores :
      (entry : LogEntry)
      → Restores
          (recover_record d (entry_record entry))
          (record live { log = live.log ++ entry ∷ [] })
  unfolding recover_record
  entry_record-Restores entry = record {
    term = h.term;
    vote = h.vote;
    log = rw h.log refl;
    commit = h.commit;
  }

  pub truncate_record-Restores :
      (k : ℕ)
      → Restores
          (recover_record d (truncate_record (pos k -ℤ pos 1)))
          (record live { log = take k live.log })
  unfolding recover_record
  truncate_record-Restores k = record {
    term = h.term;
    vote = h.vote;
    log = rw h.log (recover_truncate-take k live.log);
    commit = h.commit;
  }

  pub commit_record-Restores :
      (index : ℤ)
      → Restores (recover_record d (commit_record index)) (record live { commit_index = index })
  unfolding recover_record
  commit_record-Restores index = elim (Bool-cases (ltb_ℤ d.commit_index index)) [
    | inl e ↦ rw e (record { term = h.term; vote = h.vote; log = h.log; commit = omega arith })
    | inr e ↦
        let higher = ltb_ℤ→le d.commit_index index e in
        rw e (record { term = h.term; vote = h.vote; log = h.log; commit = higher })
  ]
