-- ===== src/Raft/Recovery/Preserved.antt =====
-- The operations of a node against what they log.
use orris.Prelude.{◌&&◌, ◌-ℤ◌, ℕ, String, ℤ, pos, inl, inr, Bool-cases}
use orris.Storage.{LogEntry}
use orris.Transport.{RequestVoteRequest}
use orris.Raft.State.{Node, write, state_record, entry_record, truncate_record, commit_record}
use orris.Storage.Journal.{append}
use orris.Raft.Append.Merge.{cut_to}
use orris.Raft.Vote.{can_vote, log_up_to_date, step_down, cast_vote, handle_request_vote}
use orris.Raft.Vote.Grant.{request_vote_cases}
use orris.Raft.Append.{push}
use orris.Raft.Commit.{commit_to}
use orris.Raft.Recovery.Restores.{
  IsRecoverable, append-Recovers, Recovers, state_record-Restores, entry_record-Restores,
  truncate_record-Restores, commit_record-Restores,
}

module _ (n : Node) (h : IsRecoverable n) where
  pub step_down-IsRecoverable : (term : ℕ) → IsRecoverable (step_down term n)
  unfolding step_down
  step_down-IsRecoverable term =
      append-Recovers (state_record term "") n.wal n.durable _ h
        λ d r. state_record-Restores d n.durable r term ""

  voted :
      (vote : String)
      → Recovers
          (append n.wal (state_record n.current_term vote))
          (record n.durable { voted_for = vote })
  voted vote =
      append-Recovers (state_record n.current_term vote) n.wal n.durable _ h
        λ d r. state_record-Restores d n.durable r n.current_term vote

  pub cast_vote-IsRecoverable : (req : RequestVoteRequest) → IsRecoverable (cast_vote req n).0
  unfolding cast_vote
  cast_vote-IsRecoverable req = elim (Bool-cases (can_vote n req && log_up_to_date n req)) [
    | inl e ↦ rw e (voted req.candidate_id)
    | inr e ↦ rw e h
  ]

  pub push-IsRecoverable : (e : LogEntry) → IsRecoverable (push e n)
  unfolding push
  push-IsRecoverable e =
      append-Recovers (entry_record e) n.wal n.durable _ h
        λ d r. entry_record-Restores d n.durable r e

  pub cut_to-IsRecoverable : (k : ℕ) → IsRecoverable (cut_to k n)
  unfolding write
  cut_to-IsRecoverable k =
      append-Recovers (truncate_record (pos k -ℤ pos 1)) n.wal n.durable _ h
        λ d r. truncate_record-Restores d n.durable r k

  pub commit_to-IsRecoverable : (index : ℤ) → IsRecoverable (commit_to index n)
  unfolding commit_to
  commit_to-IsRecoverable index =
      append-Recovers (commit_record index) n.wal n.durable _ h
        λ d r. commit_record-Restores d n.durable r index

pub handle_request_vote-IsRecoverable :
    (req : RequestVoteRequest) (n : Node)
    → IsRecoverable n
    → IsRecoverable (handle_request_vote req n).0
handle_request_vote-IsRecoverable req n h =
    request_vote_cases req n (λ r. IsRecoverable r.0) (λ _. h)
      (λ _.
        cast_vote-IsRecoverable (step_down req.term n) (step_down-IsRecoverable n h req.term) req)
      (λ _. cast_vote-IsRecoverable n h req)
