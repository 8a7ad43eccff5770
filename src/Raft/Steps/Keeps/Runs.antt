-- ===== src/Raft/Steps/Keeps/Runs.antt =====
-- What each write keeps, every step and every run keeps.
use orris.Prelude.{◌≡◌, true, suc, List, [], ◌∷◌, nat_eq, length}
use orris.Transport.{AppendEntriesResponse}
use orris.Raft.State.{Node}
use orris.Raft.Append.{handle_append_entries}
use orris.Raft.Append.Invariant.{Ensures, Ensures-bind}
use orris.Raft.Election.{is_candidate, become_leader}
use orris.Raft.Apply.{apply_committed_entries}
use orris.Raft.Steps.{
  Event, vote_requested, entries_received, timer_fired, reply_checked, vote_counted,
  election_finished, peer_replied, apply_ticked, client_requested, restarted, step, run,
}
use orris.Raft.Steps.Keeps.{Spares, Keeps, Keeps-Spares, count_vote_inv, finish_election_inv}
use orris.Raft.Steps.Keeps.Regions.{
  handle_request_vote_inv, entries_inv, check_reply_inv, finish_replication_inv, apply_loop_inv,
  begin_client_req_inv,
}

-- An event that starts no leadership.
abbrev pub IsQuiet : Event → Type 0
IsQuiet (vote_counted e resp) = ⊥
IsQuiet (election_finished e) = ⊥
IsQuiet _ = Unit

-- An event that leaves the log alone.
abbrev pub IsSparing : Event → Type 0
IsSparing (entries_received req) = ⊥
IsSparing (client_requested req) = ⊥
IsSparing e = IsQuiet e

-- An event that writes the peers' indices.
abbrev pub IsIndexing : Event → Type 0
IsIndexing (peer_replied task req resp) = Unit
IsIndexing e = ⊥

module _ (P : Node → Type 0) (Indexes : Type 0) (spares : Spares P Indexes) where
  -- Every step that leaves the log alone and starts no leadership keeps `P`, or panics.
  pub sparing_inv :
      (e : Event) (n : Node) → IsSparing e → (IsIndexing e → Indexes) → P n → Ensures P (step e n)
  unfolding step apply_committed_entries
  sparing_inv (vote_requested req) n q ix h = handle_request_vote_inv P Indexes spares req n h
  sparing_inv (entries_received req) n q ix h = absurd q
  sparing_inv timer_fired n q ix h = spares.fired n h
  sparing_inv (reply_checked e resp) n q ix h = check_reply_inv P Indexes spares e resp n h
  sparing_inv (vote_counted e resp) n q ix h = absurd q
  sparing_inv (election_finished e) n q ix h = absurd q
  sparing_inv (peer_replied task req resp) n q ix h =
      finish_replication_inv P Indexes spares (ix tt) task req resp n h
  sparing_inv apply_ticked n q ix h = apply_loop_inv P Indexes spares (suc (length n.log)) n h
  sparing_inv (client_requested req) n q ix h = absurd q
  sparing_inv restarted n q ix h = spares.restarted n h

module _ (P : Node → Type 0) (keeps : Keeps P) where
  -- Every step that starts no leadership keeps `P`, or panics.
  pub quiet_inv : (e : Event) (n : Node) → IsQuiet e → P n → Ensures P (step e n)
  unfolding step
  quiet_inv (entries_received req) n q h =
      Ensures-bind (λ (r : Node × AppendEntriesResponse). P r.0) P (handle_append_entries req n) _
        (entries_inv P keeps req n h) (λ r k. k)
  quiet_inv (client_requested req) n q h = begin_client_req_inv P keeps req n h
  quiet_inv (vote_counted e resp) n q h = absurd q
  quiet_inv (election_finished e) n q h = absurd q
  quiet_inv (vote_requested req) n q h =
      sparing_inv P (Unit {0}) (Keeps-Spares P keeps) (vote_requested req) n tt (λ _. tt) h
  quiet_inv timer_fired n q h =
      sparing_inv P (Unit {0}) (Keeps-Spares P keeps) timer_fired n tt (λ _. tt) h
  quiet_inv (reply_checked e resp) n q h =
      sparing_inv P (Unit {0}) (Keeps-Spares P keeps) (reply_checked e resp) n tt (λ _. tt) h
  quiet_inv (peer_replied task req resp) n q h =
      sparing_inv P (Unit {0}) (Keeps-Spares P keeps) (peer_replied task req resp) n tt (λ _. tt) h
  quiet_inv apply_ticked n q h =
      sparing_inv P (Unit {0}) (Keeps-Spares P keeps) apply_ticked n tt (λ _. tt) h
  quiet_inv restarted n q h =
      sparing_inv P (Unit {0}) (Keeps-Spares P keeps) restarted n tt (λ _. tt) h

  module _ (led : (n : Node) → is_candidate n.state ≡ true → P n → P (become_leader n)) where
    -- Every step keeps `P`, or panics, if the start of a leadership keeps it too.
    pub step_inv : (e : Event) (n : Node) → P n → Ensures P (step e n)
    unfolding step
    step_inv (vote_counted e resp) n h =
        count_vote_inv P e n h resp (λ _ stands _ _. led n stands h)
    step_inv (election_finished e) n h =
        finish_election_inv P e n h (λ stands _ _. led n stands h) (keeps.armed n h)
    step_inv (vote_requested req) n h = quiet_inv (vote_requested req) n tt h
    step_inv (entries_received req) n h = quiet_inv (entries_received req) n tt h
    step_inv timer_fired n h = quiet_inv timer_fired n tt h
    step_inv (reply_checked e resp) n h = quiet_inv (reply_checked e resp) n tt h
    step_inv (peer_replied task req resp) n h = quiet_inv (peer_replied task req resp) n tt h
    step_inv apply_ticked n h = quiet_inv apply_ticked n tt h
    step_inv (client_requested req) n h = quiet_inv (client_requested req) n tt h
    step_inv restarted n h = quiet_inv restarted n tt h

    -- So does every sequence of steps.
    pub run_inv : (es : List Event) (n : Node) → P n → Ensures P (run es n)
    unfolding run
    run_inv [] n h = h
    run_inv (e ∷ es) n h = Ensures-bind P P (step e n) (run es) (step_inv e n h) (run_inv es)
