-- ===== src/Network/Moved.antt =====
-- What each event of a node keeps of its log's order, of a text that the log begins with, and of NextIndex.
use orris.Prelude.{
  ℕ, ◌≡◌, ◌≤◌, inl, inr, refl, subst, true, false, some, List, [], ◌∷◌, ◌++◌, arith, length,
  length-append, Prefix, Prefix-refl, Prefix-trans, Prefix-append, pos, ◌+ℤ◌,
}
use orris.Storage.{LogEntry}
use orris.Transport.{AppendEntriesRequest, AppendEntriesResponse}
use orris.Raft.State.{Node, ClientReq, reset_election_timer, write}
use orris.Raft.Append.{push, handle_append_entries}
use orris.Raft.Client.{client_entry}
use orris.Raft.Election.{is_leader, is_candidate, become_leader}
use orris.Raft.Replication.{PeerTask, is_current, finish_replication}
use orris.Raft.Recovery.Restores.{IsRecoverable}
use orris.Raft.Steps.{Event, peer_replied, step}
use orris.Raft.Steps.Keeps.Runs.{IsSparing, IsIndexing}
use orris.Raft.Steps.Leads.{become_leader_term}
use orris.Raft.Steps.SameLog.{step-log, become_leader-log}
use orris.Raft.Steps.Contending.{Contends, candidate-Contends, step-Contends, step-next_index}
use orris.Network.Ledger.{Ledger, IsLogged}
use orris.Network.Order.{IsOrdered, IsOrdered-later, IsOrdered-Prefix, IsOrdered-push}
use orris.Network.Requests.{IsEnd, received-Follows}
use orris.Raft.Append.Joined.{received-either}
use orris.Network.Received.{received-Prefix}
use orris.Network.Indexes.{Fits, Fits-more, Within, become_leader-Within, finish_replication-Within}

module _ (L : List LogEntry) (t : ℕ) where
  -- Node `n` became `m`.
  pub record Moved (n m : Node) : Type 0 where
    pub term : n.current_term ≤ m.current_term
    pub ordered : IsOrdered m.current_term m.log
    pub keeps : t ≤ n.current_term → Prefix L n.log → Prefix L m.log
    pub runs :
        Contends m.state → m.current_term ≡ n.current_term → Contends n.state × Prefix n.log m.log
    pub within : Within m

  -- With the same log.
  same_log-Moved :
      (n m : Node)
      → m.log ≡ n.log
      → (n.current_term ≤ m.current_term)
      → (Contends m.state → m.current_term ≡ n.current_term → Contends n.state)
      → Within m
      → IsOrdered n.current_term n.log
      → Moved n m
  same_log-Moved n m log term contends within ordered = record {
    term = term;
    ordered = rw log (IsOrdered-later n.current_term m.current_term n.log term ordered);
    keeps = λ _ held. rw log held;
    runs = λ stands same. (contends stands same, rw log (Prefix-refl n.log));
    within = within;
  }

  pub armed-Moved :
      (n : Node) → IsOrdered n.current_term n.log → Within n → Moved n (reset_election_timer n)
  unfolding reset_election_timer
  armed-Moved n ordered within =
      same_log-Moved n (reset_election_timer n) refl (omega arith) (λ stands _. stands) within
        ordered

  pub stayed-Moved : (n : Node) → IsOrdered n.current_term n.log → Within n → Moved n n
  stayed-Moved n ordered within =
      same_log-Moved n n refl (omega arith) (λ stands _. stands) within ordered

  pub begun-Moved :
      (n : Node)
      → is_candidate n.state ≡ true
      → is_leader n.state ≡ false
      → IsOrdered n.current_term n.log
      → Moved n (become_leader n)
  begun-Moved n stands other ordered =
      same_log-Moved n (become_leader n) (become_leader-log n) (rw become_leader_term (omega arith))
        (λ _ _. candidate-Contends n.state stands) (become_leader-Within n other) ordered

  module _ (e : Event) (n m : Node) (sparing : IsSparing e) (back : IsRecoverable n)
      (ran : step e n ≡ some m) (ordered : IsOrdered n.current_term n.log) (within : Within n)
      (led : is_leader m.state ≡ true
        → (is_leader n.state ≡ true) × (m.current_term ≡ n.current_term)) where
    pub sparing-Moved : ¬ IsIndexing e → Moved n m
    sparing-Moved other =
        let (term, contends) = step-Contends e n m sparing back ran in
        let log = step-log e n m sparing back ran in
        same_log-Moved n m log term contends
          (λ leads.
            let (next, peers) = step-next_index e n m sparing other ran leads in
            rw (next, peers, log) (within (led leads).0))
          ordered

  pub replied-Moved :
      (task : PeerTask) (req : AppendEntriesRequest) (resp : AppendEntriesResponse) (n m : Node)
      → IsRecoverable n
      → finish_replication task req resp n ≡ some m
      → (is_leader m.state ≡ true → is_leader n.state ≡ true)
      → (is_current task n ≡ true
          → Fits task.next (length n.log)
            × Fits (req.prev_log_index +ℤ pos (length req.entries) +ℤ pos 1) (length n.log))
      → IsOrdered n.current_term n.log
      → Within n
      → Moved n m
  unfolding step
  replied-Moved task req resp n m back ran led fits ordered within =
      let (term, contends) = step-Contends (peer_replied task req resp) n m tt back ran in
      let log = step-log (peer_replied task req resp) n m tt back ran in
      same_log-Moved n m log term contends
        (finish_replication-Within task req resp n m ran log fits led within) ordered

  pub pushed-Moved :
      (req : ClientReq) (n : Node)
      → is_leader n.state ≡ true
      → IsOrdered n.current_term n.log
      → Within n
      → Moved n (push (client_entry req n) n)
  unfolding push write client_entry
  pushed-Moved req n leads ordered within =
      let e = client_entry req n in
      let more = Prefix-append n.log (e ∷ []) in
      record {
        term = omega arith;
        ordered = IsOrdered-push n.current_term n.log e refl refl ordered;
        keeps = λ _ held. Prefix-trans L n.log (n.log ++ e ∷ []) held more;
        runs = λ stands _. (stands, more);
        within = λ _ q id addr at_q.
            Fits-more _ (length n.log) (length (n.log ++ e ∷ []))
              (omega (arith, length-append n.log (e ∷ []))) (within leads q id addr at_q);
      }

  pub received-Moved :
      (g : Ledger) (req : AppendEntriesRequest) (n m : Node) (resp : AppendEntriesResponse)
      → ((u : ℕ) → IsLogged g (g.text u))
      → ((u : ℕ) → IsOrdered u (g.text u))
      → IsEnd g req
      → IsLogged g n.log
      → (t ≤ req.term → Prefix L (g.text req.term))
      → handle_append_entries req n ≡ some (m, resp)
      → IsOrdered n.current_term n.log
      → Within n
      → Moved n m
  received-Moved g req n m resp logged texts made before known ran ordered within =
      elim (received-either req n m resp ran) [
        | inl same ↦ rw same (stayed-Moved n ordered within)
        | inr (current, term, state) ↦ record {
          term = omega arith;
          ordered = elim (received-Follows g logged req (inr made) n before m resp ran) [
            | inl some_of ↦
                IsOrdered-Prefix m.current_term m.log n.log some_of
                  (IsOrdered-later n.current_term m.current_term n.log (omega arith) ordered)
            | inr taken ↦
                IsOrdered-Prefix m.current_term m.log (g.text req.term) taken
                  (rw term (texts req.term))
          ];
          keeps = λ le held.
              received-Prefix g logged req made n before L held (known (omega arith)) m resp ran;
          runs = λ stands. absurd (subst Contends state stands);
          within = λ leads. absurd (cc (leads, state));
        }
      ]
