-- ===== src/Network/Backed.antt =====
-- What stands behind a call: the log of the term's leader, as far as its task and its request speak of it.
use orris.Prelude.{
  ℕ, true, ◌≡◌, sym, ap, ◌∙◌, subst, some, arith, length, length-drop, pos, ◌+ℤ◌, int_laws,
  pos_part, neg_part, Prefix-refl, length-Prefix, get_elem?,
}
use orris.Transport.{AppendEntriesRequest}
use orris.Raft.State.{Node}
use orris.Raft.Election.{is_leader}
use orris.Raft.Replication.{PeerTask, append_request, begin_replication, send_heartbeats}
use orris.Raft.Replication.Exchange.{append_request_term}
use orris.Network.{Stage, planned, sent, answered, closed, Call}
use orris.Network.Ledger.{Ledger, Extends}
use orris.Network.Requests.{IsEnd, IsEnd-Extends, append_request-IsEnd}
use orris.Network.Indexes.{Fits, Fits-more, Within, send_heartbeats-Fits}
use orris.Network.Invariant.{Leading}

-- A request of the task, with the end of a log of its term.
abbrev pub Sent : Ledger → PeerTask → AppendEntriesRequest → Type 0
Sent g task req = IsEnd g req × (req.term ≡ task.term) × (g.begun req.term ≡ true)

abbrev pub Stands : Ledger → PeerTask → Stage → Type 0
Stands g task planned = Unit
Stands g task (sent req) = Sent g task req
Stands g task (answered req resp) = Sent g task req
Stands g task closed = Unit

pub record Backed (g : Ledger) (call : Call) : Type 0 where
  pub fits : Fits call.task.next (length (g.text call.task.term))
  pub stands : Stands g call.task call.stage

module _ (g g' : Ledger) (more : Extends g g')
    (begun : (u : ℕ) → g.begun u ≡ true → g'.begun u ≡ true) where
  Stands-Extends : (task : PeerTask) (s : Stage) → Stands g task s → Stands g' task s
  Stands-Extends task planned h = tt
  Stands-Extends task (sent req) (end, term, there) =
      (IsEnd-Extends g g' req more end, term, begun req.term there)
  Stands-Extends task (answered req resp) (end, term, there) =
      (IsEnd-Extends g g' req more end, term, begun req.term there)
  Stands-Extends task closed h = tt

  pub Backed-Extends : (call : Call) → Backed g call → Backed g' call
  Backed-Extends call h = record {
    fits =
        Fits-more call.task.next (length (g.text call.task.term)) (length (g'.text call.task.term))
          (length-Prefix (g.text call.task.term) (g'.text call.task.term) (more call.task.term))
          h.fits;
    stands = Stands-Extends call.task call.stage h.stands;
  }

-- A task is planned by the leader of its term.
pub planned-Fits :
    (g : Ledger) (n : Node) (p : ℕ) (task : PeerTask)
    → get_elem? (send_heartbeats n) p ≡ some task
    → Within n
    → Leading g n
    → Fits task.next (length (g.text task.term))
planned-Fits g n p task in_round within leading =
    let (leads, term, fits) = send_heartbeats-Fits n p task in_round within in
    let (_, text) = leading leads in
    subst (λ l. Fits task.next (length l)) (text ∙ ap g.text (sym term)) fits

pub begun-request :
    (task : PeerTask) (n : Node) (req : AppendEntriesRequest)
    → begin_replication task n ≡ some req
    → (is_leader n.state ≡ true) × (n.current_term ≡ task.term) × (append_request task n ≡ req)
unfolding begin_replication
begun-request task n req made = ground (arith, made)

-- A request is made by the leader of its term.
pub made-Sent :
    (g : Ledger) (n : Node) (task : PeerTask) (req : AppendEntriesRequest)
    → begin_replication task n ≡ some req
    → Leading g n
    → Fits task.next (length (g.text task.term))
    → Sent g task req
made-Sent g n task req made leading (k, next, inside) =
    let (leads, term, same) = begun-request task n req made in
    let (begun, text) = leading leads in
    let log : n.log ≡ g.text task.term = text ∙ ap g.text term in
    let named : req.term ≡ task.term =
      ap (λ (r : AppendEntriesRequest). r.term) (sym same) ∙ append_request_term task n in
    (
      subst (IsEnd g) same
          (append_request-IsEnd g task n k next (rw log inside) (rw log (Prefix-refl _))),
      named,
      rw (named, sym term) begun,
    )

-- What a leader records when its request was accepted is within its log.
pub matched-Fits :
    (g : Ledger) (req : AppendEntriesRequest)
    → IsEnd g req
    → Fits (req.prev_log_index +ℤ pos (length req.entries) +ℤ pos 1) (length (g.text req.term))
matched-Fits g req h = (
  length h.base,
  omega (
    int_laws,
    h.inside,
    length-drop h.from h.base,
    ap length h.entries,
    ap pos_part h.start,
    ap neg_part h.start,
  ),
  length-Prefix h.base (g.text req.term) h.written,
)
