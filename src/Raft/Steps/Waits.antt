-- ===== src/Raft/Steps/Waits.antt =====
-- What the wait of `handleClientReq` in internal/raft/client.go relies on: while a node leads in the term
-- of a request, the entry stays in its place, so a success reply speaks of the client's own entry.
use orris.Prelude.{
  ℕ, ◌+◌, Bool, true, ◌≡◌, ◌∙◌, ap, some, List, [], ◌∷◌, ◌++◌, arith, pos, ◌≤ℤ◌, nat_eq, length,
  get_elem?, get_elem?-append_left, get_elem?-append_right, lt_of_get_elem?,
}
use orris.Storage.{LogEntry}
use orris.Raft.State.{Node, ClientReq}
use orris.Raft.Append.{push}
use orris.Raft.Election.{is_leader}
use orris.Raft.Client.{client_entry, Pending, begin_client_req, committed, poll_client_req}
use orris.Raft.Recovery.Restores.{IsRecoverable}
use orris.Raft.Steps.{Event, run}
use orris.Raft.Steps.Recoverable.{IsRecoverable-Keeps}
use orris.Raft.Steps.Standing.{Both, run-Here, leads-IsApart}

abbrev HasEntry : ℕ → LogEntry → List LogEntry → Type 0
HasEntry idx e log = get_elem? log idx ≡ some e

HasEntry-grows :
    (idx : ℕ) (e : LogEntry) (log : List LogEntry) (new : LogEntry)
    → HasEntry idx e log
    → HasEntry idx e (log ++ new ∷ [])
HasEntry-grows idx e log new held =
    get_elem?-append_left idx log (new ∷ []) (lt_of_get_elem? idx log e held) ∙ held

-- A request that is accepted was given to a leader, and waits for the end of its log in its term.
accepted-place :
    (req : ClientReq) (n : Node) (p : Pending)
    → (begin_client_req req n).1 ≡ some p
    → (is_leader n.state ≡ true) × ((p.idx ≡ length n.log) × (p.term ≡ n.current_term))
unfolding begin_client_req
accepted-place req n p accepted = ground (arith, accepted)

began :
    (req : ClientReq) (n : Node) (p : Pending)
    → IsRecoverable n
    → (begin_client_req req n).1 ≡ some p
    → Both p.term
        (HasEntry p.idx (client_entry req n))
        (HasEntry-grows p.idx (client_entry req n))
        (begin_client_req req n).0
unfolding begin_client_req push
began req n p back accepted =
    let (leads, (idx, term)) = accepted-place req n p accepted in
    let entry = client_entry req n in
    rw (leads, idx, term)
      (
        IsRecoverable-Keeps.pushed entry n back,
        record {
          reached = omega arith;
          stands = λ _. leads-IsApart n.state leads;
          there = λ _ _.
              let last : length n.log ≡ length n.log + 0 = omega arith in
              ap (get_elem? (n.log ++ entry ∷ [])) last
              ∙ get_elem?-append_right n.log (entry ∷ []) 0;
        },
      )

-- A success says that the node leads in the request's term, and that the index is committed.
poll-committed :
    (p : Pending) (late : Bool) (m : Node)
    → poll_client_req p late m ≡ committed
    → (is_leader m.state ≡ true) × ((p.term ≡ m.current_term) × (pos p.idx ≤ℤ m.commit_index))
unfolding poll_client_req
poll-committed p late m done = ground (arith, done)

-- If a leader accepts a request, anything happens, crashes and restarts included, and a tick of the wait
-- then finds success, whether or not the deadline has passed, the log of the node has the entry of this
-- request in its place, and the commit index has reached it. The node's log file was open, and a restart
-- would have restored the node when it accepted.
pub client_reply :
    (req : ClientReq) (n m : Node) (p : Pending) (es : List Event) (late : Bool)
    → IsRecoverable n
    → (begin_client_req req n).1 ≡ some p
    → run es (begin_client_req req n).0 ≡ some m
    → poll_client_req p late m ≡ committed
    → (get_elem? m.log p.idx ≡ some (client_entry req n)) × (pos p.idx ≤ℤ m.commit_index)
client_reply req n m p es late back accepted ran done =
    let (leads, (same, reached)) = poll-committed p late m done in
    let held =
      run-Here p.term (HasEntry p.idx (client_entry req n))
        (HasEntry-grows p.idx (client_entry req n)) es (begin_client_req req n).0 m
        (began req n p back accepted) ran in
    (held.there same leads, reached)
