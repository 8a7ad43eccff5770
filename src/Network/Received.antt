-- ===== src/Network/Received.antt =====
-- What a request of a leader leaves of what the log of the node that handles it began with.
use orris.Prelude.{ℕ, ◌≡◌, inl, inr, subst, some, List, Prefix}
use orris.Storage.{LogEntry}
use orris.Transport.{AppendEntriesRequest, AppendEntriesResponse}
use orris.Raft.State.{Node}
use orris.Raft.Append.{handle_append_entries}
use orris.Raft.Append.Outcome.{Outcome, handle_append_entries-Handled}
use orris.Network.Ledger.{Ledger, IsLogged, IsLogged-Prefix}
use orris.Network.Requests.{IsEnd, previous-alike}
use orris.Network.Merges.{merge-Prefix, merge-from, cut-Prefix}

module _ (g : Ledger) (logged : (t : ℕ) → IsLogged g (g.text t)) (req : AppendEntriesRequest)
    (made : IsEnd g req) (n : Node) (before : IsLogged g n.log) (L : List LogEntry)
    (held : Prefix L n.log) (known : Prefix L (g.text req.term)) where
  Outcome-Prefix :
      (m : Node) (resp : AppendEntriesResponse) → Outcome made.from req n (m, resp) → Prefix L m.log
  Outcome-Prefix m resp (inl (_, _, same)) = rw same held
  Outcome-Prefix m resp (inr (inl (_, missing, _, cut))) = rw cut (
      cut-Prefix made.from req.prev_log_term L n.log made.base (g.text req.term) held known
        made.written made.previous missing)
  Outcome-Prefix m resp (inr (inr (_, found, _, taken))) =
      let base_logged =
        IsLogged-Prefix g made.base (g.text req.term) made.written (logged req.term) in
      let alike =
        previous-alike g made.from req.prev_log_term n.log made.base before base_logged found
          made.previous in
      rw (taken, made.entries, merge-from made.from n.log made.base alike made.inside)
        (merge-Prefix L n.log made.base (g.text req.term) held known made.written)

  -- What both the node's log and that of the request's leader begin with is not lost.
  pub received-Prefix :
      (m : Node) (resp : AppendEntriesResponse)
      → handle_append_entries req n ≡ some (m, resp)
      → Prefix L m.log
  received-Prefix m resp ran =
      let (r, ran', outcome) = handle_append_entries-Handled made.from req n made.start in
      let same : r ≡ (m, resp) = cc (ran, ran') in
      Outcome-Prefix m resp (subst (Outcome made.from req n) same outcome)
