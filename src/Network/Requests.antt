-- ===== src/Network/Requests.antt =====
-- A request that a leader made, and what handling it leaves of the receiver's log.
use orris.Prelude.{
  ℕ, zero, suc, ◌-◌, ◌≡◌, ◌≤◌, ◌⊎◌, inl, inr, refl, sym, ap, ◌∙◌, subst, some, List, [], ◌++◌,
  arith, length, take, drop, ℤ, pos, negsuc, ◌+ℤ◌, Prefix, Prefix-refl, Prefix-trans, Prefix-take,
  take-append-drop, ltb, Bool-cases, int_laws, pos_succ, pred_succ, pos_part, neg_part,
  get_elem?_lt,
}
use orris.Storage.{LogEntry}
use orris.Transport.{AppendEntriesRequest, AppendEntriesResponse}
use orris.Raft.State.{Node}
use orris.Raft.Append.{adopt_leader, handle_append_entries, check_previous, append_entries}
use orris.Raft.Append.Merge.{merge, merge-nil}
use orris.Raft.Append.Outcome.{
  log-adopt_leader, log-update_commit, HasPrevious, Outcome, handle_append_entries-Handled,
}
use orris.Raft.Replication.{PeerTask, append_request}
use orris.Raft.Replication.Exchange.{start-append_request, entries-append_request}
use orris.Network.Ledger.{
  Ledger, IsLogged, Extends, IsLogged-Prefix, IsLogged-same_term, merged-either,
}

-- The entries are the end of a log that the leader of the request's term had, from `k` on.
pub record IsEnd (g : Ledger) (req : AppendEntriesRequest) : Type 0 where
  pub base : List LogEntry
  pub from : ℕ
  pub start : req.prev_log_index +ℤ pos 1 ≡ pos from
  pub inside : from ≤ length base
  pub entries : req.entries ≡ drop from base
  pub previous : HasPrevious from req.prev_log_term base
  pub written : Prefix base (g.text req.term)

-- A request with entries holds the end of such a log.
abbrev pub IsMade : Ledger → AppendEntriesRequest → Type 0
IsMade g req = (req.entries ≡ []) ⊎ IsEnd g req

pub IsEnd-Extends :
    (g g' : Ledger) (req : AppendEntriesRequest) → Extends g g' → IsEnd g req → IsEnd g' req
IsEnd-Extends g g' req more h = record {
  base = h.base;
  from = h.from;
  start = h.start;
  inside = h.inside;
  entries = h.entries;
  previous = h.previous;
  written = Prefix-trans h.base (g.text req.term) (g'.text req.term) h.written (more req.term);
}

pub IsMade-Extends :
    (g g' : Ledger) (req : AppendEntriesRequest) → Extends g g' → IsMade g req → IsMade g' req
IsMade-Extends g g' req more (inl empty) = inl empty
IsMade-Extends g g' req more (inr h) = inr (IsEnd-Extends g g' req more h)

previous-append_request :
    (k : ℕ) (task : PeerTask) (l : Node)
    → task.next ≡ pos k
    → k ≤ length l.log
    → HasPrevious k (append_request task l).prev_log_term l.log
unfolding append_request
previous-append_request zero task l next inside = tt
previous-append_request (suc p) task l next inside =
    let (e, got) = get_elem?_lt p l.log (omega arith) in (e, got, rw (next, pred_succ p, got) refl)

-- What the leader of a term asks for at an index of its log.
pub append_request-IsEnd :
    (g : Ledger) (task : PeerTask) (l : Node) (k : ℕ)
    → task.next ≡ pos k
    → k ≤ length l.log
    → Prefix l.log (g.text task.term)
    → IsEnd g (append_request task l)
unfolding append_request
append_request-IsEnd g task l k next inside leads = record {
  base = l.log;
  from = k;
  start = start-append_request task k l next;
  inside = inside;
  entries = entries-append_request task k l next inside;
  previous = previous-append_request k task l next inside;
  written = leads;
}

append_request-from :
    (g : Ledger) (task : PeerTask) (l : Node) (k : ℕ)
    → task.next ≡ pos k
    → Prefix l.log (g.text task.term)
    → IsMade g (append_request task l)
unfolding append_request
append_request-from g task l k next leads = elim (Bool-cases (ltb k (length l.log))) [
  | inr end ↦ inl (rw (next, end) refl)
  | inl more ↦ inr (append_request-IsEnd g task l k next (ground (arith, more)) leads)
]

-- What the leader of a term asks for.
pub append_request-IsMade :
    (g : Ledger) (task : PeerTask) (l : Node)
    → Prefix l.log (g.text task.term)
    → IsMade g (append_request task l)
append_request-IsMade g task l leads = by_next task.next refl
  where
    by_next : (next : ℤ) → task.next ≡ next → IsMade g (append_request task l)
    by_next (pos k) e = append_request-from g task l k e leads
    by_next (negsuc k) e = inl (unfold append_request in rw e refl)

-- A request from before the first entry but one asks for nothing.
log-behind :
    (j : ℕ) (req : AppendEntriesRequest) (n m : Node) (resp : AppendEntriesResponse)
    → req.prev_log_index ≡ negsuc (suc j)
    → req.entries ≡ []
    → handle_append_entries req n ≡ some (m, resp)
    → m.log ≡ n.log
unfolding handle_append_entries check_previous append_entries
log-behind j req n m resp place empty ran =
    ground
      (arith, ran, place, empty, log-adopt_leader req n, log-update_commit req (adopt_leader req n))

-- The log after a request: some of the log before it, or one that the leader of the request's term had.
abbrev pub Follows : Ledger → AppendEntriesRequest → List LogEntry → List LogEntry → Type 0
Follows g req log log' = Prefix log' log ⊎ Prefix log' (g.text req.term)

-- Where the entry before `k` has the stated term in both, the logs are alike up to `k`.
pub previous-alike :
    (g : Ledger) (k term : ℕ) (a b : List LogEntry)
    → IsLogged g a
    → IsLogged g b
    → HasPrevious k term a
    → HasPrevious k term b
    → take k a ≡ take k b
previous-alike g zero term a b ha hb p q = refl
previous-alike g (suc k) term a b ha hb (o, at_a, same_a) (e, at_b, same_b) =
    IsLogged-same_term g a b k o e ha hb at_a at_b (same_a ∙ sym same_b)

module _ (g : Ledger) (logged : (t : ℕ) → IsLogged g (g.text t)) (req : AppendEntriesRequest)
    (made : IsMade g req) (n : Node) (before : IsLogged g n.log) where
  merged :
      (k : ℕ)
      → req.prev_log_index +ℤ pos 1 ≡ pos k
      → HasPrevious k req.prev_log_term n.log
      → Follows g req n.log (take k n.log ++ merge (drop k n.log) req.entries)
  merged k start found = elim made [
    | inl empty ↦
        let same : take k n.log ++ merge (drop k n.log) req.entries ≡ n.log =
          rw (empty, merge-nil (drop k n.log)) (take-append-drop k n.log) in
        inl (rw same (Prefix-refl n.log))
    | inr h ↦
        let here : k ≡ h.from = ground (arith, start, h.start) in
        let base_logged : IsLogged g h.base =
          IsLogged-Prefix g h.base (g.text req.term) h.written (logged req.term) in
        let alike =
          previous-alike g k req.prev_log_term n.log h.base before base_logged found
            (rw here h.previous) in
        let sent : req.entries ≡ drop k h.base = rw here h.entries in
        elim (merged-either g k n.log h.base before base_logged alike) [
          | inl kept ↦ inl (rw (sent, kept) (Prefix-refl n.log))
          | inr taken ↦ inr (rw (sent, taken) h.written)
        ]
  ]

  Outcome-Follows :
      (k : ℕ) (m : Node) (resp : AppendEntriesResponse)
      → req.prev_log_index +ℤ pos 1 ≡ pos k
      → Outcome k req n (m, resp)
      → Follows g req n.log m.log
  Outcome-Follows k m resp start (inl (_, _, same)) = inl (rw same (Prefix-refl n.log))
  Outcome-Follows k m resp start (inr (inl (_, _, _, cut))) =
      inl (rw cut (Prefix-take (k - 1) n.log))
  Outcome-Follows k m resp start (inr (inr (_, found, _, taken))) = rw taken (merged k start found)

  handled-Follows :
      (k : ℕ) (m : Node) (resp : AppendEntriesResponse)
      → req.prev_log_index +ℤ pos 1 ≡ pos k
      → handle_append_entries req n ≡ some (m, resp)
      → Follows g req n.log m.log
  handled-Follows k m resp start ran =
      let (r, ran', outcome) = handle_append_entries-Handled k req n start in
      let same : r ≡ (m, resp) = cc (ran, ran') in
      Outcome-Follows k m resp start (subst (Outcome k req n) same outcome)

  pub received-Follows :
      (m : Node) (resp : AppendEntriesResponse)
      → handle_append_entries req n ≡ some (m, resp)
      → Follows g req n.log m.log
  received-Follows m resp ran = by_place req.prev_log_index refl
    where
      by_place : (place : ℤ) → req.prev_log_index ≡ place → Follows g req n.log m.log
      by_place (pos p) e =
          let start : req.prev_log_index +ℤ pos 1 ≡ pos (suc p) = rw e (pos_succ p) in
          handled-Follows (suc p) m resp start ran
      by_place (negsuc zero) e =
          let start : req.prev_log_index +ℤ pos 1 ≡ pos 0 = rw e (unfold ◌+ℤ◌ in refl) in
          handled-Follows 0 m resp start ran
      by_place (negsuc (suc j)) e = elim made [
        | inl empty ↦ inl (rw (log-behind j req n m resp e empty ran) (Prefix-refl n.log))
        | inr h ↦ absurd (
            omega
              (int_laws, ap pos_part e, ap neg_part e, ap pos_part h.start, ap neg_part h.start))
      ]

  pub received-IsLogged :
      (m : Node) (resp : AppendEntriesResponse)
      → handle_append_entries req n ≡ some (m, resp)
      → IsLogged g m.log
  received-IsLogged m resp ran = elim (received-Follows m resp ran) [
    | inl some_of ↦ IsLogged-Prefix g m.log n.log some_of before
    | inr taken ↦ IsLogged-Prefix g m.log (g.text req.term) taken (logged req.term)
  ]
