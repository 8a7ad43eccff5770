-- ===== src/Raft/Append/Outcome.antt =====
-- The whole handler: which requests are accepted, and the log that each outcome leaves.
use native.Mathlib.Decide.{dec_lt, ℕ_discrete}
use orris.Prelude.{
  Option, none, pos_part, neg_part, minus_one, int_laws, ℕ, zero, suc, ◌-◌, ◌≡◌, ◌≢◌, ◌≤◌, ◌<◌, ◌⊎◌,
  refl, sym, ap, true, false, some, List, ◌++◌, arith, nat_eq, Bool-cases, inl, inr, length, take,
  drop, get_elem?, pos, minus_one, lt_of_get_elem?, ◌∙◌, take_all, le_of_get_elem?-none,
  Option-cases, ◌+ℤ◌,
}
use orris.Storage.{LogEntry}
use orris.Transport.{AppendEntriesRequest, AppendEntriesResponse}
use orris.Raft.State.{Node}
use orris.Raft.Vote.{step_down}
use orris.Raft.Append.{
  adopt_leader, handle_append_entries, acceptance, refusal, has_previous, check_previous,
  first_terms_differ, update_commit,
}
use orris.Raft.Append.Merge.{
  merge, append_entries-Merges, cut_to, truncate-pos, log-cut_to, merge_empty, merge_replaced,
}

pub log-adopt_leader : (req : AppendEntriesRequest) (n : Node) → (adopt_leader req n).log ≡ n.log
unfolding adopt_leader step_down
log-adopt_leader req n = ground arith

pub log-update_commit : (req : AppendEntriesRequest) (n : Node) → (update_commit req n).log ≡ n.log
unfolding update_commit
log-update_commit req n = ground arith

-- The entry before the request's entries, which start at `k`, is there with the stated term.
abbrev pub HasPrevious : ℕ → ℕ → List LogEntry → Type 0
HasPrevious zero term log = Unit
HasPrevious (suc p) term log = (e : LogEntry) × (get_elem? log p ≡ some e) × (e.term ≡ term)

module _ (req : AppendEntriesRequest) (n : Node) where
  -- The check lets the entries in, and has changed the log at most where they will replace it.
  abbrev Passes : ℕ → Type 0
  Passes k =
      (c : Node) × (check_previous req n ≡ some (c, true))
      × (k ≤ length c.log)
      × (take k c.log ++ merge (drop k c.log) req.entries
          ≡ take k n.log ++ merge (drop k n.log) req.entries)

  -- The check refuses, and has dropped the log from the entry before the request's on.
  abbrev Stops : ℕ → Type 0
  Stops p = (c : Node) × (check_previous req n ≡ some (c, false)) × (c.log ≡ take p n.log)

  check_first : req.prev_log_index ≡ minus_one → Passes 0
  unfolding check_previous
  check_first e = elim (Bool-cases (first_terms_differ req.entries n.log)) [
    | inl differ ↦ (
      cut_to 0 n,
      rw (e, differ, truncate-pos),
      omega arith,
      rw (log-cut_to 0 n, merge_empty, merge_replaced n.log req.entries differ),
    )
    | inr agree ↦ (n, rw (e, agree), omega arith, refl)
  ]

  check_found :
      (p : ℕ)
      → req.prev_log_index ≡ pos p
      → HasPrevious (suc p) req.prev_log_term n.log
      → Passes (suc p)
  unfolding check_previous has_previous
  check_found p e (old, got, same) =
      let inside = lt_of_get_elem? p n.log old got in (n, rw (e, got) (ground arith), inside, refl)

  Stops-inside :
      (p : ℕ) (old : LogEntry)
      → req.prev_log_index ≡ pos p
      → get_elem? n.log p ≡ some old
      → old.term ≢ req.prev_log_term
      → Stops p
  unfolding check_previous has_previous
  Stops-inside p old e got differ =
      let inside = lt_of_get_elem? p n.log old got in
      (cut_to p n, rw (e, got) (ground (arith, truncate-pos p n)), log-cut_to p n)

  Stops-beyond : (p : ℕ) → req.prev_log_index ≡ pos p → length n.log ≤ p → Stops p
  unfolding check_previous has_previous
  Stops-beyond p e outside = elim (dec_lt (length n.log) p) [
    | yes past ↦ (
      cut_to (length n.log) n,
      rw e (ground (arith, truncate-pos (length n.log) n)),
      log-cut_to (length n.log) n
          ∙ (take_all (length n.log) n.log (omega arith) ∙ sym (take_all p n.log outside)),
    )
    | no end ↦ (cut_to p n, rw e (ground (arith, truncate-pos p n)), log-cut_to p n)
  ]

  check_missing :
      (p : ℕ) → req.prev_log_index ≡ pos p → ¬ HasPrevious (suc p) req.prev_log_term n.log → Stops p
  check_missing p e missing = elim (Option-cases (get_elem? n.log p)) [
    | inl nothing ↦ Stops-beyond p e (le_of_get_elem?-none p n.log nothing)
    | inr (old, got) ↦ Stops-inside p old e got (λ same. missing (old, got, same))
  ]

-- What the handler did: it refused a term that is over, it refused for want of the entry before, or it
-- took the entries in.
abbrev pub Outcome : ℕ → AppendEntriesRequest → Node → Node × AppendEntriesResponse → Type 0
Outcome k req n (m, resp) =
    ((req.term < n.current_term) × (resp.success ≡ false) × (m ≡ n))
    ⊎ ((n.current_term ≤ req.term)
        × (¬ HasPrevious k req.prev_log_term n.log)
        × (resp.success ≡ false)
        × (m.log ≡ take (k - 1) n.log))
    ⊎ ((n.current_term ≤ req.term)
        × HasPrevious k req.prev_log_term n.log
        × (resp.success ≡ true)
        × (m.log ≡ take k n.log ++ merge (drop k n.log) req.entries))

abbrev pub Handled : ℕ → AppendEntriesRequest → Node → Type 0
Handled k req n =
    (r : Node × AppendEntriesResponse) × (handle_append_entries req n ≡ some r) × Outcome k req n r

module _ (k : ℕ) (req : AppendEntriesRequest) (n : Node) (current : n.current_term ≤ req.term) where
  Passes-Handled :
      req.prev_log_index +ℤ pos 1 ≡ pos k
      → HasPrevious k req.prev_log_term n.log
      → Passes req (adopt_leader req n) k
      → Handled k req n
  unfolding handle_append_entries acceptance
  Passes-Handled start found (c, checked, inside, same) =
      let (m, ran, logged) = append_entries-Merges req.entries k c inside in
      let result = update_commit req m in
      let shown : take k c.log ++ merge (drop k c.log) req.entries
          ≡ take k n.log ++ merge (drop k n.log) req.entries =
        rw (← log-adopt_leader req n) same in
      (
        (result, acceptance result),
        ground (arith, checked, ran, start),
        inr (inr (current, found, refl, log-update_commit req m ∙ logged ∙ shown)),
      )

  Stops-Handled :
      ¬ HasPrevious k req.prev_log_term n.log
      → Stops req (adopt_leader req n) (k - 1)
      → Handled k req n
  unfolding handle_append_entries refusal
  Stops-Handled missing (c, checked, logged) =
      let cut = logged ∙ ap (take (k - 1)) (log-adopt_leader req n) in
      ((c, refusal c), ground (arith, checked), inr (inl (current, missing, refl, cut)))

abbrev HasTerm : ℕ → Option LogEntry → Type 0
HasTerm term found = (e : LogEntry) × (found ≡ some e) × (e.term ≡ term)

dec-HasTerm : (term : ℕ) (found : Option LogEntry) → Dec (HasTerm term found)
dec-HasTerm term none = no λ h. cc (h.1)
dec-HasTerm term (some e) = elim (ℕ_discrete e.term term) [
  | yes same ↦ yes (e, refl, same)
  | no differ ↦ no λ h. differ (ground (arith, h.1, h.2))
]

pub handle_append_entries-Handled :
    (k : ℕ) (req : AppendEntriesRequest) (n : Node)
    → req.prev_log_index +ℤ pos 1 ≡ pos k
    → Handled k req n
handle_append_entries-Handled k req n start = elim (dec_lt req.term n.current_term) [
  | yes over ↦ (
    (n, refusal n),
    unfold handle_append_entries in ground arith,
    inl (over, unfold refusal in refl, refl),
  )
  | no current ↦ by_position k start (omega arith)
]
  where
    by_position :
        (j : ℕ) → req.prev_log_index +ℤ pos 1 ≡ pos j → n.current_term ≤ req.term → Handled j req n
    by_position zero e current =
        let first : req.prev_log_index ≡ minus_one =
          omega (int_laws, ap pos_part e, ap neg_part e) in
        Passes-Handled zero req n current e tt (check_first req (adopt_leader req n) first)
    by_position (suc p) e current =
        let place : req.prev_log_index ≡ pos p = omega (int_laws, ap pos_part e, ap neg_part e) in
        elim (dec-HasTerm req.prev_log_term (get_elem? n.log p)) [
          | yes found ↦
              Passes-Handled (suc p) req n current e found
                (check_found req (adopt_leader req n) p place (rw log-adopt_leader found))
          | no missing ↦
              let previous : suc p - 1 ≡ p = omega arith in
              let lacks : ¬ HasPrevious (suc p) req.prev_log_term (adopt_leader req n).log =
                rw log-adopt_leader missing in
              Stops-Handled (suc p) req n current missing
                (rw previous (check_missing req (adopt_leader req n) p place lacks))
        ]
