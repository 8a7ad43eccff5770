-- ===== src/Raft/Append/Agreement.antt =====
-- What an accepted request means for the log.
use native.Mathlib.Decide.{ℕ_discrete}
use mathlib.Core.Bool.{false≢true}
use orris.Prelude.{
  map, pos, ◌+ℤ◌, subst, lt_of_get_elem?, length-take, take-append, drop-append, ℕ, zero, suc,
  take_all, ap₂, ◌≡◌, ◌≤◌, refl, true, false, some, List, [], ◌∷◌, ◌++◌, arith, nat_eq, ◌==◌,
  Bool-cases, inl, inr, length, take, drop, ap, ◌∙◌, sym,
}
use orris.Storage.{LogEntry}
use orris.Transport.{AppendEntriesRequest, AppendEntriesResponse}
use orris.Raft.State.{Node}
use orris.Raft.Append.{handle_append_entries}
use orris.Raft.Append.Merge.{merge}
use orris.Raft.Append.Outcome.{HasPrevious, Outcome, handle_append_entries-Handled}

abbrev pub terms : List LogEntry → List ℕ
terms = map λ e. e.term

-- The merged log has entries of the new entries' terms at their positions.
merge-terms : (old new : List LogEntry) → terms (take (length new) (merge old new)) ≡ terms new
unfolding merge
merge-terms [] new = rw (take_all (length new) new (omega arith))
merge-terms (o ∷ old) [] = refl
merge-terms (o ∷ old) (e ∷ new) = elim (Bool-cases (o.term == e.term)) [
  | inl same ↦
      let here : o.term ≡ e.term = ground arith in rw same (ap₂ ◌∷◌ here (merge-terms old new))
  | inr differ ↦ rw (differ, take_all (length new) new (omega arith))
]

-- Two entries at one index with one term are the same entry: Raft's log matching property.
abbrev pub IsMatching : List LogEntry → List LogEntry → Type 0
IsMatching [] new = Unit
IsMatching (o ∷ old) [] = Unit
IsMatching (o ∷ old) (e ∷ new) = (o.term ≡ e.term → o ≡ e) × IsMatching old new

-- The merged log begins with the new entries.
merge-starts_with :
    (old new : List LogEntry) → IsMatching old new → take (length new) (merge old new) ≡ new
unfolding merge
merge-starts_with [] new h = take_all (length new) new (omega arith)
merge-starts_with (o ∷ old) [] h = refl
merge-starts_with (o ∷ old) (e ∷ new) h = elim (ℕ_discrete o.term e.term) [
  | yes same ↦
      let test : (o.term == e.term) ≡ true = ground arith in
      rw test (ap₂ ◌∷◌ (h.0 same) (merge-starts_with old new h.1))
  | no differ ↦
      let test : (o.term == e.term) ≡ false = ground arith in
      rw test (ap (◌∷◌ e) (take_all (length new) new (omega arith)))
]

merge_self : (new : List LogEntry) → merge new new ≡ new
unfolding merge
merge_self [] = refl
merge_self (e ∷ new) = ground (arith, merge_self new)

merge_idem : (old new : List LogEntry) → merge (merge old new) new ≡ merge old new
unfolding merge
merge_idem [] new = merge_self new
merge_idem (o ∷ old) [] = refl
merge_idem (o ∷ old) (e ∷ new) = ground (arith, merge_idem old new, merge_self new)

-- What a successful reply says of the handler's run, from `Handled`.
accepted :
    (k : ℕ) (req : AppendEntriesRequest) (n m : Node) (resp : AppendEntriesResponse)
    → req.prev_log_index +ℤ pos 1 ≡ pos k
    → handle_append_entries req n ≡ some (m, resp)
    → resp.success ≡ true
    → HasPrevious k req.prev_log_term n.log
      × (m.log ≡ take k n.log ++ merge (drop k n.log) req.entries)
accepted k req n m resp start ran won =
    let (r, ran', outcome) = handle_append_entries-Handled k req n start in
    let same : r ≡ (m, resp) = cc (ran, ran') in by_outcome (subst (Outcome k req n) same outcome)
  where
    by_outcome :
        Outcome k req n (m, resp)
        → HasPrevious k req.prev_log_term n.log
          × (m.log ≡ take k n.log ++ merge (drop k n.log) req.entries)
    by_outcome (inl (_, lost, _)) = absurd (false≢true (sym lost ∙ won))
    by_outcome (inr (inl (_, _, lost, _))) = absurd (false≢true (sym lost ∙ won))
    by_outcome (inr (inr (_, found, _, logged))) = (found, logged)

length-of-previous : (k term : ℕ) (log : List LogEntry) → HasPrevious k term log → k ≤ length log
length-of-previous zero term log h = omega arith
length-of-previous (suc p) term log (e, got, _) = lt_of_get_elem? p log e got

length-take_le : (k : ℕ) (log : List LogEntry) → k ≤ length log → length (take k log) ≡ k
length-take_le k log h = omega (arith, length-take k log)

-- After a success reply to a request whose entries start at `k`, the first `k` entries of the log are
-- those of before, and at the position of each new entry the log has an entry of its term.
pub accepted_agrees :
    (k : ℕ) (req : AppendEntriesRequest) (n m : Node) (resp : AppendEntriesResponse)
    → req.prev_log_index +ℤ pos 1 ≡ pos k
    → handle_append_entries req n ≡ some (m, resp)
    → resp.success ≡ true
    → (take k m.log ≡ take k n.log)
      × (terms (take (length req.entries) (drop k m.log)) ≡ terms req.entries)
accepted_agrees k req n m resp start ran won =
    let (found, logged) = accepted k req n m resp start ran won in
    let size = length-take_le k n.log (length-of-previous k req.prev_log_term n.log found) in
    let rest = merge (drop k n.log) req.entries in
    let kept : take k (take k n.log ++ rest) ≡ take k n.log =
      subst (λ j. take j (take k n.log ++ rest) ≡ take k n.log) size
        (take-append (take k n.log) rest) in
    let behind : drop k (take k n.log ++ rest) ≡ rest =
      subst (λ j. drop j (take k n.log ++ rest) ≡ rest) size (drop-append (take k n.log) rest) in
    (rw logged kept, rw (logged, behind) (merge-terms (drop k n.log) req.entries))

-- If entries of one index and one term are equal on both sides, a success reply means that the log holds
-- the request's entries from `k` on.
accepted_holds :
    (k : ℕ) (req : AppendEntriesRequest) (n m : Node) (resp : AppendEntriesResponse)
    → req.prev_log_index +ℤ pos 1 ≡ pos k
    → handle_append_entries req n ≡ some (m, resp)
    → resp.success ≡ true
    → IsMatching (drop k n.log) req.entries
    → take (length req.entries) (drop k m.log) ≡ req.entries
accepted_holds k req n m resp start ran won matching =
    let (found, logged) = accepted k req n m resp start ran won in
    let size = length-take_le k n.log (length-of-previous k req.prev_log_term n.log found) in
    let rest = merge (drop k n.log) req.entries in
    let behind : drop k (take k n.log ++ rest) ≡ rest =
      subst (λ j. drop j (take k n.log ++ rest) ≡ rest) size (drop-append (take k n.log) rest) in
    rw (logged, behind) (merge-starts_with (drop k n.log) req.entries matching)

-- A request that is accepted a second time, right after the first, leaves the log as it is.
pub accepted_again :
    (k : ℕ) (req : AppendEntriesRequest) (n m l : Node) (resp again : AppendEntriesResponse)
    → req.prev_log_index +ℤ pos 1 ≡ pos k
    → handle_append_entries req n ≡ some (m, resp)
    → resp.success ≡ true
    → handle_append_entries req m ≡ some (l, again)
    → again.success ≡ true
    → l.log ≡ m.log
accepted_again k req n m l resp again start ran won ran₂ won₂ =
    let (found, logged) = accepted k req n m resp start ran won in
    let (_, logged₂) = accepted k req m l again start ran₂ won₂ in
    let size = length-take_le k n.log (length-of-previous k req.prev_log_term n.log found) in
    let rest = merge (drop k n.log) req.entries in
    let kept : take k (take k n.log ++ rest) ≡ take k n.log =
      subst (λ j. take j (take k n.log ++ rest) ≡ take k n.log) size
        (take-append (take k n.log) rest) in
    let behind : drop k (take k n.log ++ rest) ≡ rest =
      subst (λ j. drop j (take k n.log ++ rest) ≡ rest) size (drop-append (take k n.log) rest) in
    logged₂ ∙ rw (logged, kept, behind, merge_idem)
