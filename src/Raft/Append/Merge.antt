-- ===== src/Raft/Append/Merge.antt =====
-- The loop over the request's entries against a plain description of the log that it leaves.
use mathlib.Core.List.{append-nil, append_assoc}
use native.Mathlib.Decide.{dec_lt, ℕ_discrete}
use orris.Prelude.{
  ℕ, suc, ◌≡◌, ◌≤◌, refl, sym, true, false, Option, some, List, [], ◌∷◌, ◌++◌, arith, ◌==◌, nat_eq,
  if◌then◌else◌, length, take, drop, get_elem?, pos, ◌-ℤ◌, pos_succ, take-append-drop, take-suc,
  drop-cons, drop_all, take_all, get_elem?_lt, lt_of_get_elem?, ◌≢◌, length-append, ◌∙◌,
}
use orris.Storage.{LogEntry}
use orris.Raft.State.{Node, write, truncate_record}
use orris.Raft.Append.{truncate, first_terms_differ, push, push_all, append_entries}

-- Old entries are kept as long as the terms agree; from the first that does not, the new entries take
-- their place. Old entries behind the last new one stay.
unfoldable pub merge : List LogEntry → List LogEntry → List LogEntry
merge [] new = new
merge (o ∷ old) [] = o ∷ old
merge (o ∷ old) (e ∷ new) =
    let rest = merge old new in if o.term == e.term then o ∷ rest else e ∷ new

pub merge-nil : (old : List LogEntry) → merge old [] ≡ old
unfolding merge
merge-nil [] = refl
merge-nil (o ∷ old) = refl

pub merge_empty : (new : List LogEntry) → merge [] new ≡ new
unfolding merge
merge_empty new = refl

pub merge_replaced :
    (old new : List LogEntry) → first_terms_differ new old ≡ true → merge old new ≡ new
unfolding merge
merge_replaced [] new h = refl
merge_replaced (o ∷ old) [] h = absurd (cc)
merge_replaced (o ∷ old) (e ∷ new) h = ground arith

-- The log cut to its first entries, with the record of the cut.
abbrev pub cut_to : ℕ → Node → Node
cut_to k n =
    write (truncate_record (pos k -ℤ pos 1))
      (record n { durable = record n.durable { log = take k n.log } })

pub truncate-pos : (k : ℕ) (n : Node) → truncate (pos k) n ≡ some (cut_to k n)
unfolding truncate
truncate-pos k n = refl

pub log-cut_to : (k : ℕ) (n : Node) → (cut_to k n).log ≡ take k n.log
unfolding write
log-cut_to k n = refl

pub log-push_all : (es : List LogEntry) (n : Node) → (push_all es n).log ≡ n.log ++ es
unfolding push_all push
log-push_all [] n = sym (append-nil n.log)
log-push_all (e ∷ es) n = rw (log-push_all es (push e n)) (append_assoc n.log (e ∷ []) es)

pub log-push : (e : LogEntry) (n : Node) → (push e n).log ≡ n.log ++ e ∷ []
unfolding push
log-push e n = refl

-- The outcome of the loop: it does not panic, and leaves the merged log.
abbrev pub Merges : ℕ → List LogEntry → Node → Option Node → Type 0
Merges k es n result =
    (m : Node) × (result ≡ some m) × (m.log ≡ take k n.log ++ merge (drop k n.log) es)

module _ (k : ℕ) (e : LogEntry) (es : List LogEntry) (n : Node) where
  abbrev cut_here : Node
  cut_here = cut_to k n

  -- One round of the loop, by what stands at its index.
  round_beyond :
      length n.log ≤ k
      → append_entries (pos k) (e ∷ es) n ≡ append_entries (pos (suc k)) es (push e n)
  unfolding append_entries
  round_beyond h = rw pos_succ (ground arith)

  round_agreeing :
      (o : LogEntry)
      → get_elem? n.log k ≡ some o
      → o.term ≡ e.term
      → append_entries (pos k) (e ∷ es) n ≡ append_entries (pos (suc k)) es n
  unfolding append_entries
  round_agreeing o got same = rw (pos_succ, got) (ground (arith, lt_of_get_elem? k n.log o got))

  round_differing :
      (o : LogEntry)
      → get_elem? n.log k ≡ some o
      → o.term ≢ e.term
      → append_entries (pos k) (e ∷ es) n ≡ some (push_all (e ∷ es) cut_here)
  unfolding append_entries truncate
  round_differing o got differ = rw got (ground (arith, lt_of_get_elem? k n.log o got))

  abbrev Rest : Node → Type 0
  Rest m = Merges (suc k) es m (append_entries (pos (suc k)) es m)

  abbrev Here : Type 0
  Here = Merges k (e ∷ es) n (append_entries (pos k) (e ∷ es) n)

  merges_beyond : length n.log ≡ k → Rest (push e n) → Here
  unfolding merge
  merges_beyond h (m, ran, logged) =
      let size : length (n.log ++ e ∷ []) ≤ suc k = omega (arith, length-append n.log (e ∷ [])) in
      let shown : m.log
          ≡ take (suc k) (n.log ++ e ∷ []) ++ merge (drop (suc k) (n.log ++ e ∷ [])) es =
        rw (← log-push e n) logged in
      (
        m,
        round_beyond (omega arith) ∙ ran,
        shown
            ∙ rw
                (
                  take_all (suc k) (n.log ++ e ∷ []) size,
                  drop_all (suc k) (n.log ++ e ∷ []) size,
                  take_all k n.log (omega arith),
                  drop_all k n.log (omega arith),
                )
                (append_assoc n.log (e ∷ []) es),
      )

  merges_agreeing : (o : LogEntry) → get_elem? n.log k ≡ some o → o.term ≡ e.term → Rest n → Here
  unfolding merge
  merges_agreeing o got same (m, ran, logged) =
      let test : (o.term == e.term) ≡ true = ground arith in
      (
        m,
        round_agreeing o got same ∙ ran,
        logged
            ∙ rw (take-suc k n.log o got, drop-cons k n.log o got, test)
                (append_assoc (take k n.log) (o ∷ []) (merge (drop (suc k) n.log) es)),
      )

  merges_differing : (o : LogEntry) → get_elem? n.log k ≡ some o → o.term ≢ e.term → Here
  unfolding merge write
  merges_differing o got differ =
      let test : (o.term == e.term) ≡ false = ground arith in
      (
        push_all (e ∷ es) cut_here,
        round_differing o got differ,
        log-push_all (e ∷ es) cut_here ∙ rw (drop-cons k n.log o got, test),
      )

-- From a position that is not past the end, the loop leaves the merged log and does not panic.
pub append_entries-Merges :
    (es : List LogEntry) (k : ℕ) (n : Node)
    → k ≤ length n.log
    → Merges k es n (append_entries (pos k) es n)
append_entries-Merges [] k n h =
    (n, unfold append_entries in refl, rw (merge-nil, take-append-drop k n.log))
append_entries-Merges (e ∷ es) k n h = elim (dec_lt k (length n.log)) [
  | yes inside ↦
      let (o, got) = get_elem?_lt k n.log inside in
      elim (ℕ_discrete o.term e.term) [
        | yes same ↦ merges_agreeing k e es n o got same (append_entries-Merges es (suc k) n inside)
        | no differ ↦ merges_differing k e es n o got differ
      ]
  | no outside ↦
      let grown : suc k ≤ length (push e n).log =
        rw (log-push e n) (omega (arith, length-append n.log (e ∷ []))) in
      merges_beyond k e es n (omega arith) (append_entries-Merges es (suc k) (push e n) grown)
]
