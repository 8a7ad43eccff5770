-- ===== src/Raft/Recovery/Spelling.antt =====
-- What the records of a log say, one by one: which term and vote, which commit index, which entries.
use text.Mathlib.TextEquality.{eq_iff}
use mathlib.Core.List.{append_assoc}
use Prim.Native.Nat.{min}
use orris.Prelude.{
  ℕ, ◌+◌, String, ◌≡◌, ◌≢◌, ◌<◌, ◌⊎◌, inl, inr, refl, sym, ap, ◌∙◌, subst, Option, none, some, List,
  [], ◌∷◌, ◌++◌, arith, ◌==◌, string_eq, if◌then◌else◌, true, ℤ, pos, negsuc, minus_one, ◌≤ℤ◌, ◌+ℤ◌,
  length, get_elem?, length-append, lt_of_get_elem?, get_elem?-append_left, get_elem?-append_right,
}
use native.Mathlib.Decide.{ℕ_discrete}
use orris.Storage.{WalRecord, LogEntry, record_state, record_entry, record_truncate, record_commit}
use orris.Raft.State.{Durable}

abbrev pub Each : (WalRecord → Type 0) → List WalRecord → Type 0
Each P [] = Unit
Each P (r ∷ rs) = P r × Each P rs

-- A record of the list for which `P` holds, with the records before and after it.
abbrev pub Somewhere :
    (List WalRecord → WalRecord → List WalRecord → Type 0) → List WalRecord → Type 0
Somewhere P rs =
    (before : List WalRecord) × (r : WalRecord) × (after : List WalRecord) × (rs
      ≡ before ++ r ∷ after)
    × P before r after

-- The term and the vote are those of the last STATE record, or none if there is no such record.
abbrev pub StateOf : List WalRecord → ℕ → String → Type 0
StateOf rs term vote =
    ((term ≡ 0) × (vote ≡ "") × Each (λ r. r.type ≢ record_state) rs)
    ⊎ Somewhere
        (λ before r after.
          (r.type ≡ record_state)
          × (r.term ≡ term)
          × (r.voted_for ≡ vote)
          × Each (λ later. later.type ≢ record_state) after)
        rs

-- The commit index is the highest of the COMMIT records, or -1.
abbrev pub CommitOf : List WalRecord → ℤ → Type 0
CommitOf rs index =
    Each (λ r. r.type ≡ record_commit → r.commit_index ≤ℤ index) rs
    × ((index ≡ minus_one)
        ⊎ Somewhere (λ before r after. (r.type ≡ record_commit) × (r.commit_index ≡ index)) rs)

abbrev pub count : Option LogEntry → ℕ
count none = 0
count (some _) = 1

abbrev pub kept_below : ℤ → ℕ
kept_below (pos k) = k
kept_below (negsuc _) = 0

-- The number of entries: an ENTRY record adds its entry, a TRUNCATE record keeps those up to its index.
abbrev pub resized : WalRecord → ℕ → ℕ
resized r k =
    if r.type == record_entry
    then k + count r.entry
    else if r.type == record_truncate
    then min (kept_below (r.commit_index +ℤ pos 1)) k
    else k

abbrev pub entries_after : List WalRecord → ℕ → ℕ
entries_after [] k = k
entries_after (r ∷ rs) k = entries_after rs (resized r k)

-- The entry at `k` is that of an ENTRY record which found `k` entries, and no later TRUNCATE is to an index
-- below `k`.
abbrev pub LogOf : List WalRecord → List LogEntry → Type 0
LogOf rs log =
    (length log ≡ entries_after rs 0)
    × ((k : ℕ) (e : LogEntry)
        → get_elem? log k ≡ some e
        → Somewhere
            (λ before r after.
              (r.type ≡ record_entry)
              × (r.entry ≡ some e)
              × (entries_after before 0 ≡ k)
              × Each (λ later. later.type ≡ record_truncate → pos k ≤ℤ later.commit_index) after)
            rs)

pub record Spells (rs : List WalRecord) (d : Durable) : Type 0 where
  pub state : StateOf rs d.current_term d.voted_for
  pub commit : CommitOf rs d.commit_index
  pub log : LogOf rs d.log

pub Each-snoc :
    (P : WalRecord → Type 0) (rs : List WalRecord) (r : WalRecord)
    → Each P rs
    → P r
    → Each P (rs ++ r ∷ [])
Each-snoc P [] r h p = (p, tt)
Each-snoc P (x ∷ rs) r h p = (h.0, Each-snoc P rs r h.1 p)

entries_after-snoc :
    (rs : List WalRecord) (r : WalRecord) (k : ℕ)
    → entries_after (rs ++ r ∷ []) k ≡ resized r (entries_after rs k)
entries_after-snoc [] r k = refl
entries_after-snoc (x ∷ rs) r k = entries_after-snoc rs r (resized x k)

module _ (rs : List WalRecord) (r : WalRecord) where
  abbrev more : List WalRecord
  more = rs ++ r ∷ []

  Somewhere-snoc :
      (P Q : List WalRecord → WalRecord → List WalRecord → Type 0)
      → ((before : List WalRecord) (x : WalRecord) (after : List WalRecord)
          → P before x after
          → Q before x (after ++ r ∷ []))
      → Somewhere P rs
      → Somewhere Q more
  Somewhere-snoc P Q step (before, x, after, same, h) = (
    before,
    x,
    after ++ r ∷ [],
    ap (λ l. l ++ r ∷ []) same ∙ append_assoc before (x ∷ after) (r ∷ []),
    step before x after h,
  )

  pub StateOf-later :
      (term : ℕ) (vote : String)
      → r.type ≢ record_state
      → StateOf rs term vote
      → StateOf more term vote
  StateOf-later term vote other (inl (no_term, no_vote, none_yet)) =
      inl (no_term, no_vote, Each-snoc (λ x. x.type ≢ record_state) rs r none_yet other)
  StateOf-later term vote other (inr last) = inr (
      Somewhere-snoc _ _
        (λ before x after (type, t, v, none_after).
          (type, t, v, Each-snoc (λ y. y.type ≢ record_state) after r none_after other))
        last)

  pub CommitOf-later :
      (index : ℤ)
      → (r.type ≡ record_commit → r.commit_index ≤ℤ index)
      → CommitOf rs index
      → CommitOf more index
  CommitOf-later index low (all, inl none_yet) =
      (Each-snoc (λ x. x.type ≡ record_commit → x.commit_index ≤ℤ index) rs r all low, inl none_yet)
  CommitOf-later index low (all, inr there) = (
    Each-snoc (λ x. x.type ≡ record_commit → x.commit_index ≤ℤ index) rs r all low,
    inr (Somewhere-snoc _ _ (λ before x after h. h) there),
  )

  abbrev Placed : ℕ → LogEntry → List WalRecord → Type 0
  Placed k e = Somewhere λ before x after.
      (x.type ≡ record_entry)
      × (x.entry ≡ some e)
      × (entries_after before 0 ≡ k)
      × Each (λ later. later.type ≡ record_truncate → pos k ≤ℤ later.commit_index) after

  Placed-later :
      (k : ℕ) (e : LogEntry)
      → (r.type ≡ record_truncate → pos k ≤ℤ r.commit_index)
      → Placed k e rs
      → Placed k e more
  Placed-later k e above = Somewhere-snoc _ _ λ before x after (type, entry, here, kept). (
    type,
    entry,
    here,
    Each-snoc (λ y. y.type ≡ record_truncate → pos k ≤ℤ y.commit_index) after r kept above,
  )

  -- The entries that are left stand where they stood.
  pub LogOf-later :
      (log log' : List LogEntry)
      → length log' ≡ resized r (length log)
      → ((k : ℕ) (e : LogEntry)
          → get_elem? log' k ≡ some e
          → (get_elem? log k ≡ some e) × (r.type ≡ record_truncate → pos k ≤ℤ r.commit_index))
      → LogOf rs log
      → LogOf more log'
  LogOf-later log log' size old (sized, placed) = (
    size ∙ ap (resized r) sized ∙ sym (entries_after-snoc rs r 0),
    λ k e got. let (before, above) = old k e got in Placed-later k e above (placed k e before),
  )

  pub LogOf-push :
      (log : List LogEntry) (new : LogEntry)
      → r.type ≡ record_entry
      → r.entry ≡ some new
      → r.type ≢ record_truncate
      → LogOf rs log
      → LogOf more (log ++ new ∷ [])
  LogOf-push log new type entry other (sized, placed) =
      let test : (r.type == record_entry) ≡ true =
        ground (arith, type, eq_iff r.type record_entry) in
      let size : resized r (length log) ≡ length log + 1 = rw (test, entry) refl in
      (
        omega (
          arith,
          length-append log (new ∷ []),
          size,
          ap (resized r) sized,
          entries_after-snoc rs r 0,
        ),
        λ k e got. elim (ℕ_discrete k (length log)) [
          | no before ↦
              let within = lt_of_get_elem? k (log ++ new ∷ []) e got in
              let inside : k < length log = omega (arith, length-append log (new ∷ [])) in
              Placed-later k e (λ cut. absurd (other cut))
                (placed k e (sym (get_elem?-append_left k log (new ∷ []) inside) ∙ got))
          | yes last ↦
              let here : get_elem? (log ++ new ∷ []) (length log) ≡ some new =
                subst (λ j. get_elem? (log ++ new ∷ []) j ≡ some new) (omega arith)
                  (get_elem?-append_right log (new ∷ []) 0) in
              let same : some new ≡ some e = cc (here, got, last) in
              (rs, r, [], refl, (type, entry ∙ same, sym sized ∙ sym last, tt))
        ],
      )
