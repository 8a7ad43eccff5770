-- ===== src/Raft/Recovery/Spelled.antt =====
-- `recoverState` of internal/raft/node.go: it makes of the records what they say.
use text.Mathlib.TextEquality.{eq_iff}
use mathlib.Core.List.{append_assoc, append-nil}
use Prim.Native.Nat.{min}
use orris.Prelude.{
  ℕ, String, ◌≡◌, ◌≢◌, ◌<◌, inl, inr, refl, sym, ap, ◌∙◌, subst, Option, none, some, List, [], ◌∷◌,
  ◌++◌, foldl, arith, ◌==◌, string_eq, true, false, Bool-cases, ℤ, pos, negsuc, minus_one, ◌≤ℤ◌,
  ◌+ℤ◌, ltb_ℤ, length, take, int_laws, pos_part, neg_part, Map, length-take, take_all,
  lt_of_get_elem?, get_elem?-take, succ_of_above, ltb_ℤ→le,
}
use orris.Storage.{WalRecord, LogEntry, record_state, record_entry, record_truncate, record_commit}
use orris.Storage.Journal.{Journal}
use orris.Raft.State.{Durable, blank}
use orris.Raft.Apply.Prefix.{IsApplied}
use orris.Raft.Recovery.{recover_record, recover_truncate, push_some, replay, new_node}
use orris.Raft.Recovery.Restart.{new_node-replay, foldl-above}
use orris.Raft.Recovery.Spelling.{
  Each, StateOf, CommitOf, LogOf, Spells, kept_below, Each-snoc, StateOf-later, CommitOf-later,
  LogOf-later, LogOf-push,
}

Each-more :
    (P Q : WalRecord → Type 0) (rs : List WalRecord)
    → ((r : WalRecord) → P r → Q r)
    → Each P rs
    → Each Q rs
Each-more P Q [] f h = tt
Each-more P Q (r ∷ rs) f h = (f r h.0, Each-more P Q rs f h.1)

recover_truncate-take :
    (index : ℤ) (log : List LogEntry) → recover_truncate index log ≡ take (kept_below index) log
recover_truncate-take (pos k) log =
    let empty : k ≡ 0 → take k log ≡ [] = λ e. rw e in ground (arith, take_all k log, empty)
recover_truncate-take (negsuc k) log = refl

below_cut : (index : ℤ) (k : ℕ) → k < kept_below (index +ℤ pos 1) → pos k ≤ℤ index
below_cut index k less = by_sum (index +ℤ pos 1) refl less
  where
    by_sum : (sum : ℤ) → index +ℤ pos 1 ≡ sum → k < kept_below sum → pos k ≤ℤ index
    by_sum (pos j) e less = omega (int_laws, arith, ap pos_part e, ap neg_part e)
    by_sum (negsuc j) e less = absurd (omega arith)

differ : (s a b : String) → s ≡ a → (a == b) ≡ false → s ≢ b
differ s a b same apart e =
    let both : a ≡ b = sym same ∙ e in absurd (ground (arith, both, apart, eq_iff a b))

module _ (rs : List WalRecord) (r : WalRecord) (d : Durable) (h : Spells rs d) where
  same_log :
      (r.type == record_entry) ≡ false
      → (r.type == record_truncate) ≡ false
      → LogOf (rs ++ r ∷ []) d.log
  same_log entry cut =
      LogOf-later rs r d.log d.log (rw (entry, cut) refl)
        (λ k e got.
          (got, λ type. absurd (ground (arith, cut, type, eq_iff r.type record_truncate))))
        h.log

  same_state : (r.type == record_state) ≡ false → StateOf (rs ++ r ∷ []) d.current_term d.voted_for
  same_state other =
      StateOf-later rs r d.current_term d.voted_for
        (λ type. absurd (ground (arith, other, type, eq_iff r.type record_state))) h.state

  same_commit : (r.type == record_commit) ≡ false → CommitOf (rs ++ r ∷ []) d.commit_index
  same_commit other =
      CommitOf-later rs r d.commit_index
        (λ type. absurd (ground (arith, other, type, eq_iff r.type record_commit))) h.commit

  pushed_log :
      r.type ≡ record_entry
      → (o : Option LogEntry) → r.entry ≡ o
      → LogOf (rs ++ r ∷ []) (push_some o d.log)
  pushed_log type none e =
      let test : (r.type == record_entry) ≡ true =
        ground (arith, type, eq_iff r.type record_entry) in
      LogOf-later rs r d.log d.log (rw (test, e) (omega arith))
        (λ k x got. (got, λ cut. absurd (differ r.type record_entry record_truncate type refl cut)))
        h.log
  pushed_log type (some new) e =
      LogOf-push rs r d.log new type e (differ r.type record_entry record_truncate type refl) h.log

  cut_log :
      r.type ≡ record_truncate
      → LogOf (rs ++ r ∷ []) (recover_truncate (r.commit_index +ℤ pos 1) d.log)
  cut_log type =
      let bound = kept_below (r.commit_index +ℤ pos 1) in
      let test : (r.type == record_truncate) ≡ true =
        ground (arith, type, eq_iff r.type record_truncate) in
      let entry : (r.type == record_entry) ≡ false = rw type refl in
      rw (recover_truncate-take (r.commit_index +ℤ pos 1) d.log) (
        LogOf-later rs r d.log (take bound d.log) (rw (entry, test) (length-take bound d.log))
          (λ k e got.
            let within = lt_of_get_elem? k (take bound d.log) e got in
            let below : k < bound = omega (arith, length-take bound d.log) in
            (sym (get_elem?-take bound k d.log below) ∙ got, λ _. below_cut r.commit_index k below))
          h.log)

  raised :
      r.type ≡ record_commit
      → d.commit_index ≤ℤ r.commit_index
      → CommitOf (rs ++ r ∷ []) r.commit_index
  raised type higher = (
    Each-snoc (λ x. x.type ≡ record_commit → x.commit_index ≤ℤ r.commit_index) rs r
        (Each-more _ _ rs (λ x low is_commit. omega (arith, low is_commit, higher)) h.commit.0)
        (λ _. omega arith),
    inr (rs, r, [], refl, (type, refl)),
  )

  Spells-snoc : Spells (rs ++ r ∷ []) (recover_record d r)
  unfolding recover_record
  Spells-snoc = elim (Bool-cases (r.type == record_state)) [
    | inl state ↦
        let type : r.type ≡ record_state = ground (arith, state, eq_iff r.type record_state) in
        let entry : (r.type == record_entry) ≡ false = rw type refl in
        let cut : (r.type == record_truncate) ≡ false = rw type refl in
        let commit : (r.type == record_commit) ≡ false = rw type refl in
        rw state (record {
          state = inr (rs, r, [], refl, (type, refl, refl, tt));
          commit = same_commit commit;
          log = same_log entry cut;
        })
    | inr state ↦ elim (Bool-cases (r.type == record_entry)) [
      | inl entry ↦
          let type : r.type ≡ record_entry = ground (arith, entry, eq_iff r.type record_entry) in
          let commit : (r.type == record_commit) ≡ false = rw type refl in
          rw (state, entry)
            (record {
              state = same_state state;
              commit = same_commit commit;
              log = pushed_log type r.entry refl;
            })
      | inr entry ↦ elim (Bool-cases (r.type == record_truncate)) [
        | inl cut ↦
            let type : r.type ≡ record_truncate =
              ground (arith, cut, eq_iff r.type record_truncate) in
            let commit : (r.type == record_commit) ≡ false = rw type refl in
            rw (state, entry, cut)
              (record { state = same_state state; commit = same_commit commit; log = cut_log type })
        | inr cut ↦ elim (Bool-cases (r.type == record_commit)) [
          | inr commit ↦
              rw (state, entry, cut, commit)
                (record {
                  state = same_state state;
                  commit = same_commit commit;
                  log = same_log entry cut;
                })
          | inl commit ↦
              let type : r.type ≡ record_commit =
                ground (arith, commit, eq_iff r.type record_commit) in
              elim (Bool-cases (ltb_ℤ d.commit_index r.commit_index)) [
                | inl higher ↦
                    rw (state, entry, cut, commit, higher)
                      (record {
                        state = same_state state;
                        commit = raised type (ground (arith, higher));
                        log = same_log entry cut;
                      })
                | inr lower ↦
                    rw (state, entry, cut, commit, lower)
                      (record {
                        state = same_state state;
                        commit =
                            CommitOf-later rs r d.commit_index
                              (λ _. ltb_ℤ→le d.commit_index r.commit_index lower) h.commit;
                        log = same_log entry cut;
                      })
              ]
        ]
      ]
    ]
  ]

foldl-Spells :
    (rest rs : List WalRecord) (d : Durable)
    → Spells rs d
    → Spells (rs ++ rest) (foldl recover_record d rest)
foldl-Spells [] rs d h = subst (λ l. Spells l d) (sym (append-nil rs)) h
foldl-Spells (r ∷ rest) rs d h =
    subst (λ l. Spells l (foldl recover_record (recover_record d r) rest))
      (append_assoc rs (r ∷ []) rest)
      (foldl-Spells rest (rs ++ r ∷ []) (recover_record d r) (Spells-snoc rs r d h))

blank-Spells : Spells [] blank
blank-Spells = record {
  state = inl (refl, refl, tt);
  commit = (tt, inl refl);
  log = (refl, λ k e got. absurd (cc (got)));
}

-- A node that starts has the durable fields that the records of its log say: the term and the vote of the
-- last STATE record (0 and no vote without one), the highest index of a COMMIT record (-1 without one), and the
-- entries of the ENTRY records that no later TRUNCATE record cut off, each in its place. It has applied exactly
-- the committed entries that this log holds: `c` is the number of entries up to the commit index.
pub new_node-Spells :
    (id addr : String) (peers : Map String) (wal : Journal)
    → let n = new_node id addr peers wal in
      Spells wal.records n.durable
      × (c : ℕ) × (n.commit_index +ℤ pos 1 ≡ pos c)
      × IsApplied (min c (length n.log)) n
unfolding replay
new_node-Spells id addr peers wal =
    let d = replay wal.records in
    let above : minus_one ≤ℤ d.commit_index = foldl-above wal.records blank (omega arith) in
    let (c, index) = succ_of_above d.commit_index above in
    let (same, applied) = new_node-replay id addr peers wal c index in
    let n = new_node id addr peers wal in
    (
      subst (Spells wal.records) (sym same) (foldl-Spells wal.records [] blank blank-Spells),
      c,
      ap (λ (l : Durable). l.commit_index +ℤ pos 1) same ∙ index,
      subst (λ (l : Durable). IsApplied (min c (length l.log)) n) (sym same) applied,
    )
