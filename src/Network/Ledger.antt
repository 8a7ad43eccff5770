-- ===== src/Network/Ledger.antt =====
-- What the leaders of a cluster write: one log for each term, which only grows.
use native.Mathlib.Decide.{ℕ_discrete}
use orris.Prelude.{
  ℕ, zero, suc, Bool, true, ◌≡◌, ◌≤◌, ◌<◌, ◌⊎◌, inl, inr, refl, sym, ap, ap₂, ◌∙◌, subst, some,
  List, [], ◌∷◌, ◌++◌, arith, ◌==◌, nat_eq, length, get_elem?, take, drop, Prefix, Prefix-trans,
  Prefix-refl, take-Prefix, get_elem?-Prefix, lt_of_get_elem?, take-of_both, take-append-drop,
  get_elem?-take, length-append, take_all, take-append_left, get_elem?-append_left,
  get_elem?-append_right,
}
use orris.Storage.{LogEntry}
use orris.Raft.Append.Merge.{merge}
use orris.Raft.Append.Agreement.{IsMatching}

-- The log of each term's leader as it last was in that term, and whether there has been one.
pub record Ledger : Type 0 where
  pub text : ℕ → List LogEntry
  pub begun : ℕ → Bool

-- Up to each entry, a log is that of the leader of the entry's term.
abbrev pub IsLogged : Ledger → List LogEntry → Type 0
IsLogged g log =
    (k : ℕ) (e : LogEntry) → get_elem? log k ≡ some e → Prefix (take (suc k) log) (g.text e.term)

abbrev pub Extends : Ledger → Ledger → Type 0
Extends g g' = (t : ℕ) → Prefix (g.text t) (g'.text t)

pub Extends-refl : (g : Ledger) → Extends g g
Extends-refl g t = Prefix-refl (g.text t)

pub IsLogged-Prefix :
    (g : Ledger) (xs ys : List LogEntry) → Prefix xs ys → IsLogged g ys → IsLogged g xs
IsLogged-Prefix g xs ys p h k e got =
    let inside : suc k ≤ length xs = lt_of_get_elem? k xs e got in
    let held = h k e (get_elem?-Prefix k xs ys e got p) in
    rw (← take-Prefix (suc k) xs ys inside p) held

pub IsLogged-Extends :
    (g g' : Ledger) (log : List LogEntry) → Extends g g' → IsLogged g log → IsLogged g' log
IsLogged-Extends g g' log more h k e got =
    Prefix-trans (take (suc k) log) (g.text e.term) (g'.text e.term) (h k e got) (more e.term)

-- A log that the leader of its last entry's term has.
pub IsLogged-push :
    (g : Ledger) (log : List LogEntry) (e : LogEntry)
    → IsLogged g log
    → Prefix (log ++ e ∷ []) (g.text e.term)
    → IsLogged g (log ++ e ∷ [])
IsLogged-push g log e h there k o got = elim (ℕ_discrete k (length log)) [
  | no other ↦
      let within : k < length (log ++ e ∷ []) = lt_of_get_elem? k (log ++ e ∷ []) o got in
      let inside : k < length log = omega (arith, length-append log (e ∷ [])) in
      let old = get_elem?-append_left k log (e ∷ []) inside in
      rw (take-append_left (suc k) log (e ∷ []) inside) (h k o (sym old ∙ got))
  | yes last ↦
      let here : get_elem? (log ++ e ∷ []) (length log) ≡ some e =
        subst (λ j. get_elem? (log ++ e ∷ []) j ≡ some e) (omega arith)
          (get_elem?-append_right log (e ∷ []) 0) in
      let new : e ≡ o = cc (here, got, last) in
      let all = take_all (suc k) (log ++ e ∷ []) (omega (arith, length-append log (e ∷ []))) in
      rw (all, ← new) there
]

pub IsLogged-same_term :
    (g : Ledger) (a b : List LogEntry) (k : ℕ) (o e : LogEntry)
    → IsLogged g a
    → IsLogged g b
    → get_elem? a k ≡ some o
    → get_elem? b k ≡ some e
    → o.term ≡ e.term
    → take (suc k) a ≡ take (suc k) b
IsLogged-same_term g a b k o e ha hb at_a at_b same =
    take-of_both (suc k) a b (g.text e.term) (lt_of_get_elem? k a o at_a)
      (lt_of_get_elem? k b e at_b)
      (subst (λ t. Prefix (take (suc k) a) (g.text t)) same (ha k o at_a)) (hb k e at_b)

IsLogged-same_entry :
    (g : Ledger) (a b : List LogEntry)
    → IsLogged g a
    → IsLogged g b
    → (k : ℕ) (o e : LogEntry) → get_elem? a k ≡ some o
    → get_elem? b k ≡ some e
    → o.term ≡ e.term
    → o ≡ e
IsLogged-same_entry g a b ha hb k o e at_a at_b same =
    let alike = IsLogged-same_term g a b k o e ha hb at_a at_b same in
    let left = get_elem?-take (suc k) k a (omega arith) in
    let right = get_elem?-take (suc k) k b (omega arith) in cc (alike, left, right, at_a, at_b)

IsMatching-nil : (a : List LogEntry) → IsMatching a []
IsMatching-nil [] = tt
IsMatching-nil (o ∷ a) = tt

IsMatching-drop :
    (k : ℕ) (a b : List LogEntry)
    → ((j : ℕ) (o e : LogEntry)
        → get_elem? a j ≡ some o
        → get_elem? b j ≡ some e
        → o.term ≡ e.term
        → o ≡ e)
    → IsMatching (drop k a) (drop k b)
IsMatching-drop zero [] b h = tt
IsMatching-drop zero (o ∷ a) [] h = tt
IsMatching-drop zero (o ∷ a) (e ∷ b) h =
    (h 0 o e refl refl, IsMatching-drop zero a b (λ j. h (suc j)))
IsMatching-drop (suc k) [] b h = tt
IsMatching-drop (suc k) (o ∷ a) [] h = IsMatching-nil (drop k a)
IsMatching-drop (suc k) (o ∷ a) (e ∷ b) h = IsMatching-drop k a b (λ j. h (suc j))

merge-either :
    (old new : List LogEntry) → IsMatching old new → (merge old new ≡ old) ⊎ (merge old new ≡ new)
unfolding merge
merge-either [] new h = inr refl
merge-either (o ∷ old) [] h = inl refl
merge-either (o ∷ old) (e ∷ new) h = elim (ℕ_discrete o.term e.term) [
  | yes same ↦
      let test : (o.term == e.term) ≡ true = ground arith in
      elim (merge-either old new h.1) [
        | inl kept ↦ inl (rw test (ap (◌∷◌ o) kept))
        | inr taken ↦ inr (rw test (ap₂ ◌∷◌ (h.0 same) taken))
      ]
  | no differ ↦ inr (ground arith)
]

-- To merge a log with the end of another from where they begin alike gives one of the two.
pub merged-either :
    (g : Ledger) (k : ℕ) (a b : List LogEntry)
    → IsLogged g a
    → IsLogged g b
    → take k a ≡ take k b
    → (take k a ++ merge (drop k a) (drop k b) ≡ a) ⊎ (take k a ++ merge (drop k a) (drop k b) ≡ b)
merged-either g k a b ha hb alike =
    let matching = IsMatching-drop k a b (IsLogged-same_entry g a b ha hb) in
    elim (merge-either (drop k a) (drop k b) matching) [
      | inl kept ↦ inl (rw kept (take-append-drop k a))
      | inr taken ↦ inr (rw (taken, alike) (take-append-drop k b))
    ]
