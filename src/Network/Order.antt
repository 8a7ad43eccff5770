-- ===== src/Network/Order.antt =====
-- Logs whose entries carry their own positions and whose terms never fall, and Raft's order of such logs.
use native.Mathlib.Decide.{ℕ_discrete}
use orris.Prelude.{
  ℕ, zero, suc, ◌≡◌, ◌≤◌, ◌<◌, ◌⊎◌, inl, inr, refl, sym, ap, ◌∙◌, subst, some, List, [], ◌∷◌, ◌++◌,
  arith, length, get_elem?, get_last?, pos, Prefix, get_elem?-Prefix, length-append,
  lt_of_get_elem?, get_elem?-append_left, get_elem?-append_right, take_all, get_elem?_lt,
}
use orris.Storage.{LogEntry}
use orris.Network.Ledger.{Ledger, IsLogged}

-- Each entry knows its position, and the terms rise to `term` at most.
pub record IsOrdered (term : ℕ) (log : List LogEntry) : Type 0 where
  pub numbered : (k : ℕ) (e : LogEntry) → get_elem? log k ≡ some e → e.index ≡ pos k
  pub bounded : (k : ℕ) (e : LogEntry) → get_elem? log k ≡ some e → e.term ≤ term
  pub rising :
      (p q : ℕ) (o e : LogEntry)
      → p ≤ q
      → get_elem? log p ≡ some o
      → get_elem? log q ≡ some e
      → o.term ≤ e.term

pub IsOrdered-nil : (term : ℕ) → IsOrdered term []
IsOrdered-nil term = record {
  numbered = λ k e got. absurd (cc);
  bounded = λ k e got. absurd (cc);
  rising = λ p q o e le at_p. absurd (cc);
}

pub IsOrdered-later : (t u : ℕ) (log : List LogEntry) → t ≤ u → IsOrdered t log → IsOrdered u log
IsOrdered-later t u log le h = record {
  numbered = h.numbered;
  bounded = λ k e got. omega (arith, h.bounded k e got);
  rising = h.rising;
}

pub IsOrdered-Prefix :
    (t : ℕ) (xs ys : List LogEntry) → Prefix xs ys → IsOrdered t ys → IsOrdered t xs
IsOrdered-Prefix t xs ys p h = record {
  numbered = λ k e got. h.numbered k e (get_elem?-Prefix k xs ys e got p);
  bounded = λ k e got. h.bounded k e (get_elem?-Prefix k xs ys e got p);
  rising = λ i j o e le at_i at_j.
      h.rising i j o e le (get_elem?-Prefix i xs ys o at_i p) (get_elem?-Prefix j xs ys e at_j p);
}

-- What stands at a place of a log with one more entry.
Pushed : List LogEntry → LogEntry → ℕ → LogEntry → Type 0
Pushed log new k e =
    ((k < length log) × (get_elem? log k ≡ some e)) ⊎ ((k ≡ length log) × (e ≡ new))

pushed :
    (log : List LogEntry) (new : LogEntry) (k : ℕ) (e : LogEntry)
    → get_elem? (log ++ new ∷ []) k ≡ some e
    → Pushed log new k e
unfolding Pushed
pushed log new k e got = elim (ℕ_discrete k (length log)) [
  | no other ↦
      let within : k < length (log ++ new ∷ []) = lt_of_get_elem? k (log ++ new ∷ []) e got in
      let inside : k < length log = omega (arith, length-append log (new ∷ [])) in
      inl (inside, sym (get_elem?-append_left k log (new ∷ []) inside) ∙ got)
  | yes last ↦
      let here : get_elem? (log ++ new ∷ []) (length log) ≡ some new =
        subst (λ j. get_elem? (log ++ new ∷ []) j ≡ some new) (omega arith)
          (get_elem?-append_right log (new ∷ []) 0) in
      inr (last, cc (here, got, last))
]

pub IsOrdered-push :
    (t : ℕ) (log : List LogEntry) (new : LogEntry)
    → new.index ≡ pos (length log)
    → new.term ≡ t
    → IsOrdered t log
    → IsOrdered t (log ++ new ∷ [])
unfolding Pushed
IsOrdered-push t log new index term h = record {
  numbered = λ k e got. elim (pushed log new k e got) [
    | inl (_, old) ↦ h.numbered k e old
    | inr (last, same) ↦ ap (λ (x : LogEntry). x.index) same ∙ index ∙ ap pos (sym last)
  ];
  bounded = λ k e got. elim (pushed log new k e got) [
    | inl (_, old) ↦ h.bounded k e old
    | inr (_, same) ↦ omega (arith, ap (λ (x : LogEntry). x.term) same, term)
  ];
  rising = λ p q o e le at_p at_q. elim (pushed log new q e at_q) [
    | inl (inside, old_q) ↦ elim (pushed log new p o at_p) [
      | inl (_, old_p) ↦ h.rising p q o e le old_p old_q
      | inr (last, _) ↦ absurd (omega arith)
    ]
    | inr (_, same_q) ↦ elim (pushed log new p o at_p) [
      | inl (_, old_p) ↦
          omega (arith, h.bounded p o old_p, ap (λ (x : LogEntry). x.term) same_q, term)
      | inr (_, same_p) ↦
          omega (arith, ap (λ (x : LogEntry). x.term) same_q, ap (λ (x : LogEntry). x.term) same_p)
    ]
  ];
}

get_last?-get_elem :
    (q : ℕ) (log : List LogEntry) → length log ≡ suc q → get_last? log ≡ get_elem? log q
get_last?-get_elem q [] h = absurd (omega arith)
get_last?-get_elem zero (x ∷ []) h = refl
get_last?-get_elem (suc q) (x ∷ []) h = absurd (omega arith)
get_last?-get_elem zero (x ∷ y ∷ log) h = absurd (omega arith)
get_last?-get_elem (suc q) (x ∷ y ∷ log) h = get_last?-get_elem q (y ∷ log) (omega arith)

-- The last entry of a log that has one.
abbrev pub LastOf : List LogEntry → Type 0
LastOf log =
    (q : ℕ) × (e : LogEntry) × (length log ≡ suc q)
    × (get_elem? log q ≡ some e)
    × (get_last? log ≡ some e)

pub last_of : (p : ℕ) (log : List LogEntry) → p < length log → LastOf log
last_of p (x ∷ log) h =
    let (e, got) = get_elem?_lt (length log) (x ∷ log) (omega arith) in
    (length log, e, refl, got, get_last?-get_elem (length log) (x ∷ log) refl ∙ got)
last_of p [] h = absurd (omega arith)

-- A log that is logged is one that the leader of its last entry's term had.
pub whole :
    (g : Ledger) (log : List LogEntry) (q : ℕ) (e : LogEntry)
    → IsLogged g log
    → length log ≡ suc q
    → get_elem? log q ≡ some e
    → Prefix log (g.text e.term)
whole g log q e h size got =
    subst (λ l. Prefix l (g.text e.term)) (take_all (suc q) log (omega arith)) (h q e got)
