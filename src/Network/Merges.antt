-- ===== src/Network/Merges.antt =====
-- What handling a request keeps of a log: a beginning that the leader of the request's term has too.
use orris.Prelude.{
  ℕ, zero, suc, ◌-◌, ◌≡◌, ◌≤◌, refl, sym, ap, ◌∙◌, true, List, [], ◌∷◌, ◌++◌, arith, ◌==◌, nat_eq,
  length, take, drop, Prefix, Prefix-nil, Prefix-both, Prefix-take, get_elem?-Prefix, length-Prefix,
  length-take, get_elem?_lt,
}
use native.Mathlib.Decide.{dec_lt}
use orris.Storage.{LogEntry}
use orris.Raft.Append.Merge.{merge}
use orris.Raft.Append.Outcome.{HasPrevious}

Prefix-tail :
    (x y : LogEntry) (xs ys : List LogEntry) → Prefix (x ∷ xs) (y ∷ ys) → (y ≡ x) × Prefix xs ys
Prefix-tail x y xs ys (zs, p) = (cc (p), (zs, cc (p)))

Prefix-cons : (x : LogEntry) (xs ys : List LogEntry) → Prefix xs ys → Prefix (x ∷ xs) (x ∷ ys)
Prefix-cons x xs ys (zs, p) = (zs, ap (◌∷◌ x) p)

-- A merge keeps a beginning of the old log that a continuation of the new one has.
pub merge-Prefix :
    (l old new text : List LogEntry)
    → Prefix l old
    → Prefix l text
    → Prefix new text
    → Prefix l (merge old new)
unfolding merge
merge-Prefix [] old new text in_old in_text new_text = Prefix-nil (merge old new)
merge-Prefix (x ∷ l) [] new text (zs, p) in_text new_text = absurd (cc (p))
merge-Prefix (x ∷ l) (o ∷ old) [] text in_old in_text new_text = in_old
merge-Prefix (x ∷ l) (o ∷ old) (e ∷ new) [] in_old (zs, p) new_text = absurd (cc (p))
merge-Prefix (x ∷ l) (o ∷ old) (e ∷ new) (y ∷ text) in_old in_text new_text =
    let (o_x, old') = Prefix-tail x o l old in_old in
    let (y_x, text') = Prefix-tail x y l text in_text in
    let (y_e, new') = Prefix-tail e y new text new_text in
    let same : o ≡ e = o_x ∙ sym y_x ∙ y_e in
    let test : (o.term == e.term) ≡ true = ground (arith, same) in
    rw (test, o_x) (Prefix-cons x l (merge old new) (merge-Prefix l old new text old' text' new'))

-- To merge from where the logs begin alike is to merge them.
pub merge-from :
    (k : ℕ) (a b : List LogEntry)
    → take k a ≡ take k b
    → k ≤ length b
    → take k a ++ merge (drop k a) (drop k b) ≡ merge a b
unfolding merge
merge-from zero a b alike inside = refl
merge-from (suc k) [] [] alike inside = absurd (omega arith)
merge-from (suc k) [] (e ∷ b) alike inside = absurd (cc (alike))
merge-from (suc k) (o ∷ a) [] alike inside = absurd (cc (alike))
merge-from (suc k) (o ∷ a) (e ∷ b) alike inside =
    let same : o ≡ e = cc (alike) in
    let rest : take k a ≡ take k b = cc (alike) in
    let test : (o.term == e.term) ≡ true = ground (arith, same) in
    rw test (ap (◌∷◌ o) (merge-from k a b rest (omega arith)))

-- A cut before an entry that the leader does not have keeps such a beginning too.
pub cut-Prefix :
    (k term : ℕ) (l a b text : List LogEntry)
    → Prefix l a
    → Prefix l text
    → Prefix b text
    → HasPrevious k term b
    → ¬ HasPrevious k term a
    → Prefix l (take (k - 1) a)
cut-Prefix zero term l a b text in_a in_text b_text found missing = absurd (missing tt)
cut-Prefix (suc p) term l a b text in_a in_text b_text (e, at_b, own) missing =
    elim (dec_lt p (length l)) [
      | no short ↦
          let cut : suc p - 1 ≡ p = omega arith in
          rw cut (
            Prefix-both l (take p a) a in_a (Prefix-take p a)
              (omega (arith, length-take p a, length-Prefix l a in_a)))
      | yes long ↦
          let (o, at_l) = get_elem?_lt p l long in
          let in_l = get_elem?-Prefix p l text o at_l in_text in
          let in_b = get_elem?-Prefix p b text e at_b b_text in
          let same : o ≡ e = cc (in_l, in_b) in
          absurd (missing (o, get_elem?-Prefix p l a o at_l in_a, rw same own))
    ]
