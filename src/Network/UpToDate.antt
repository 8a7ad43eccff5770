-- ===== src/Network/UpToDate.antt =====
-- Why the voting rule keeps what a majority holds: a log that is at least as up to date as one that begins
-- with a text begins with it too.
use orris.Prelude.{
  ℕ, suc, ◌≡◌, ◌≤◌, ◌<◌, ◌≤ℤ◌, ◌⊎◌, inl, inr, refl, sym, subst, none, some, List, [], ◌∷◌, arith,
  length, get_elem?, get_last?, Prefix, Prefix-nil, Prefix-both, Prefix-trans, get_elem?-Prefix,
  length-Prefix,
}
use native.Mathlib.Decide.{dec_lt, ℕ_discrete}
use orris.Storage.{LogEntry}
use orris.Raft.State.{last_log_index, last_log_term}
use orris.Network.Ledger.{Ledger, IsLogged}
use orris.Network.Order.{IsOrdered, last_of, whole}

-- Raft's order of logs.
abbrev pub UpToDate : List LogEntry → List LogEntry → Type 0
UpToDate mine bid =
    (last_log_term (get_last? mine) < last_log_term (get_last? bid))
    ⊎ ((last_log_term (get_last? bid) ≡ last_log_term (get_last? mine))
        × (last_log_index (get_last? mine) ≤ℤ last_log_index (get_last? bid)))

-- The last entry is of the term, or there is none.
abbrev pub Ends : ℕ → List LogEntry → Type 0
Ends t log =
    (log ≡ [])
    ⊎ ((p : ℕ) × (e : LogEntry) × (length log ≡ suc p) × (get_elem? log p ≡ some e) × (e.term ≡ t))

get_last?-empty : (log : List LogEntry) → length log ≤ 0 → get_last? log ≡ none
get_last?-empty [] h = refl
get_last?-empty (x ∷ log) h = absurd (omega arith)

module _ (g : Ledger) (mine bid : List LogEntry) (a b : ℕ) (mine_logged : IsLogged g mine)
    (bid_logged : IsLogged g bid) (mine_ordered : IsOrdered a mine) (bid_ordered : IsOrdered b bid)
    (texts : (u : ℕ) → IsOrdered u (g.text u)) (better : UpToDate mine bid) (L : List LogEntry)
    (t : ℕ) (held : Prefix L mine)
    (later : (u : ℕ) → t < u → u ≤ b → 0 < length (g.text u) → Prefix L (g.text u)) where
  module _ (p : ℕ) (e : LogEntry) (size : length L ≡ suc p) (at_p : get_elem? L p ≡ some e)
      (own : e.term ≡ t) where
    -- With the last entries of both logs.
    by_last :
        (q r : ℕ) (o c : LogEntry)
        → length mine ≡ suc q
        → get_elem? mine q ≡ some o
        → length bid ≡ suc r
        → get_elem? bid r ≡ some c
        → (o.term < c.term) ⊎ ((c.term ≡ o.term) × (q ≤ r))
        → Prefix L bid
    by_last q r o c mine_size at_q bid_size at_r order =
        let mine_text = whole g mine q o mine_logged mine_size at_q in
        let bid_text = whole g bid r c bid_logged bid_size at_r in
        let in_mine = get_elem?-Prefix p L mine e at_p held in
        let reach = length-Prefix L mine held in
        let rises = mine_ordered.rising p q e o (omega arith) in_mine at_q in
        elim (ℕ_discrete t c.term) [
          | yes same ↦
              let together : c.term ≡ o.term = ground (arith, order, rises, own, same) in
              let short : q ≤ r = ground (arith, order, rises, own, same) in
              Prefix-trans L mine bid held (
                Prefix-both mine bid (g.text c.term)
                  (subst (λ u. Prefix mine (g.text u)) (sym together) mine_text) bid_text
                  (omega arith))
          | no differ ↦
              let below : t < c.term = ground (arith, order, rises, own, differ) in
              let contains =
                later c.term below (bid_ordered.bounded r c at_r)
                  (omega (arith, length-Prefix bid (g.text c.term) bid_text)) in
              elim (dec_lt r p) [
                | no long ↦ Prefix-both L bid (g.text c.term) contains bid_text (omega arith)
                | yes short ↦
                    let in_text = get_elem?-Prefix p L (g.text c.term) e at_p contains in
                    let end = get_elem?-Prefix r bid (g.text c.term) c at_r bid_text in
                    let falls = (texts c.term).rising r p c e (omega arith) end in_text in
                    absurd (omega (arith, falls, own))
              ]
        ]

    up_to_date-ended : Prefix L bid
    up_to_date-ended =
        let reach = length-Prefix L mine held in
        let (q, o, mine_size, at_q, last_mine) = last_of p mine (omega arith) in
        elim (dec_lt 0 (length bid)) [
          | yes some_bid ↦
              let (r, c, bid_size, at_r, last_bid) = last_of 0 bid some_bid in
              by_last q r o c mine_size at_q bid_size at_r (
                ground (
                  arith,
                  better,
                  last_mine,
                  last_bid,
                  mine_ordered.numbered q o at_q,
                  bid_ordered.numbered r c at_r,
                ))
          | no none_bid ↦ absurd (
              ground (
                arith,
                better,
                last_mine,
                get_last?-empty bid (omega arith),
                mine_ordered.numbered q o at_q,
              ))
        ]

  -- A log that is at least as up to date as one that begins with `L`, which ends in the term, begins with `L`
  -- too, if all later texts do.
  pub up_to_date-Prefix : Ends t L → Prefix L bid
  up_to_date-Prefix (inl empty) = rw empty (Prefix-nil bid)
  up_to_date-Prefix (inr (p, e, size, at_p, own)) = up_to_date-ended p e size at_p own
