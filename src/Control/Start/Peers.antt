-- ===== src/Control/Start/Peers.antt =====
-- The nodes that the control tool starts know each other.
use Prim.Native.String.{String, ◌++◌}
use mathlib.Core.List.{append-nil, append_assoc}
use text.Mathlib.TextLemmas.{
  append_cancel_left, append-ne-nil_of_right_ne-nil, cons-append, cons-ne-nil,
}
use text.Mathlib.TextEquality.{eq_iff}
use orris.Prelude.{
  ◌⊎◌, ℕ, zero, suc, ◌+◌, ◌≤◌, ◌<◌, ◌≡◌, ◌≢◌, refl, sym, ◌∙◌, ap, false, List, [], ◌∷◌,
  ◌++◌ as append, foldl, arith, ◌==◌, string_eq, nat_eq, ℤ, pos, bit, ltb, leb, ◌&&◌, pos_add,
  beq_ℤ, Map, insert, length, inl, inr, Bool-cases, if◌then◌else◌,
}
use orris.Client.Text.{join, format_nat, format_int}
use orris.Control.Text.{split_n_on}
use orris.Control.Text.Cut.{
  lacks-Avoids, Avoids, Avoids-append, AllAvoid, split_on-join, split_two_on,
}
use orris.Control.Text.Decimal.{
  format_nat-IsNumeral, IsNumeral-Avoids, format_nat-inj, format_nat-not_empty,
}
use orris.Control.Start.{
  launch, peer_id, peer_addr, peer_arg, peers_list, add_peer, add_part, parse_peers,
}

-- The names and addresses of all the nodes but `i`.
pub others : ℤ → ℕ → ℕ → ℕ → Map String
others i total j zero = []
others i total j (suc k) =
    let rest = others i total (suc j) k in
    if beq_ℤ (pos j) i
    then rest
    else ((launch (pos j) total).id, (launch (pos j) total).addr) ∷ rest

peer_id-Avoids : (k j : ℕ) → (k < 48) ⊎ (57 < k) → Avoids k "node" → Avoids k (peer_id j)
peer_id-Avoids k j other plain =
    Avoids-append k "node" (format_nat j) plain
      (IsNumeral-Avoids k (format_nat j) other (format_nat-IsNumeral j))

peer_arg-Avoids : (j : ℕ) → Avoids 44 (peer_arg j)
peer_arg-Avoids j =
    Avoids-append 44 (peer_id j) ("=" ++ peer_addr j)
      (peer_id-Avoids 44 j (inl (omega arith)) (lacks-Avoids _ "node" refl))
      (Avoids-append 44 "=" (peer_addr j) (lacks-Avoids 44 "=" refl) (
        Avoids-append 44 "127.0.0.1:" (format_nat (8000 + j)) (lacks-Avoids 44 "127.0.0.1:" refl) (
          IsNumeral-Avoids 44 (format_nat (8000 + j)) (inl (omega arith))
            (format_nat-IsNumeral (8000 + j)))))

peers_list-AllAvoid : (i : ℤ) (j k : ℕ) → AllAvoid "," "" (peers_list i j k)
unfolding peers_list
peers_list-AllAvoid i j zero = tt
peers_list-AllAvoid i j (suc k) = elim (Bool-cases (beq_ℤ (pos j) i)) [
  | inl own ↦ rw own (peers_list-AllAvoid i (suc j) k)
  | inr other ↦ rw other ((peer_arg-Avoids j, peers_list-AllAvoid i (suc j) k))
]

split_peer : (j : ℕ) → split_n_on "=" 2 (peer_arg j) ≡ peer_id j ∷ peer_addr j ∷ []
split_peer j =
    split_two_on "=" "" (peer_id j) (peer_addr j)
      (peer_id-Avoids 61 j (inr (omega arith)) (lacks-Avoids _ "node" refl))

-- The names so far are of nodes below `j`.
abbrev Below : ℕ → Map String → Type 0
Below j [] = Unit
Below j ((id, addr) ∷ peers) = ((m : ℕ) → j ≤ m → id ≢ peer_id m) × Below j peers

insert-fresh :
    (j m : ℕ) (addr : String) (peers : Map String)
    → Below j peers
    → j ≤ m
    → insert (peer_id m) addr peers ≡ append peers ((peer_id m, addr) ∷ [])
unfolding insert
insert-fresh j m addr [] h above = refl
insert-fresh j m addr ((id, old) ∷ peers) h above =
    let rest = insert-fresh j m addr peers h.1 above in
    let other = h.0 m above in ground (arith, rest, other, eq_iff id (peer_id m))

Below-suc : (j : ℕ) (peers : Map String) → Below j peers → Below (suc j) peers
Below-suc j [] h = tt
Below-suc j ((id, addr) ∷ peers) (fresh, h) =
    ((λ m above. fresh m (omega arith)), Below-suc j peers h)

Below-more :
    (j : ℕ) (addr : String) (peers : Map String)
    → Below j peers
    → Below (suc j) (append peers ((peer_id j, addr) ∷ []))
Below-more j addr [] h = (
  (λ m above same. absurd (omega (arith, format_nat-inj j m (append_cancel_left "node" _ _ same)))),
  tt,
)
Below-more j addr ((id, old) ∷ peers) (fresh, h) =
    ((λ m above. fresh m (omega arith)), Below-more j addr peers h)

-- The arguments of a node are what the others call it.
pub launch_named :
    (j total : ℕ)
    → ((launch (pos j) total).id ≡ peer_id j) × ((launch (pos j) total).addr ≡ peer_addr j)
unfolding format_int
launch_named j total = (refl, rw (pos_add 8000 j) refl)

fold_peers :
    (i : ℤ) (total j k : ℕ) (peers : Map String)
    → Below j peers
    → foldl add_part peers (peers_list i j k) ≡ append peers (others i total j k)
unfolding peers_list others
fold_peers i total j zero peers h = sym (append-nil peers)
fold_peers i total j (suc k) peers h = elim (Bool-cases (beq_ℤ (pos j) i)) [
  | inl own ↦ rw own (fold_peers i total (suc j) k peers (Below-suc j peers h))
  | inr other ↦
      let (id, addr) = launch_named j total in
      let entry : String × String = (peer_id j, peer_addr j) in
      let next =
        fold_peers i total (suc j) k (append peers (entry ∷ []))
          (Below-more j (peer_addr j) peers h) in
      let more : (append (append peers (entry ∷ [])) (others i total (suc j) k))
          ≡ append peers (entry ∷ others i total (suc j) k) =
        append_assoc peers (entry ∷ []) (others i total (suc j) k) in
      let rest = peers_list i (suc j) k in
      let split = ap (λ parts. foldl add_part (add_peer peers parts) rest) (split_peer j) in
      let added =
        ap (λ m. foldl add_part m rest) (insert-fresh j j (peer_addr j) peers h (omega arith)) in
      rw (other, id, addr) (split ∙ added ∙ next ∙ more)
]

join-not_empty : (s : String) (ss : List String) → s ≢ "" → join "," (s ∷ ss) ≢ ""
unfolding join
join-not_empty s [] h = h
join-not_empty String.[] (t ∷ ss) h = absurd (h refl)
join-not_empty (String.◌∷◌ c s) (t ∷ ss) h =
    rw (cons-append c s ("," ++ join "," (t ∷ ss))) (cons-ne-nil c _)

-- How many nodes are not `i`.
length-others :
    (i total j k : ℕ) → length (others (pos i) total j k) + bit (leb j i && ltb i (j + k)) ≡ k
unfolding others
length-others i total j zero = ground arith
length-others i total j (suc k) = ground (arith, length-others i total (suc j) k)

abbrev AllSome : List String → Type 0
AllSome [] = Unit
AllSome (s ∷ ss) = (s ≢ "") × AllSome ss

peers_list-AllSome : (i : ℤ) (j k : ℕ) → AllSome (peers_list i j k)
unfolding peers_list
peers_list-AllSome i j zero = tt
peers_list-AllSome i j (suc k) = elim (Bool-cases (beq_ℤ (pos j) i)) [
  | inl own ↦ rw own (peers_list-AllSome i (suc j) k)
  | inr other ↦
      let port = append-ne-nil_of_right_ne-nil "127.0.0.1:" (format_nat-not_empty (8000 + j)) in
      let arg =
        append-ne-nil_of_right_ne-nil (peer_id j) (append-ne-nil_of_right_ne-nil "=" port) in
      rw other ((arg, peers_list-AllSome i (suc j) k))
]

parse_peers-join :
    (ss : List String)
    → AllAvoid "," "" ss
    → AllSome ss
    → parse_peers (join "," ss) ≡ foldl add_part [] ss
unfolding parse_peers
parse_peers-join [] h k = unfold join in refl
parse_peers-join (s ∷ ss) h k =
    let some_text : (join "," (s ∷ ss) == "") ≡ false =
      ground (arith, join-not_empty s ss k.0, eq_iff (join "," (s ∷ ss)) "") in
    rw some_text (ap (foldl add_part []) (split_on-join "," "" s ss h))

-- In a cluster of `total` nodes that `clusterStart` starts, what node `i` makes of its peers flag are the names and consensus addresses
-- that every other node was started with, and with itself it counts `total` nodes.
pub launch_knows_others :
    (i total : ℕ)
    → 1 ≤ i
    → i ≤ total
    → (parse_peers (launch (pos i) total).peers ≡ others (pos i) total 1 total)
      × (length (parse_peers (launch (pos i) total).peers) + 1 ≡ total)
launch_knows_others i total low high =
    let parsed =
      parse_peers-join (peers_list (pos i) 1 total) (peers_list-AllAvoid (pos i) 1 total)
        (peers_list-AllSome (pos i) 1 total)
      ∙ fold_peers (pos i) total 1 total [] tt in
    (parsed, rw parsed (ground (arith, length-others i total 1 total)))
