-- ===== src/Control/Views/Highest.antt =====
-- Which log entries the control tool shows as committed.
use Prim.Native.String.{String}
use mathlib.Core.Option.{some-injective}
use orris.Prelude.{
  ◌-◌, ℕ, zero, suc, ◌≡◌, ◌↔◌, ◌≤◌, refl, ◌∙◌, ap, Bool, true, false, ◌&&◌, ◌||◌, some, List, [],
  ◌∷◌, arith, ltb_ℤ, leb_ℤ, ℤ, minus_one, ◌≤ℤ◌, ◌<ℤ◌, get_elem?, inl, inr, Bool-cases,
  if◌then◌else◌, length, length-drop, ltb,
}
use orris.Control.Node.{NodeInfo, LogItem}
use orris.Control.Views.{highest_commit, recent, log_row}

-- Some node that is online has committed this index.
pub reached : ℤ → List NodeInfo → Bool
reached index [] = false
reached index (n ∷ nodes) = n.online && leb_ℤ index n.commit_index || reached index nodes

highest_commit-reached :
    (index best : ℤ) (nodes : List NodeInfo)
    → leb_ℤ index (highest_commit best nodes) ≡ (leb_ℤ index best || reached index nodes)
unfolding highest_commit reached
highest_commit-reached index best [] = ground arith
highest_commit-reached index best (n ∷ nodes) =
    let best' = if n.online && ltb_ℤ best n.commit_index then n.commit_index else best in
    highest_commit-reached index best' nodes ∙ ground arith

abbrev pub IsReached : ℤ → List NodeInfo → Type 0
IsReached index nodes =
    (i : ℕ) × (n : NodeInfo) × (get_elem? nodes i ≡ some n)
    × (n.online ≡ true)
    × (index ≤ℤ n.commit_index)

reached-IsReached :
    (index : ℤ) (nodes : List NodeInfo) → reached index nodes ≡ true → IsReached index nodes
unfolding reached
reached-IsReached index [] e = absurd (cc)
reached-IsReached index (n ∷ nodes) e = elim (Bool-cases (n.online && leb_ℤ index n.commit_index)) [
  | inl here ↦ (0, n, refl, ground (arith, here), ground (arith, here))
  | inr other ↦
      let (i, m, got, on, le) = reached-IsReached index nodes (ground (arith, e, other)) in
      (suc i, m, got, on, le)
]

IsReached-reached :
    (index : ℤ) (nodes : List NodeInfo) → IsReached index nodes → reached index nodes ≡ true
unfolding reached
IsReached-reached index [] (i, n, got, on, le) = absurd (cc)
IsReached-reached index (n ∷ nodes) (zero, m, got, on, le) =
    let same : n ≡ m = some-injective n m got in
    let up : n.online ≡ true = ap (λ (k : NodeInfo). k.online) same ∙ on in
    let here : leb_ℤ index n.commit_index ≡ true =
      ap (λ (k : NodeInfo). leb_ℤ index k.commit_index) same ∙ ground (arith, le) in
    rw (up, here) refl
IsReached-reached index (n ∷ nodes) (suc i, m, got, on, le) =
    let later = IsReached-reached index nodes (i, m, got, on, le) in ground (arith, later)

-- A log entry is shown as committed exactly if the commit index of some node that is online has reached its index. Indices
-- start at 0.
pub log_row_committed :
    (nodes : List NodeInfo) (item : LogItem)
    → minus_one <ℤ item.index
    → ((log_row (highest_commit minus_one nodes) item).committed ≡ true)
      ↔ IsReached item.index nodes
log_row_committed nodes item above =
    let same = highest_commit-reached item.index minus_one nodes in
    let below : leb_ℤ item.index minus_one ≡ false = ground (arith, above) in
    (
      (λ e. reached-IsReached item.index nodes (ground (arith, e, same, below))),
      (λ r. let found = IsReached-reached item.index nodes r in ground (arith, found, same)),
    )

-- The dashboard shows the last entries, at most six.
pub length-recent : (logs : List String) → length (recent logs) ≤ 6
unfolding recent
length-recent logs =
    let total = length logs in
    ground (arith, length-drop (if ltb 6 total then total - 6 else 0) logs)
