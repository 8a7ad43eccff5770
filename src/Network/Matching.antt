-- ===== src/Network/Matching.antt =====
-- The logs of a network match at all times.
use orris.Prelude.{
  ℕ, suc, String, ◌≡◌, ◌≢◌, ◌<◌, refl, ap, false, some, [], arith, nat_eq, get_elem?, take,
  Prefix-trans,
}
use orris.Storage.{LogEntry}
use orris.Cluster.Moves.{Safe}
use orris.Cluster.Safety.{IsStart, IsStart-Safe}
use orris.Network.{Network, Reach, stays, goes_on}
use orris.Network.Ledger.{Ledger, Extends, Extends-refl, IsLogged-Extends, IsLogged-same_term}
use orris.Network.Ties.{Inv, Step-Next, Step-Safe_network}

-- A network before its first election: nodes that may elect each other, with empty logs, and no calls.
pub record IsFresh (size : ℕ) (w : Network) : Type 0 where
  pub start : IsStart size w.cluster
  pub calls : w.calls ≡ 0
  pub empty : (i : ℕ) → i < size → (w.cluster.node i).log ≡ []

abbrev pub nothing : Ledger
nothing = record { text = λ _. []; begun = λ _. false }

pub IsFresh-Inv : (size : ℕ) (w : Network) → IsFresh size w → Inv size nothing w
IsFresh-Inv size w h = record {
  nodes = record {
    logged = λ i less k e got. absurd (cc (got, ap (λ l. get_elem? l k) (h.empty i less)));
    leading = λ i less leads. absurd (cc (leads, h.start.follows i less));
    began = λ t begun. absurd (cc);
    blank = λ t _. refl;
    texts = λ t k e got. absurd (cc);
  };
  placed = λ k less. absurd (omega (arith, h.calls));
  asked = λ k less. absurd (omega (arith, h.calls));
}

module _ (size : ℕ) (name : ℕ → String) (named : (i : ℕ) → i < size → name i ≢ "")
    (distinct : (i j : ℕ) → i < size → j < size → name i ≡ name j → i ≡ j) where
  abbrev pub Tied : Ledger → Network → Type 0
  Tied g w = Safe size name named w.cluster × Inv size g w

  pub Reach-Tied :
      (v w : Network) (g : Ledger)
      → Reach size v w
      → Tied g v
      → (g' : Ledger) × Extends g g' × Tied g' w
  Reach-Tied v w g stays tied = (g, Extends-refl g, tied)
  Reach-Tied v w g (goes_on {u} reached next) tied =
      let (g', more, (safe, h)) = Reach-Tied v u g reached tied in
      let (g'', more', _, h') = Step-Next size name named distinct g' u safe h w next in
      (
        g'',
        (λ t. Prefix-trans (g.text t) (g'.text t) (g''.text t) (more t) (more' t)),
        (Step-Safe_network size name named distinct g' u safe h w next, h'),
      )

-- Log matching: if the log of a node has an entry of some term at an index, and the log of a node, then or
-- later, has an entry of the same term at the same index, then the two logs are the same up to this index.
-- This is so whatever steps the network takes from a fresh start: elections may overlap, requests may be
-- lost, late or repeated, and nodes may crash and restart.
pub log_matching :
    (size : ℕ) (u v w : Network) (i j k : ℕ) (o e : LogEntry)
    → IsFresh size u
    → Reach size u v
    → Reach size v w
    → i < size
    → j < size
    → get_elem? (v.cluster.node i).log k ≡ some o
    → get_elem? (w.cluster.node j).log k ≡ some e
    → o.term ≡ e.term
    → take (suc k) (v.cluster.node i).log ≡ take (suc k) (w.cluster.node j).log
log_matching size u v w i j k o e fresh before after i_less j_less at_v at_w same =
    let name = λ (l : ℕ). (u.cluster.node l).id in
    let named = fresh.start.named in
    let distinct = fresh.start.distinct in
    let first : Tied size name named distinct nothing u =
      (IsStart-Safe size u.cluster fresh.start, IsFresh-Inv size u fresh) in
    let (g, _, tied) = Reach-Tied size name named distinct u v nothing before first in
    let (g', more, tied') = Reach-Tied size name named distinct v w g after tied in
    let left = IsLogged-Extends g g' (v.cluster.node i).log more (tied.1.nodes.logged i i_less) in
    IsLogged-same_term g' (v.cluster.node i).log (w.cluster.node j).log k o e left
      (tied'.1.nodes.logged j j_less) at_v at_w same
