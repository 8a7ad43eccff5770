-- ===== src/Network/Ties.antt =====
-- The nodes and the calls of a network, tied to the ledger: every step keeps them so.
use orris.Prelude.{
  ℕ, suc, String, ◌≡◌, ◌≢◌, ◌<◌, refl, ap, ◌∙◌, subst, some, arith, nat_eq, put, put_all, Prefix,
  Prefix-refl,
}
use orris.Transport.{AppendEntriesRequest, AppendEntriesResponse}
use orris.Raft.State.{Node}
use orris.Raft.Append.{handle_append_entries}
use orris.Raft.Replication.{begin_replication, finish_replication}
use orris.Raft.Steps.{entries_received, peer_replied, step}
use orris.Cluster.{set_node, happens}
use orris.Cluster.Invariant.{Won}
use orris.Cluster.Moves.{Safe}
use orris.Cluster.Safety.{Step-Safe}
use orris.Network.{
  Stage, sent, answered, closed, Call, Network, plan, set_stage, set_cluster, Step, moves, plans,
  sends, answers, strays, closes,
}
use orris.Network.Ledger.{Ledger, Extends, Extends-refl}
use orris.Network.Requests.{IsMade, append_request-IsMade, received-IsLogged}
use orris.Network.Invariant.{Asked, Asked-Extends, Nodes, Nodes-put}
use orris.Network.Backed.{begun-request}
use orris.Network.Events.{sparing-Stays, received-Stays}
use orris.Network.Writes.{Wrote, Wrote-refl}
use orris.Network.Moves.{Step-Grown}

module _ (size : ℕ) where
  pub record IsPlaced (call : Call) : Type 0 where
    pub owned : call.owner < size
    pub aimed : call.peer < size

  -- The nodes and the calls are tied to the ledger.
  pub record Inv (g : Ledger) (w : Network) : Type 0 where
    pub nodes : Nodes size g (Won w.cluster.race w.cluster.races) w.cluster.node
    pub placed : (k : ℕ) → k < w.calls → IsPlaced (w.call k)
    pub asked : (k : ℕ) → k < w.calls → Asked g (w.call k).stage

module _ (size : ℕ) (name : ℕ → String) (named : (i : ℕ) → i < size → name i ≢ "")
    (distinct : (i j : ℕ) → i < size → j < size → name i ≡ name j → i ≡ j) (g : Ledger)
    (w : Network) (safe : Safe size name named w.cluster) (h : Inv size g w) where
  abbrev Wins : ℕ → ℕ → Type 0
  Wins = Won w.cluster.race w.cluster.races

  received :
      (k : ℕ) (req : AppendEntriesRequest) (n : Node) (resp : AppendEntriesResponse)
      → k < w.calls
      → (w.call k).stage ≡ sent req
      → handle_append_entries req (w.cluster.node (w.call k).peer) ≡ some (n, resp)
      → Nodes size g Wins (put w.cluster.node (w.call k).peer n)
  received k req n resp less at ran =
      let j = (w.call k).peer in
      let j_less = (h.placed k less).aimed in
      let made : IsMade g req = subst (Asked g) at (h.asked k less) in
      let before = h.nodes.logged j j_less in
      let logged =
        received-IsLogged g h.nodes.texts req made (w.cluster.node j) before n resp ran in
      Nodes-put size g Wins w.cluster.node h.nodes j n (
        received-Stays size g req (w.cluster.node j) n resp (safe.1.nodes j j_less).0.0 ran logged
          (h.nodes.leading j j_less))

  finished :
      (k : ℕ) (req : AppendEntriesRequest) (resp : AppendEntriesResponse) (n : Node)
      → k < w.calls
      → finish_replication (w.call k).task req resp (w.cluster.node (w.call k).owner) ≡ some n
      → Nodes size g Wins (put w.cluster.node (w.call k).owner n)
  unfolding step
  finished k req resp n less ran =
      let i = (w.call k).owner in
      let i_less = (h.placed k less).owned in
      Nodes-put size g Wins w.cluster.node h.nodes i n (
        sparing-Stays size g (peer_replied (w.call k).task req resp) (w.cluster.node i) n tt tt
          (safe.1.nodes i i_less).0.0 ran (h.nodes.logged i i_less) (h.nodes.leading i i_less))

  -- A call whose stage changes.
  staged :
      (k : ℕ) (s : Stage)
      → Asked g s
      → (k < w.calls)
      → (j : ℕ) → j < w.calls
      → Asked g (put w.call k (record (w.call k) { stage = s }) j).stage
  staged k s asks less =
      put_all (λ j call. j < w.calls → Asked g call.stage) w.call k _ (λ _. asks) (λ j _. h.asked j)

  staged-IsPlaced :
      (k : ℕ) (s : Stage)
      → k < w.calls
      → (j : ℕ) → j < w.calls
      → IsPlaced size (put w.call k (record (w.call k) { stage = s }) j)
  staged-IsPlaced k s less =
      put_all (λ j call. j < w.calls → IsPlaced size call) w.call k _
        (λ _. record { owned = (h.placed k less).owned; aimed = (h.placed k less).aimed })
        (λ j _. h.placed j)

  abbrev pub Next : Network → Type 0
  Next w' = (g' : Ledger) × Extends g g' × Wrote size g g' w'.cluster.node × Inv size g' w'

  sent-IsMade :
      (k : ℕ) (req : AppendEntriesRequest)
      → k < w.calls
      → begin_replication (w.call k).task (w.cluster.node (w.call k).owner) ≡ some req
      → IsMade g req
  sent-IsMade k req less made =
      let task = (w.call k).task in
      let i = (w.call k).owner in
      let n = w.cluster.node i in
      let (leads, term, same) = begun-request task n req made in
      let (_, text) = h.nodes.leading i (h.placed k less).owned leads in
      let whole : Prefix n.log (g.text task.term) =
        subst (Prefix n.log) (text ∙ ap g.text term) (Prefix-refl n.log) in
      subst (IsMade g) same (append_request-IsMade g task n whole)

  pub Step-Next : (w' : Network) → Step size w w' → Next w'
  unfolding plan set_stage set_cluster set_node
  Step-Next w' (moves d s apart) =
      let (g', more, wrote, nodes) =
        Step-Grown size name named distinct g w.cluster d s apart safe h.nodes in
      (
        g',
        more,
        wrote,
        record {
          nodes = nodes;
          placed = h.placed;
          asked = λ k less. Asked-Extends g g' (w.call k).stage more (h.asked k less);
        },
      )
  Step-Next w' (plans i j p task i_less j_less in_round named_so) = (
    g,
    Extends-refl g,
    Wrote-refl size g w'.cluster.node,
    record {
      nodes = h.nodes;
      placed =
          put_all (λ k call. k < suc w.calls → IsPlaced size call) w.call w.calls _
            (λ _. record { owned = i_less; aimed = j_less })
            (λ k older k_less. h.placed k (omega (arith, older)));
      asked =
          put_all (λ k call. k < suc w.calls → Asked g call.stage) w.call w.calls _ (λ _. tt)
            (λ k older k_less. h.asked k (omega (arith, older)));
    },
  )
  Step-Next w' (sends k req less at made) = (
    g,
    Extends-refl g,
    Wrote-refl size g w'.cluster.node,
    record {
      nodes = h.nodes;
      placed = staged-IsPlaced k (sent req) less;
      asked = staged k (sent req) (sent-IsMade k req less made) less;
    },
  )
  Step-Next w' (answers k req n resp less at ran) = (
    g,
    Extends-refl g,
    Wrote-refl size g w'.cluster.node,
    record {
      nodes = received k req n resp less at ran;
      placed = staged-IsPlaced k (answered req resp) less;
      asked = staged k (answered req resp) (subst (Asked g) at (h.asked k less)) less;
    },
  )
  Step-Next w' (strays k req n resp less at ran) = (
    g,
    Extends-refl g,
    Wrote-refl size g w'.cluster.node,
    record { nodes = received k req n resp less at ran; placed = h.placed; asked = h.asked },
  )
  Step-Next w' (closes k req resp n less at ran) = (
    g,
    Extends-refl g,
    Wrote-refl size g w'.cluster.node,
    record {
      nodes = finished k req resp n less ran;
      placed = staged-IsPlaced k closed less;
      asked = staged k closed tt less;
    },
  )

  pub Step-Safe_network : (w' : Network) → Step size w w' → Safe size name named w'.cluster
  unfolding plan set_stage set_cluster step
  Step-Safe_network w' (moves d s apart) = Step-Safe size name named w.cluster d s safe
  Step-Safe_network w' (plans i j p task i_less j_less in_round named_so) = safe
  Step-Safe_network w' (sends k req less at made) = safe
  Step-Safe_network w' (answers k req n resp less at ran) =
      Step-Safe size name named w.cluster _
        (happens (entries_received req) (w.call k).peer n (h.placed k less).aimed tt (rw ran refl))
        safe
  Step-Safe_network w' (strays k req n resp less at ran) =
      Step-Safe size name named w.cluster _
        (happens (entries_received req) (w.call k).peer n (h.placed k less).aimed tt (rw ran refl))
        safe
  Step-Safe_network w' (closes k req resp n less at ran) =
      Step-Safe size name named w.cluster _
        (happens (peer_replied (w.call k).task req resp) (w.call k).owner n (h.placed k less).owned
          tt ran)
        safe
