-- ===== src/Network/Lasting.antt =====
-- What a network keeps of a text that more than half of its nodes hold: every step leaves it chosen.
use native.Mathlib.Decide.{ℕ_discrete}
use orris.Prelude.{
  ℕ, suc, String, Bool, true, ◌*◌, ◌≡◌, ◌≢◌, ◌≤◌, ◌<◌, inl, inr, sym, ap, ◌∙◌, subst, some, List,
  arith, nat_eq, put, put_all, tally, length, pos, ◌+ℤ◌, Prefix,
}
use orris.Storage.{LogEntry}
use orris.Transport.{AppendEntriesRequest, AppendEntriesResponse}
use orris.Raft.State.{Node}
use orris.Raft.Append.{handle_append_entries}
use orris.Raft.Election.{is_leader}
use orris.Raft.Replication.{PeerTask, is_current, finish_replication}
use orris.Raft.Steps.{peer_replied, step}
use orris.Cluster.{set_node}
use orris.Cluster.Moves.{Safe}
use orris.Network.{
  Stage, sent, answered, closed, Network, plan, set_stage, set_cluster, Step, moves, plans, sends,
  answers, strays, closes, Reach, stays, goes_on,
}
use orris.Network.Ledger.{Ledger}
use orris.Network.UpToDate.{Ends}
use orris.Network.Indexes.{Fits}
use orris.Network.Invariant.{Leading}
use orris.Network.Events.{step-Leads}
use orris.Network.Moved.{received-Moved, replied-Moved}
use orris.Network.Bids.{Bid-Extends}
use orris.Network.Backed.{
  Backed, Backed-Extends, Stands, Sent, planned-Fits, made-Sent, matched-Fits,
}
use orris.Network.Chosen.{Texts, Texts-Wrote}
use orris.Network.Advances.{Held, Held-put, Step-Held}
use orris.Network.Ties.{Inv, Step-Next, Step-Safe_network}

-- What the answer to a request may set NextIndex to.
current-Fits :
    (g : Ledger) (n : Node) (task : PeerTask) (req : AppendEntriesRequest)
    → Leading g n
    → Fits task.next (length (g.text task.term))
    → Sent g task req
    → is_current task n ≡ true
    → Fits task.next (length n.log)
      × Fits (req.prev_log_index +ℤ pos (length req.entries) +ℤ pos 1) (length n.log)
current-Fits g n task req leading fits (end, named, _) current =
    let leads : is_leader n.state ≡ true = ground (arith, current) in
    let term : n.current_term ≡ task.term = ground (arith, current) in
    let log : g.text task.term ≡ n.log = sym ((leading leads).1 ∙ ap g.text term) in
    let match = matched-Fits g req end in
    (
      subst (λ l. Fits task.next (length l)) log fits,
      subst (λ l. Fits (req.prev_log_index +ℤ pos (length req.entries) +ℤ pos 1) (length l))
          (ap g.text named ∙ log) match,
    )

module _ (size : ℕ) (name : ℕ → String) (named : (i : ℕ) → i < size → name i ≢ "")
    (distinct : (i j : ℕ) → i < size → j < size → name i ≡ name j → i ≡ j) (test : ℕ → Bool)
    (quorum : size < 2 * tally test (λ j. j) size) where
  module _ (L : List LogEntry) (t : ℕ) (ends_so : Ends t L) where
    pub record Chosen (g : Ledger) (w : Network) : Type 0 where
      pub safe : Safe size name named w.cluster
      pub tied : Inv size g w
      pub texts : Texts size L t test g
      pub held : Held size L t test g w.cluster
      pub backed : (k : ℕ) → k < w.calls → Backed g (w.call k)

    module _ (g : Ledger) (w : Network) (h : Chosen g w) where
      abbrev Kept : Network → Type 0
      Kept w' = Held size L t test g w'.cluster × ((k : ℕ) → k < w'.calls → Backed g (w'.call k))

      known : (u : ℕ) → g.begun u ≡ true → t ≤ u → Prefix L (g.text u)
      known u begun reached = elim (ℕ_discrete t u) [
        | yes same ↦ subst (λ v. Prefix L (g.text v)) same h.texts.start
        | no other ↦ h.texts.later u (omega arith) begun
      ]

      received-Held :
          (k : ℕ) (req : AppendEntriesRequest) (n : Node) (resp : AppendEntriesResponse)
          → k < w.calls
          → (w.call k).stage ≡ sent req
          → handle_append_entries req (w.cluster.node (w.call k).peer) ≡ some (n, resp)
          → Held size L t test g (set_node (w.call k).peer n w.cluster)
      received-Held k req n resp less at ran =
          let call = w.call k in
          let j = call.peer in
          let j_less = (h.tied.placed k less).aimed in
          let (end, _, begun) : Sent g call.task req =
            subst (Stands g call.task) at (h.backed k less).stands in
          let keeper = h.held.0 j j_less in
          Held-put size L t test g w.cluster j n j_less
            (received-Moved L t g req (w.cluster.node j) n resp h.tied.nodes.texts h.texts.ordered
              end (h.tied.nodes.logged j j_less) (known req.term begun) ran keeper.ordered
              keeper.within)
            h.held

      finished-Held :
          (k : ℕ) (req : AppendEntriesRequest) (resp : AppendEntriesResponse) (n : Node)
          → k < w.calls
          → (w.call k).stage ≡ answered req resp
          → finish_replication (w.call k).task req resp (w.cluster.node (w.call k).owner) ≡ some n
          → Held size L t test g (set_node (w.call k).owner n w.cluster)
      unfolding step
      finished-Held k req resp n less at ran =
          let call = w.call k in
          let i = call.owner in
          let i_less = (h.tied.placed k less).owned in
          let backed = h.backed k less in
          let made : Sent g call.task req = subst (Stands g call.task) at backed.stands in
          let keeper = h.held.0 i i_less in
          let l = w.cluster.node i in
          Held-put size L t test g w.cluster i n i_less
            (replied-Moved L t call.task req resp l n (h.safe.1.nodes i i_less).0.0 ran
              (λ leads. (step-Leads (peer_replied call.task req resp) l n tt ran leads).0)
              (current-Fits g l call.task req (h.tied.nodes.leading i i_less) backed.fits made)
              keeper.ordered keeper.within)
            h.held

      -- A call goes on.
      staged-Backed :
          (k : ℕ) (s : Stage)
          → k < w.calls
          → Stands g (w.call k).task s
          → (j : ℕ) → j < w.calls
          → Backed g (put w.call k (record (w.call k) { stage = s }) j)
      staged-Backed k s less stands =
          put_all (λ j call. j < w.calls → Backed g call) w.call k _
            (λ _. record { fits = (h.backed k less).fits; stands = stands }) (λ j _. h.backed j)

      Step-Kept : (w' : Network) → Step size w w' → Kept w'
      unfolding plan set_stage set_cluster
      Step-Kept w' (moves d s apart) = (
        Step-Held size L t test g h.texts ends_so h.tied.nodes.blank w.cluster h.tied.nodes.logged
            (λ i less. (h.safe.1.nodes i less).0.0) (λ r running. (h.safe.1.fair r running).owned)
            h.held d s apart,
        h.backed,
      )
      Step-Kept w' (plans i j p task i_less j_less in_round named_so) = (
        h.held,
        put_all (λ k call. k < suc w.calls → Backed g call) w.call w.calls _
            (λ _. record {
              fits =
                  planned-Fits g (w.cluster.node i) p task in_round (h.held.0 i i_less).within
                    (h.tied.nodes.leading i i_less);
              stands = tt;
            })
            (λ k older k_less. h.backed k (omega (arith, older))),
      )
      Step-Kept w' (sends k req less at made) =
          let i = (w.call k).owner in
          (
            h.held,
            staged-Backed k (sent req) less (
                made-Sent g (w.cluster.node i) (w.call k).task req made
                  (h.tied.nodes.leading i (h.tied.placed k less).owned) (h.backed k less).fits),
          )
      Step-Kept w' (answers k req n resp less at ran) = (
        received-Held k req n resp less at ran,
        staged-Backed k (answered req resp) less
            (subst (Stands g (w.call k).task) at (h.backed k less).stands),
      )
      Step-Kept w' (strays k req n resp less at ran) =
          (received-Held k req n resp less at ran, h.backed)
      Step-Kept w' (closes k req resp n less at ran) =
          (finished-Held k req resp n less at ran, staged-Backed k closed less tt)

      Step-Chosen : (w' : Network) → Step size w w' → (g' : Ledger) × Chosen g' w'
      Step-Chosen w' s =
          let (g', more, wrote, tied) = Step-Next size name named distinct g w h.safe h.tied w' s in
          let safe = Step-Safe_network size name named distinct g w h.safe h.tied w' s in
          let ((keepers, bids), backed) = Step-Kept w' s in
          let begun : (u : ℕ) → g.begun u ≡ true → g'.begun u ≡ true = λ u before. elim (wrote u) [
            | inl (_, same) ↦ same ∙ before
            | inr (j, less, leads, term, _) ↦ rw (← term) (tied.nodes.leading j less leads).0
          ] in
          (
            g',
            record {
              safe = safe;
              tied = tied;
              texts =
                  Texts-Wrote size L t test name named g g' w'.cluster safe quorum bids keepers more
                    wrote h.texts;
              held = (
                keepers,
                λ r running.
                    Bid-Extends size L t test g g' w'.cluster.node (w'.cluster.race r) more
                      (bids r running),
              );
              backed = λ k less. Backed-Extends g g' more begun (w'.call k) (backed k less);
            },
          )

    pub Reach-Chosen :
        (v w : Network) (g : Ledger) → Reach size v w → Chosen g v → (g' : Ledger) × Chosen g' w
    Reach-Chosen v w g stays h = (g, h)
    Reach-Chosen v w g (goes_on {u} reached next) h =
        let (g', h') = Reach-Chosen v u g reached h in Step-Chosen g' u h' w next

    -- A leader of the term or a later one has the text.
    pub Chosen-leads :
        (g : Ledger) (w : Network) (i : ℕ)
        → Chosen g w
        → i < size
        → is_leader (w.cluster.node i).state ≡ true
        → t ≤ (w.cluster.node i).current_term
        → Prefix L (w.cluster.node i).log
    Chosen-leads g w i h less leads reached =
        let (begun, text) = h.tied.nodes.leading i less leads in
        rw text (known g w h (w.cluster.node i).current_term begun reached)
