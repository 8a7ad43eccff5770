-- ===== src/Network/Chosen.antt =====
-- A text that more than half of the nodes hold: what each node, the ledger and each election keep of it, and
-- that no later leadership begins without it.
use orris.Prelude.{
  ℕ, String, Bool, true, false, ◌*◌, ◌≡◌, ◌≢◌, ◌≤◌, ◌<◌, inl, inr, sym, ◌∙◌, subst, some, List,
  arith, put, put_all, tally, tally_overlap, Prefix, Prefix-trans, Bool-cases,
}
use orris.Storage.{LogEntry}
use orris.Raft.State.{Node, ClientReq}
use orris.Raft.Append.{push}
use orris.Raft.Client.{client_entry}
use orris.Raft.Election.{is_leader, is_candidate}
use orris.Raft.Election.Winning.{has_majority-Majority}
use orris.Raft.Recovery.Restores.{IsRecoverable}
use orris.Raft.Steps.{Event, client_requested, step}
use orris.Raft.Steps.Keeps.Runs.{IsQuiet}
use orris.Raft.Steps.Contending.{leader-Contends}
use orris.Raft.Steps.Standing.{leads-IsApart}
use orris.Cluster.{Cluster}
use orris.Cluster.Invariant.{Won, counted-granted, is_counted}
use orris.Cluster.Moves.{Safe}
use orris.Network.{IsOther}
use orris.Network.Ledger.{Ledger, Extends}
use orris.Network.Order.{IsOrdered}
use orris.Network.Indexes.{Within}
use orris.Network.Moved.{Moved, stayed-Moved, armed-Moved, begun-Moved, sparing-Moved, pushed-Moved}
use orris.Network.Bids.{Bid}
use orris.Network.Writes.{Wrote}
use orris.Network.Events.{step-Leads, client-log, client_refused, Counted}
use orris.Network.Moves.{split}

module _ (L : List LogEntry) (t : ℕ) (n m : Node) (ordered : IsOrdered n.current_term n.log)
    (within : Within n) where
  client-Moved : (req : ClientReq) → step (client_requested req) n ≡ some m → Moved L t n m
  unfolding step
  client-Moved req ran = elim (Bool-cases (is_leader n.state)) [
    | inr other ↦
        let same : m ≡ n = cc (ran, client_refused req n other) in
        rw same (stayed-Moved L t n ordered within)
    | inl leads ↦
        let pushed : m ≡ push (client_entry req n) n = cc (ran, client-log req n leads) in
        rw pushed (pushed-Moved L t req n leads ordered within)
  ]

  pub quiet-Moved :
      (e : Event) → IsQuiet e → IsOther e → IsRecoverable n → step e n ≡ some m → Moved L t n m
  quiet-Moved e quiet other back ran = elim (split e quiet other) [
    | inl (sparing, apart) ↦
        sparing-Moved L t e n m sparing back ran ordered within (step-Leads e n m quiet ran) apart
    | inr (req, asked) ↦ client-Moved req (rw (← asked) ran)
  ]

  pub Counted-Moved : Counted n (λ l. is_candidate l.state ≡ true) m → Moved L t n m
  Counted-Moved (inl same) = rw same (stayed-Moved L t n ordered within)
  Counted-Moved (inr (inl same)) = rw same (armed-Moved L t n ordered within)
  Counted-Moved (inr (inr (leads, stands))) =
      let other : is_leader n.state ≡ false = elim (Bool-cases (is_leader n.state)) [
        | inr no_one ↦ no_one
        | inl both ↦ absurd (cc (leads-IsApart n.state both, stands))
      ] in
      rw leads (begun-Moved L t n stands other ordered)

module _ (size : ℕ) (L : List LogEntry) (t : ℕ) (test : ℕ → Bool) where
  pub record Keeper (i : ℕ) (n : Node) : Type 0 where
    pub ordered : IsOrdered n.current_term n.log
    pub within : Within n
    pub reached : test i ≡ true → t ≤ n.current_term
    pub holds : test i ≡ true → Prefix L n.log

  abbrev pub Keepers : (ℕ → Node) → Type 0
  Keepers node = (i : ℕ) → i < size → Keeper i (node i)

  pub Keepers-put :
      (node : ℕ → Node) (i : ℕ) (m : Node)
      → i < size
      → Moved L t (node i) m
      → Keepers node
      → Keepers (put node i m)
  Keepers-put node i m i_less moved h =
      put_all (λ j n. j < size → Keeper j n) node i m
        (λ less.
          let k = h i less in
          record {
            ordered = moved.ordered;
            within = moved.within;
            reached = λ mine. omega (arith, moved.term, k.reached mine);
            holds = λ mine. moved.keeps (k.reached mine) (k.holds mine);
          })
        (λ j _. h j)

  -- The text is that of the term's leader, or the beginning of it, and every later leader has it.
  pub record Texts (g : Ledger) : Type 0 where
    pub ordered : (u : ℕ) → IsOrdered u (g.text u)
    pub start : Prefix L (g.text t)
    pub later : (u : ℕ) → t < u → g.begun u ≡ true → Prefix L (g.text u)

  -- Who won an election of a later term stands with the text.
  winner-Prefix :
      (name : ℕ → String) (named : (i : ℕ) → i < size → name i ≢ "") (g : Ledger) (c : Cluster)
      → Safe size name named c
      → size < 2 * tally test (λ j. j) size
      → ((r : ℕ) → r < c.races → Bid size L t test g c.node (c.race r))
      → (j : ℕ) → is_leader (c.node j).state ≡ true
      → t < (c.node j).current_term
      → Won c.race c.races j (c.node j).current_term
      → Prefix L (c.node j).log
  winner-Prefix name named g c safe quorum bids j leads above (r, running, owner, term, won) =
      let race = c.race r in
      let fair = safe.1.fair r running in
      let bid = bids r running in
      let (k, less, in_test, counted_k) =
        tally_overlap test is_counted (λ l. l) race.stage size
          (omega
            (arith, quorum, has_majority-Majority race.election won, fair.votes, fair.sized)) in
      let begins =
        bid.kept k less in_test (counted-granted (race.stage k) counted_k) (rw term above) in
      let stands =
        subst (λ l. Prefix bid.log (c.node l).log) owner
          (bid.standing (rw owner (leader-Contends (c.node j).state leads))
            (rw owner (sym term))) in
      Prefix-trans L bid.log (c.node j).log begins stands

  -- The ledger after a step.
  pub Texts-Wrote :
      (name : ℕ → String) (named : (i : ℕ) → i < size → name i ≢ "") (g g' : Ledger) (c : Cluster)
      → Safe size name named c
      → size < 2 * tally test (λ j. j) size
      → ((r : ℕ) → r < c.races → Bid size L t test g c.node (c.race r))
      → Keepers c.node
      → Extends g g'
      → Wrote size g g' c.node
      → Texts g
      → Texts g'
  Texts-Wrote name named g g' c safe quorum bids keepers more wrote h = record {
    ordered = λ u. elim (wrote u) [
      | inl (same, _) ↦ rw same (h.ordered u)
      | inr (j, less, _, term, text) ↦ rw (text, ← term) (keepers j less).ordered
    ];
    start = Prefix-trans L (g.text t) (g'.text t) h.start (more t);
    later = λ u above begun. elim (wrote u) [
      | inl (same, same_begun) ↦ rw same (h.later u above (sym same_begun ∙ begun))
      | inr (j, less, leads, term, text) ↦ rw text (
          winner-Prefix name named g c safe quorum bids j leads (rw term above)
            ((safe.1.nodes j less).1 leads))
    ];
  }
