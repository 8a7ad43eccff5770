-- ===== src/Network/Advances.antt =====
-- Every step of the cluster keeps what the nodes and the elections hold of a chosen text.
use orris.Prelude.{
  ℕ, suc, Bool, false, Option, some, ◌≡◌, ◌<◌, inl, inr, refl, ap, ◌∙◌, List, [], arith, put,
  put_all, Prefix, length, if◌then◌else◌, Bool-cases,
}
use orris.Storage.{LogEntry}
use orris.Transport.{RequestVoteRequest, RequestVoteResponse}
use orris.Raft.State.{Node}
use orris.Raft.Vote.{handle_request_vote}
use orris.Raft.Election.{Election, start_election, check_reply, count_vote, finish_election}
use orris.Raft.Recovery.Restores.{IsRecoverable}
use orris.Raft.Steps.{vote_requested, timer_fired, reply_checked, disarm, step}
use orris.Cluster
use orris.Cluster.{
  Stage, replied, passed, stopped, counted, Race, Cluster, at_stage, set_node, set_race, ask, check,
  count, finish, stand, open_race, happens, stands, asks, checks, counts, ends,
}
use orris.Cluster.Invariant.{is_granted}
use orris.Cluster.Kept.{count_vote-election}
use orris.Cluster.Moves.{passed_on}
use orris.Network.{IsApart}
use orris.Network.Ledger.{Ledger, IsLogged}
use orris.Network.UpToDate.{Ends}
use orris.Network.Moved.{Moved}
use orris.Network.Bids.{Bid, Bid-put, Bid-staged, voted-Prefix, open_race-Bid}
use orris.Network.Moves.{count_vote-Counted, finish_election-Counted}
use orris.Network.Chosen.{Keepers, Keepers-put, Texts, quiet-Moved, Counted-Moved}

module _ (size : ℕ) (L : List LogEntry) (t : ℕ) (test : ℕ → Bool) (g : Ledger) where
  abbrev pub Bids : Cluster → Type 0
  Bids c = (r : ℕ) → r < c.races → Bid size L t test g c.node (c.race r)

  abbrev pub Held : Cluster → Type 0
  Held c = Keepers size L t test c.node × Bids c

  -- Node `i` moves, and nothing else.
  pub Held-put :
      (c : Cluster) (i : ℕ) (m : Node)
      → i < size
      → Moved L t (c.node i) m
      → Held c
      → Held (set_node i m c)
  unfolding set_node
  Held-put c i m less moved (keepers, bids) = (
    Keepers-put size L t test c.node i m less moved keepers,
    λ r running. Bid-put size L t test g c.node (c.race r) i m moved (bids r running),
  )

  -- Race `r` becomes `race`.
  Held-set_race :
      (c : Cluster) (r : ℕ) (race : Race)
      → Bid size L t test g c.node race
      → Held c
      → Held (set_race r race c)
  unfolding set_race
  Held-set_race c r race bid (keepers, bids) = (
    keepers,
    put_all (λ q l. q < c.races → Bid size L t test g c.node l) c.race r race (λ _. bid)
        (λ q _. bids q),
  )

  module _ (texts : Texts size L t test g) (ends_so : Ends t L)
      (blank : (u : ℕ) → g.begun u ≡ false → g.text u ≡ []) (c : Cluster)
      (logged : (i : ℕ) → i < size → IsLogged g (c.node i).log)
      (back : (i : ℕ) → i < size → IsRecoverable (c.node i))
      (owned : (r : ℕ) → r < c.races → (c.race r).owner < size) (h : Held c) where
    later_text : (u : ℕ) → t < u → 0 < length (g.text u) → Prefix L (g.text u)
    later_text u above some_text = elim (Bool-cases (g.begun u)) [
      | inl begun ↦ texts.later u above begun
      | inr none ↦ absurd (omega (arith, ap length (blank u none)))
    ]

    stand-Held :
        (i : ℕ) (n : Node) (election : Election) (request : RequestVoteRequest)
        → i < size
        → start_election (disarm (c.node i)) ≡ (n, some (election, request))
        → Moved L t (c.node i) n
        → Held (stand i n election request c)
    unfolding stand
    stand-Held i n election request less starts moved =
        let k = h.0 i less in
        (
          Keepers-put size L t test c.node i n less moved h.0,
          put_all (λ q race. q < suc c.races → Bid size L t test g (put c.node i n) race) c.race
              c.races (open_race i election request)
              (λ _.
                open_race-Bid size L t test g c.node i n election request starts (logged i less)
                  k.ordered k.holds)
              (λ q older running.
                Bid-put size L t test g c.node (c.race q) i n moved (h.1 q (omega (arith, older)))),
        )

    ask-Held :
        (r j : ℕ)
        → r < c.races
        → j < size
        → Moved L t (c.node j) (handle_request_vote (c.race r).request (c.node j)).0
        → Held (ask r j c)
    unfolding ask set_node set_race
    ask-Held r j running less moved =
        let race = c.race r in
        let n = c.node j in
        let result = handle_request_vote race.request n in
        let bid = h.1 r running in
        let k = h.0 j less in
        let staged =
          Bid-staged size L t test g c.node race j (replied result.1) race.election refl bid
            λ _ mine granted _.
              voted-Prefix size L t test g c.node race n bid (logged j less) k.ordered texts.ordered
                ends_so later_text granted (k.holds mine) in
        Held-put (set_race r (at_stage j (replied result.1) race) c) j result.0 less moved
          (Held-set_race c r (at_stage j (replied result.1) race) staged h)

    check-Held :
        (r j : ℕ) (resp : RequestVoteResponse)
        → r < c.races
        → (c.race r).stage j ≡ replied resp
        → Moved L t
            (c.node (c.race r).owner)
            (check_reply (c.race r).election resp (c.node (c.race r).owner)).0
        → Held (check r j resp c)
    unfolding check set_node set_race
    check-Held r j resp running at moved =
        let race = c.race r in
        let outcome = check_reply race.election resp (c.node race.owner) in
        let s : Stage = if outcome.1 then passed resp else stopped in
        let bid = h.1 r running in
        let (_, same) = passed_on resp outcome.1 in
        let staged =
          Bid-staged size L t test g c.node race j s race.election refl bid
            λ less mine granted above.
              bid.kept j less mine (ap is_granted at ∙ same granted) above in
        Held-put (set_race r (at_stage j s race) c) race.owner outcome.0 (owned r running) moved
          (Held-set_race c r (at_stage j s race) staged h)

    count-Held :
        (r j : ℕ) (resp : RequestVoteResponse)
        → r < c.races
        → (c.race r).stage j ≡ passed resp
        → Moved L t
            (c.node (c.race r).owner)
            (count_vote resp (c.race r).election (c.node (c.race r).owner)).1
        → Held (count r j resp c)
    unfolding count set_node set_race
    count-Held r j resp running at moved =
        let race = c.race r in
        let result = count_vote resp race.election (c.node race.owner) in
        let (term, _, _) = count_vote-election resp race.election (c.node race.owner) in
        let bid = h.1 r running in
        let after : Race =
          at_stage j (counted resp.vote_granted) (record race { election = result.0 }) in
        let staged =
          Bid-staged size L t test g c.node race j (counted resp.vote_granted) result.0 term bid
            λ less mine granted above. bid.kept j less mine (ap is_granted at ∙ granted) above in
        Held-put (set_race r after c) race.owner result.1 (owned r running) moved
          (Held-set_race c r after staged h)

    pub Step-Held : (d : Cluster) (s : Cluster.Step size c d) → IsApart s → Held d
    unfolding finish step
    Step-Held d (happens e i n less quiet ran) other =
        let k = h.0 i less in
        Held-put c i n less
          (quiet-Moved L t (c.node i) n k.ordered k.within e quiet other (back i less) ran) h
    Step-Held d (stands i n e req less starts) other =
        let k = h.0 i less in
        let same : (start_election (disarm (c.node i))).0 ≡ n =
          ap (λ (r : Node × Option (Election × RequestVoteRequest)). r.0) starts in
        stand-Held i n e req less starts (
          quiet-Moved L t (c.node i) n k.ordered k.within timer_fired tt tt (back i less)
            (ap some same))
    Step-Held d (asks r j running less at) other =
        let k = h.0 j less in
        ask-Held r j running less (
          quiet-Moved L t (c.node j) _ k.ordered k.within (vote_requested (c.race r).request) tt tt
            (back j less) refl)
    Step-Held d (checks r j resp running less at) other =
        let i = (c.race r).owner in
        let k = h.0 i (owned r running) in
        check-Held r j resp running at (
          quiet-Moved L t (c.node i) _ k.ordered k.within (reply_checked (c.race r).election resp)
            tt tt (back i (owned r running)) refl)
    Step-Held d (counts r j resp running less at) other =
        let i = (c.race r).owner in
        let k = h.0 i (owned r running) in
        count-Held r j resp running at (
          Counted-Moved L t (c.node i) _ k.ordered k.within
            (count_vote-Counted resp (c.race r).election (c.node i)))
    Step-Held d (ends r running) other =
        let i = (c.race r).owner in
        let k = h.0 i (owned r running) in
        Held-put c i (finish_election (c.race r).election (c.node i)) (owned r running)
          (Counted-Moved L t (c.node i) _ k.ordered k.within
            (finish_election-Counted (c.race r).election (c.node i)))
          h
