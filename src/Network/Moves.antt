-- ===== src/Network/Moves.antt =====
-- Every step of the cluster keeps the logs tied to the ledger.
use orris.Prelude.{
  ℕ, String, ◌≡◌, ◌≢◌, ◌<◌, ◌⊎◌, refl, ap, true, Option, some, inl, inr, Bool-cases, put,
}
use orris.Transport.{RequestVoteRequest, RequestVoteResponse}
use orris.Raft.State.{Node, ClientReq, reset_election_timer}
use orris.Raft.Append.{push}
use orris.Raft.Vote.{handle_request_vote}
use orris.Raft.Client.{client_entry}
use orris.Raft.Election.{
  Election, is_leader, is_candidate, start_election, check_reply, count_vote, finish_election,
}
use orris.Raft.Recovery.Restores.{IsRecoverable}
use orris.Raft.Steps.{
  Event, vote_requested, entries_received, timer_fired, reply_checked, vote_counted,
  election_finished, peer_replied, apply_ticked, client_requested, restarted, disarm, step,
}
use orris.Raft.Steps.Keeps.{count_vote_inv, finish_election_inv}
use orris.Raft.Steps.Keeps.Runs.{IsQuiet, IsSparing, IsIndexing}
use orris.Cluster
use orris.Cluster.{
  Cluster, set_node, set_race, ask, check, count, finish, stand, happens, stands, asks, checks,
  counts, ends,
}
use orris.Cluster.Invariant.{Won}
use orris.Cluster.Moves.{Safe}
use orris.Cluster.Safety.{Step-Safe, Won-Step, winner_named}
use orris.Network.{IsOther, IsApart}
use orris.Network.Ledger.{Ledger, Extends-refl}
use orris.Network.Invariant.{Nodes, Nodes-more, Nodes-put, Stays}
use orris.Network.Events.{step-Past, sparing-Stays, client-log, client_refused, Counted}
use orris.Network.Writes.{Grown, Wrote-refl, begins-Grown, pushes-Grown}

-- A quiet event that is no part of a call leaves the log and the indices alone, but for a client's request.
abbrev pub Split : Event → Type 0
Split e = (IsSparing e × ¬ IsIndexing e) ⊎ ((req : ClientReq) × (e ≡ client_requested req))

pub split : (e : Event) → IsQuiet e → IsOther e → Split e
split (vote_requested req) quiet other = inl (tt, λ never. never)
split (entries_received req) quiet other = absurd other
split timer_fired quiet other = inl (tt, λ never. never)
split (reply_checked e resp) quiet other = inl (tt, λ never. never)
split (vote_counted e resp) quiet other = absurd quiet
split (election_finished e) quiet other = absurd quiet
split (peer_replied task req resp) quiet other = absurd other
split apply_ticked quiet other = inl (tt, λ never. never)
split (client_requested req) quiet other = inr (req, refl)
split restarted quiet other = inl (tt, λ never. never)

pub count_vote-Counted :
    (resp : RequestVoteResponse) (e : Election) (n : Node)
    → Counted n (λ l. is_candidate l.state ≡ true) (count_vote resp e n).1
count_vote-Counted resp e n =
    count_vote_inv (Counted n (λ l. is_candidate l.state ≡ true)) e n (inl refl) resp
      (λ _ stands _ _. inr (inr (refl, stands)))

pub finish_election-Counted :
    (e : Election) (n : Node) → Counted n (λ l. is_candidate l.state ≡ true) (finish_election e n)
finish_election-Counted e n =
    finish_election_inv (Counted n (λ l. is_candidate l.state ≡ true)) e n (inl refl)
      (λ stands _ _. inr (inr (refl, stands))) (inr (inl refl))

module _ (size : ℕ) (name : ℕ → String) (named : (i : ℕ) → i < size → name i ≢ "")
    (distinct : (i j : ℕ) → i < size → j < size → name i ≡ name j → i ≡ j) (g : Ledger)
    (c d : Cluster) (s : Cluster.Step size c d) (safe : Safe size name named c)
    (h : Nodes size g (Won c.race c.races) c.node) where
  abbrev Wins : ℕ → ℕ → Type 0
  Wins = Won d.race d.races

  later : Nodes size g Wins c.node
  later = Nodes-more size g (Won c.race c.races) Wins c.node (Won-Step size c d s) h

  safe' : Safe size name named d
  safe' = Step-Safe size name named c d s safe

  once : (j k t : ℕ) → j < size → k < size → Wins j t → Wins k t → j ≡ k
  once j k t j_less k_less won_j won_k =
      distinct j k j_less k_less (winner_named size name safe'.0 d j k t safe'.1 won_j won_k)

  restores : (i : ℕ) → i < size → IsRecoverable (c.node i)
  restores i less = (safe.1.nodes i less).0.0

  module _ (i : ℕ) (less : i < size) (m : Node)
      (won : (j : ℕ)
        → j < size
        → is_leader (put c.node i m j).state ≡ true
        → Wins j (put c.node i m j).current_term) where
    sparing-Grown :
        (e : Event)
        → IsSparing e
        → IsQuiet e
        → step e (c.node i) ≡ some m
        → Grown size g Wins (put c.node i m)
    sparing-Grown e sparing quiet ran = (
      g,
      Extends-refl g,
      Wrote-refl size g (put c.node i m),
      Nodes-put size g Wins c.node later i m (
          sparing-Stays size g e (c.node i) m sparing quiet (restores i less) ran (h.logged i less)
            (h.leading i less)),
    )

    -- Nothing but the timer changes.
    same-Grown : Stays size g (c.node i) m → Grown size g Wins (put c.node i m)
    same-Grown stays = (
      g,
      Extends-refl g,
      Wrote-refl size g (put c.node i m),
      Nodes-put size g Wins c.node later i m stays,
    )

    Counted-Grown :
        Counted (c.node i) (λ l. is_candidate l.state ≡ true) m → Grown size g Wins (put c.node i m)
    unfolding reset_election_timer
    Counted-Grown (inl same) = same-Grown (
        rw same
          (record { logged = h.logged i less; leading = h.leading i less; past = λ t past. past }))
    Counted-Grown (inr (inl same)) = same-Grown (
        rw same (record {
          logged = h.logged i less;
          leading = h.leading i less;
          past =
              λ t past. record { reached = past.reached; stands = past.stands; there = past.there };
        }))
    Counted-Grown (inr (inr (leads, stood))) =
        begins-Grown size g Wins c.node later once i less m won leads stood

    client-Grown :
        (req : ClientReq)
        → step (client_requested req) (c.node i) ≡ some m
        → Grown size g Wins (put c.node i m)
    unfolding step
    client-Grown req ran =
        let n = c.node i in
        elim (Bool-cases (is_leader n.state)) [
          | inr other ↦
              let same : m ≡ n = cc (ran, client_refused req n other) in Counted-Grown (inl same)
          | inl leads ↦
              let pushed : m ≡ push (client_entry req n) n = cc (ran, client-log req n leads) in
              pushes-Grown size g Wins c.node later once i less m won req pushed leads
                (step-Past (client_requested req) n m tt (restores i less) ran)
        ]

    pub quiet-Grown :
        (e : Event)
        → IsQuiet e
        → IsOther e
        → step e (c.node i) ≡ some m
        → Grown size g Wins (put c.node i m)
    quiet-Grown e quiet other ran = elim (split e quiet other) [
      | inl (sparing, _) ↦ sparing-Grown e sparing quiet ran
      | inr (req, asked) ↦ client-Grown req (rw (← asked) ran)
    ]

-- One step of the cluster that is no part of a call.
pub Step-Grown :
    (size : ℕ) (name : ℕ → String) (named : (i : ℕ) → i < size → name i ≢ "")
    (distinct : (i j : ℕ) → i < size → j < size → name i ≡ name j → i ≡ j) (g : Ledger)
    (c d : Cluster) (s : Cluster.Step size c d)
    → IsApart s
    → Safe size name named c
    → Nodes size g (Won c.race c.races) c.node
    → Grown size g (Won d.race d.races) d.node
unfolding set_node set_race ask check count finish stand step
Step-Grown size name named distinct g c d (happens e i n less quiet ran) other safe h =
    let s = happens e i n less quiet ran in
    let after = Step-Safe size name named c d s safe in
    quiet-Grown size name named distinct g c d s safe h i less n
      (λ j j_less. (after.1.nodes j j_less).1) e quiet other ran
Step-Grown size name named distinct g c d (stands i n e req less starts) other safe h =
    let s = stands i n e req less starts in
    let after = Step-Safe size name named c d s safe in
    let same : (start_election (disarm (c.node i))).0 ≡ n =
      ap (λ (r : Node × Option (Election × RequestVoteRequest)). r.0) starts in
    quiet-Grown size name named distinct g c d s safe h i less n
      (λ j j_less. (after.1.nodes j j_less).1) timer_fired tt tt (ap some same)
Step-Grown size name named distinct g c d (asks r j running less at) other safe h =
    let s = asks r j running less at in
    let after = Step-Safe size name named c d s safe in
    let req = (c.race r).request in
    quiet-Grown size name named distinct g c d s safe h j less
      (handle_request_vote req (c.node j)).0 (λ k k_less. (after.1.nodes k k_less).1)
      (vote_requested req) tt tt refl
Step-Grown size name named distinct g c d (checks r j resp running less at) other safe h =
    let s = checks r j resp running less at in
    let after = Step-Safe size name named c d s safe in
    let race = c.race r in
    quiet-Grown size name named distinct g c d s safe h race.owner (safe.1.fair r running).owned
      (check_reply race.election resp (c.node race.owner)).0
      (λ k k_less. (after.1.nodes k k_less).1) (reply_checked race.election resp) tt tt refl
Step-Grown size name named distinct g c d (counts r j resp running less at) other safe h =
    let s = counts r j resp running less at in
    let after = Step-Safe size name named c d s safe in
    let race = c.race r in
    let n = c.node race.owner in
    Counted-Grown size name named distinct g c d s safe h race.owner (safe.1.fair r running).owned
      (count_vote resp race.election n).1 (λ k k_less. (after.1.nodes k k_less).1)
      (count_vote-Counted resp race.election n)
Step-Grown size name named distinct g c d (ends r running) other safe h =
    let s = ends r running in
    let after = Step-Safe size name named c d s safe in
    let race = c.race r in
    let n = c.node race.owner in
    Counted-Grown size name named distinct g c d s safe h race.owner (safe.1.fair r running).owned
      (finish_election race.election n) (λ k k_less. (after.1.nodes k k_less).1)
      (finish_election-Counted race.election n)
