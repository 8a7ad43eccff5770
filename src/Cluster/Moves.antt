-- ===== src/Cluster/Moves.antt =====
-- Each step of a cluster keeps the invariant, some of them with one more vote.
use orris.Prelude.{
  ap, refl, sym, ℕ, String, Bool, true, false, arith, ◌<◌, ◌≡◌, ◌≢◌, ◌∙◌, inl, inr, some,
  Bool-cases, if◌then◌else◌, put,
}
use orris.Transport.{RequestVoteResponse}
use orris.Raft.State.{Node}
use orris.Raft.Vote.{handle_request_vote}
use orris.Raft.Election.{check_reply}
use orris.Raft.Steps.{Event, vote_requested, reply_checked, step}
use orris.Raft.Steps.Keeps.Runs.{IsQuiet}
use orris.Raft.Steps.Votes.{granted-Held, handled-Follows}
use orris.Cluster.{Stage, asking, replied, passed, stopped, Cluster, set_node, ask, check}
use orris.Cluster.Invariant.{
  Ballots, Extends, mark, mark-Extends, mark_there, Won, Casts, Casts-mark, Good, Inv, is_counted,
  is_granted,
}
use orris.Cluster.Advance.{WonAfter, quiet-Good, both-Inv, nodes_more}
use orris.Cluster.Kept.{nodes_put, nodes_put_col}

pub passed_on :
    (resp : RequestVoteResponse) (goes_on : Bool)
    → (is_counted (if goes_on then passed resp else stopped) ≡ false)
      × (is_granted (if goes_on then passed resp else stopped) ≡ true → resp.vote_granted ≡ true)
passed_on resp true = (refl, λ granted. granted)
passed_on resp false = (refl, λ granted. absurd (cc))

module _ (size : ℕ) (name : ℕ → String) (named : (i : ℕ) → i < size → name i ≢ "") where
  -- The invariant, with some record of the votes.
  abbrev pub Safe : Cluster → Type 0
  Safe c = (cast : Ballots) × Inv size name cast c

  module _ (c : Cluster) (cast : Ballots) (h : Inv size name cast c) where
    pub happens-Safe :
        (e : Event) (i : ℕ) (n : Node)
        → i < size
        → IsQuiet e
        → step e (c.node i) ≡ some n
        → Safe (set_node i n c)
    unfolding set_node
    happens-Safe e i n less quiet ran = (
      cast,
      record {
        nodes =
            nodes_put size name (Won c.race c.races) cast c.node h.nodes i n
              (quiet-Good size name named c cast h e i n less quiet ran);
        fair = h.fair;
      },
    )

    abbrev Asked : ℕ → ℕ → Node × RequestVoteResponse
    Asked r j = handle_request_vote (c.race r).request (c.node j)

    asked-Good :
        (r j : ℕ) → j < size → Good size name (Won c.race c.races j) (cast j) j (Asked r j).0
    unfolding step
    asked-Good r j less =
        quiet-Good size name named c cast h (vote_requested (c.race r).request) j _ less tt refl

    -- A vote that is given was not given to another.
    asked-Extends :
        (r j : ℕ)
        → r < c.races
        → j < size
        → (Asked r j).1.vote_granted ≡ true
        → Extends cast (mark cast j (c.race r).election.term (name (c.race r).owner))
    asked-Extends r j running less granted =
        let f = h.fair r running in
        let req = (c.race r).request in
        mark-Extends cast j (c.race r).election.term (name (c.race r).owner) λ given.
          let held = (h.nodes j less).0.1.0 ((c.race r).election.term, given) in
          sym f.candidate
          ∙ granted-Held (c.race r).election.term (cast j (c.race r).election.term) req (c.node j)
              held given f.term granted

    asked-Casts :
        (r j : ℕ)
        → r < c.races
        → j < size
        → (Asked r j).1.vote_granted ≡ true
        → Casts (put (cast j) (c.race r).election.term (name (c.race r).owner)) (Asked r j).0
    asked-Casts r j running less granted =
        let f = h.fair r running in
        let n = (Asked r j).0 in
        let good = asked-Good r j less in
        let follows = handled-Follows (c.race r).request (c.node j) granted in
        Casts-mark (cast j) (c.race r).election.term (name (c.race r).owner) n good.0.1.0
          (good.0.0, rw (sym f.term, sym f.candidate) follows)

    pub ask-Safe :
        (r j : ℕ) → r < c.races → j < size → (c.race r).stage j ≡ asking → Safe (ask r j c)
    unfolding ask
    ask-Safe r j running less at =
        let election = (c.race r).election in
        let (n, resp) = Asked r j in
        let uncounted : is_counted ((c.race r).stage j) ≡ false = ap is_counted at in
        let more =
          nodes_more size name named c cast h r j (replied resp) election refl refl (omega arith) in
        let good = asked-Good r j less in
        let others : (k : ℕ) → k < size → _ = λ k k_less. more k (c.node k) (h.nodes k k_less) in
        elim (Bool-cases (Asked r j).1.vote_granted) [
          | inr refused ↦ (
            cast,
            both-Inv size name named c cast h cast r j (replied resp) election j n (λ _ _ _. refl)
                running less refl refl (rw uncounted refl) uncounted (λ granted. absurd (cc))
                (nodes_put size name (WonAfter size name named c cast h r j (replied resp) election)
                  cast c.node others j n (more j n good)),
          )
          | inl granted ↦
              let name_owner = name (c.race r).owner in
              let col = put (cast j) election.term name_owner in
              let (back, (_, member)) = good.0 in
              (
                mark cast j election.term name_owner,
                both-Inv size name named c cast h (mark cast j election.term name_owner) r j
                    (replied resp) election j n (asked-Extends r j running less granted) running
                    less refl refl (rw uncounted refl) uncounted
                    (λ _. mark_there cast j election.term name_owner)
                    (nodes_put_col size name
                      (WonAfter size name named c cast h r j (replied resp) election) cast c.node
                      others j n col
                      ((back, (asked-Casts r j running less granted, member)), (more j n good).1)),
              )
        ]

    pub check-Safe :
        (r j : ℕ) (resp : RequestVoteResponse)
        → r < c.races
        → j < size
        → (c.race r).stage j ≡ replied resp
        → Safe (check r j resp c)
    unfolding check step
    check-Safe r j resp running less at =
        let owner = (c.race r).owner in
        let election = (c.race r).election in
        let owned = (h.fair r running).owned in
        let outcome = check_reply election resp (c.node owner) in
        let s : Stage = if outcome.1 then passed resp else stopped in
        let uncounted : is_counted ((c.race r).stage j) ≡ false = ap is_counted at in
        let (not_yet, same) = passed_on resp outcome.1 in
        let more = nodes_more size name named c cast h r j s election refl refl (omega arith) in
        let good =
          quiet-Good size name named c cast h (reply_checked election resp) owner outcome.0 owned tt
            refl in
        (
          cast,
          both-Inv size name named c cast h cast r j s election owner outcome.0 (λ _ _ _. refl)
              running less refl refl (rw (uncounted, not_yet) refl) uncounted
              (λ granted. (h.fair r running).cast_for j less (ap is_granted at ∙ same granted))
              (nodes_put size name (WonAfter size name named c cast h r j s election) cast c.node
                (λ k k_less. more k (c.node k) (h.nodes k k_less)) owner outcome.0
                (more owner outcome.0 good)),
        )
