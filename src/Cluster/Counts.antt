-- ===== src/Cluster/Counts.antt =====
-- The steps that may start a leadership: it follows a majority of counted votes.
use orris.Prelude.{
  ap, refl, sym, ℕ, String, true, false, arith, ◌+◌, ◌<◌, ◌-◌, ◌≡◌, ◌≢◌, ◌∙◌, put_there, bit,
}
use orris.Transport.{RequestVoteResponse}
use orris.Raft.State.{Node}
use orris.Raft.Election.{Election, is_candidate, has_majority, count_vote, become_leader}
use orris.Raft.Steps.Keeps.{Keeps, count_vote_inv, finish_election_inv}
use orris.Raft.Steps.Recoverable.{become_leader-IsRecoverable}
use orris.Raft.Steps.Member.{become_leader-IsMember}
use orris.Raft.Steps.Leads.{become_leader_term}
use orris.Raft.Steps.Follows.{become_leader-Held}
use orris.Cluster.{Stage, passed, counted, Cluster, count, finish, set_node}
use orris.Cluster.Invariant.{Ballots, Won, Good, Good-Keeps, Inv, is_counted, is_granted}
use orris.Cluster.Kept.{nodes_put, count_vote-election, has_majority-more}
use orris.Cluster.Advance.{After, WonAfter, both-Inv, nodes_more}
use orris.Cluster.Moves.{Safe}

leads-Good :
    (size : ℕ) (name : ℕ → String) (Wins : ℕ → Type 0) (col : ℕ → String) (i : ℕ) (n : Node)
    → Good size name Wins col i n
    → Wins n.current_term
    → Good size name Wins col i (become_leader n)
leads-Good size name Wins col i n ((back, (casts, member)), _) won = (
  (
    become_leader-IsRecoverable n back,
    (
      (λ x. become_leader-Held x.0 (col x.0) n (casts x)),
      become_leader-IsMember (name i) (size - 1) n member,
    ),
  ),
  λ _. rw become_leader_term won,
)

module _ (size : ℕ) (name : ℕ → String) (named : (i : ℕ) → i < size → name i ≢ "") (c : Cluster)
    (cast : Ballots) (h : Inv size name cast c) where
  won_here :
      (r j term : ℕ) (s : Stage) (election : Election)
      → r < c.races
      → election.term ≡ term
      → has_majority election ≡ true
      → WonAfter size name named c cast h r j s election (c.race r).owner term
  won_here r j term s election running same enough =
      let there = put_there c.race r (After size name named c cast h r j s election) in
      (r, running, rw there refl, rw there same, rw there enough)

  pub count-Safe :
      (r j : ℕ) (resp : RequestVoteResponse)
      → r < c.races
      → j < size
      → (c.race r).stage j ≡ passed resp
      → Safe size name named (count r j resp c)
  unfolding count
  count-Safe r j resp running less at =
      let owner = (c.race r).owner in
      let election = (c.race r).election in
      let owned = (h.fair r running).owned in
      let n = c.node owner in
      let result = count_vote resp election n in
      let (term, peers, votes) = count_vote-election resp election n in
      let s : Stage = counted resp.vote_granted in
      let uncounted : is_counted ((c.race r).stage j) ≡ false = ap is_counted at in
      let Wins = WonAfter size name named c cast h r j s result.0 in
      let more =
        nodes_more size name named c cast h r j s result.0 term peers (omega (arith, votes)) in
      let P = Good size name (Wins owner) (cast owner) owner in
      let good : P n = more owner n (h.nodes owner owned) in
      let led : resp.vote_granted ≡ true
          → is_candidate n.state ≡ true
          → has_majority (record election { votes = election.votes + 1 }) ≡ true
          → n.current_term ≡ election.term
          → P (become_leader n) =
        λ granted _ enough same. leads-Good size name (Wins owner) (cast owner) owner n good (
          won_here r j n.current_term s result.0 running (term ∙ sym same) (
            has_majority-more (record election { votes = election.votes + 1 }) result.0 peers
              (omega (arith, votes, ap bit granted)) enough)) in
      (
        cast,
        both-Inv size name named c cast h cast r j s result.0 owner result.1 (λ _ _ _. refl) running
            less term peers (rw uncounted (omega (arith, votes))) uncounted
            (λ granted. (h.fair r running).cast_for j less (ap is_granted at ∙ granted))
            (nodes_put size name Wins cast c.node (λ k k_less. more k (c.node k) (h.nodes k k_less))
              owner result.1 (count_vote_inv P election n good resp led)),
      )

  pub finish-Safe : (r : ℕ) → r < c.races → Safe size name named (finish r c)
  unfolding finish set_node
  finish-Safe r running =
      let owner = (c.race r).owner in
      let election = (c.race r).election in
      let owned = (h.fair r running).owned in
      let n = c.node owner in
      let Wins = Won c.race c.races in
      let P = Good size name (Wins owner) (cast owner) owner in
      let good : P n = h.nodes owner owned in
      let led : is_candidate n.state ≡ true
          → has_majority election ≡ true
          → n.current_term ≡ election.term
          → P (become_leader n) =
        λ _ enough same.
          leads-Good size name (Wins owner) (cast owner) owner n good
            (r, running, refl, sym same, enough) in
      (
        cast,
        record {
          nodes = nodes_put size name Wins cast c.node h.nodes owner _ (
              finish_election_inv P election n good led
                (Keeps.armed (Good-Keeps size name (Wins owner) (cast owner) owner) n good));
          fair = h.fair;
        },
      )
