-- ===== src/Cluster/Safety.antt =====
-- Leaders of a cluster.
use orris.Prelude.{
  ap, ℕ, String, true, false, arith, ◌+◌, ◌<◌, ◌≡◌, ◌≢◌, ◌∙◌, sym, subst, refl, length,
  tally_overlap,
}
use orris.Raft.Election.{count_vote, is_leader, has_majority}
use orris.Raft.Election.Winning.{has_majority-Majority}
use orris.Raft.Recovery.Restores.{IsRecoverable}
use orris.Cluster.{
  at_stage, counted, set_node, set_race, ask, check, count, finish, stand, Cluster, Step, happens,
  stands, asks, checks, counts, ends, Reach, stays, goes_on, Race,
}
use orris.Cluster.Invariant.{Won, Ballots, Inv, IsFair, is_counted, counted-granted}
use orris.Cluster.Moves.{Safe, happens-Safe, ask-Safe, check-Safe}
use orris.Cluster.Kept.{Won-put, has_majority-more, count_vote-election}
use orris.Cluster.Counts.{count-Safe, finish-Safe}
use orris.Cluster.Stands.{stand-Safe, Won-open}

-- A cluster before its first election: nodes of distinct names, each with all the others as peers, on
-- open logs from which a restart would restore them.
pub record IsStart (size : ℕ) (c : Cluster) : Type 0 where
  pub none_yet : c.races ≡ 0
  pub restores : (i : ℕ) → i < size → IsRecoverable (c.node i)
  pub peers : (i : ℕ) → i < size → length (c.node i).peers + 1 ≡ size
  pub follows : (i : ℕ) → i < size → is_leader (c.node i).state ≡ false
  pub named : (i : ℕ) → i < size → (c.node i).id ≢ ""
  pub distinct : (i j : ℕ) → i < size → j < size → (c.node i).id ≡ (c.node j).id → i ≡ j

module _ (size : ℕ) (name : ℕ → String) (named : (i : ℕ) → i < size → name i ≢ "") where
  pub Step-Safe : (c d : Cluster) → Step size c d → Safe size name named c → Safe size name named d
  Step-Safe c d (happens e i n less quiet ran) (cast, h) =
      happens-Safe size name named c cast h e i n less quiet ran
  Step-Safe c d (stands i n e req less starts) (cast, h) =
      stand-Safe size name named c cast h i n e req less starts
  Step-Safe c d (asks r j running less at) (cast, h) =
      ask-Safe size name named c cast h r j running less at
  Step-Safe c d (checks r j resp running less at) (cast, h) =
      check-Safe size name named c cast h r j resp running less at
  Step-Safe c d (counts r j resp running less at) (cast, h) =
      count-Safe size name named c cast h r j resp running less at
  Step-Safe c d (ends r running) (cast, h) = finish-Safe size name named c cast h r running

  Reach-Safe : (c d : Cluster) → Reach size c d → Safe size name named c → Safe size name named d
  Reach-Safe c d stays safe = safe
  Reach-Safe c e (goes_on {d} reached next) safe = Step-Safe d e next (Reach-Safe c d reached safe)

-- Two elections of a term that were both won have the same winner: some node voted in both.
same_winner :
    (size : ℕ) (name : ℕ → String) (cast : Ballots) (p q : Race)
    → IsFair size name cast p
    → IsFair size name cast q
    → p.election.term ≡ q.election.term
    → has_majority p.election ≡ true
    → has_majority q.election ≡ true
    → name p.owner ≡ name q.owner
same_winner size name cast p q fair_p fair_q same won_p won_q =
    let more_p = has_majority-Majority p.election won_p in
    let more_q = has_majority-Majority q.election won_q in
    let (k, less, yes_p, yes_q) =
      tally_overlap is_counted is_counted p.stage q.stage size
        (omega (arith, more_p, more_q, fair_p.votes, fair_q.votes, fair_p.sized, fair_q.sized)) in
    let first = fair_p.cast_for k less (counted-granted (p.stage k) yes_p) in
    let second = fair_q.cast_for k less (counted-granted (q.stage k) yes_q) in
    sym first ∙ ap (cast k) same ∙ second

-- So nodes of different names never win elections of one term.
pub winner_named :
    (size : ℕ) (name : ℕ → String) (cast : Ballots) (c : Cluster) (i j term : ℕ)
    → Inv size name cast c
    → Won c.race c.races i term
    → Won c.race c.races j term
    → name i ≡ name j
winner_named size name cast c i j term h (r, r_less, r_own, r_term, r_won)
      (s, s_less, s_own, s_term, s_won) =
    let p = c.race r in
    let q = c.race s in
    let winner : name p.owner ≡ name q.owner =
      same_winner size name cast p q (h.fair r r_less) (h.fair s s_less) (r_term ∙ sym s_term) r_won
        s_won in
    rw (sym r_own, sym s_own) winner

pub IsStart-Safe :
    (size : ℕ) (c : Cluster) (h : IsStart size c) → Safe size (λ i. (c.node i).id) h.named c
IsStart-Safe size c h = (
  λ _ _. "",
  record {
    nodes = λ i less. (
      (
        h.restores i less,
        ((λ x. absurd (x.1 refl)), record { named = refl; sized = omega (arith, h.peers i less) }),
      ),
      λ leads. absurd (cc (h.follows i less)),
    );
    fair = λ r less. absurd (omega (arith, h.none_yet));
  },
)

-- An election that was won stays so.
pub Won-Step :
    (size : ℕ) (c d : Cluster)
    → Step size c d
    → (i term : ℕ) → Won c.race c.races i term
    → Won d.race d.races i term
unfolding set_node set_race ask check count finish stand
Won-Step size c d (happens e i n less quiet ran) k term won = won
Won-Step size c d (stands i n e req less starts) k term won =
    Won-open size (λ _. "") (λ _ _. "") i e req c k term won
Won-Step size c d (asks r j running less at) k t won =
    Won-put c.race c.races r _ refl refl (λ enough. enough) k t won
Won-Step size c d (checks r j resp running less at) k t won =
    Won-put c.race c.races r _ refl refl (λ enough. enough) k t won
Won-Step size c d (counts r j resp running less at) k t won =
    let election = (c.race r).election in
    let (term, peers, votes) = count_vote-election resp election (c.node (c.race r).owner) in
    let next = (count_vote resp election (c.node (c.race r).owner)).0 in
    let race : Race =
      at_stage j (counted resp.vote_granted) (record (c.race r) { election = next }) in
    Won-put c.race c.races r race refl term
      (has_majority-more election next peers (omega (arith, votes))) k t won
Won-Step size c d (ends r running) k term won = won

Won-Reach :
    (size : ℕ) (c d : Cluster)
    → Reach size c d
    → (i term : ℕ) → Won c.race c.races i term
    → Won d.race d.races i term
Won-Reach size c d stays i term won = won
Won-Reach size c e (goes_on {d} reached next) i term won =
    Won-Step size d e next i term (Won-Reach size c d reached i term won)

-- At most one node of a cluster is ever the leader of a term: a node that leads in a term, and one that
-- leads in it then or later, are the same, whatever steps the cluster takes. Elections may overlap, messages may be
-- lost, late or repeated, and nodes may crash and restart between any two steps. At first the
-- nodes have distinct names that are not empty, each has all the others as peers, none leads, and each has
-- an open log from which a restart would restore it.
pub election_safety :
    (size : ℕ) (c d e : Cluster) (i j : ℕ)
    → IsStart size c
    → Reach size c d
    → Reach size d e
    → i < size
    → j < size
    → is_leader (d.node i).state ≡ true
    → is_leader (e.node j).state ≡ true
    → (d.node i).current_term ≡ (e.node j).current_term
    → i ≡ j
election_safety size c d e i j start before after i_less j_less i_leads j_leads same =
    let name = λ (k : ℕ). (c.node k).id in
    let first = Reach-Safe size name start.named c d before (IsStart-Safe size c start) in
    let (cast, h) = Reach-Safe size name start.named d e after first in
    let won = (first.1.nodes i i_less).1 i_leads in
    let first_won = Won-Reach size d e after i (d.node i).current_term won in
    let second_won = (h.nodes j j_less).1 j_leads in
    start.distinct i j i_less j_less (
      winner_named size name cast e i j (e.node j).current_term h
        (subst (Won e.race e.races i) same first_won) second_won)
