-- ===== src/Cluster/Advance.antt =====
-- What one step of an election leaves of the invariant, whichever step it is.
use orris.Prelude.{refl, ℕ, String, true, false, ◌+◌, ◌<◌, ◌≤◌, ◌≡◌, ◌≢◌, some, put, bit}
use orris.Raft.State.{Node}
use orris.Raft.Election.{Election}
use orris.Raft.Append.Invariant.{Ensures-some}
use orris.Raft.Steps.{Event, step}
use orris.Raft.Steps.Keeps.Runs.{IsQuiet, quiet_inv}
use orris.Cluster.{Stage, Race, Cluster, at_stage, set_node, set_race}
use orris.Cluster.Invariant.{
  Ballots, Extends, Won, Good, Good-Keeps, IsFair, IsFair-Extends, Inv, is_counted, is_granted,
}
use orris.Cluster.Kept.{Won-put, Good-more, stage-IsFair, IsFair-put, has_majority-more}

module _ (size : ℕ) (name : ℕ → String) (named : (i : ℕ) → i < size → name i ≢ "") where
  module _ (c : Cluster) (cast : Ballots) (h : Inv size name cast c) where
    pub quiet-Good :
        (e : Event) (i : ℕ) (n : Node)
        → i < size
        → IsQuiet e
        → step e (c.node i) ≡ some n
        → Good size name (Won c.race c.races i) (cast i) i n
    quiet-Good e i n less quiet ran =
        let P = Good size name (Won c.race c.races i) (cast i) i in
        Ensures-some P (step e (c.node i)) n ran (
          quiet_inv P (Good-Keeps size name (Won c.race c.races i) (cast i) i) e (c.node i) quiet
            (h.nodes i less))

    pub all_IsFair-Extends :
        (cast' : Ballots)
        → Extends cast cast'
        → (r : ℕ) → r < c.races
        → IsFair size name cast' (c.race r)
    all_IsFair-Extends cast' more r less =
        IsFair-Extends size name cast cast' (c.race r) more (named _ (h.fair r less).owned)
          (h.fair r less)

    -- Election `r` with other votes and one other stage, and what was won then.
    abbrev pub After : ℕ → ℕ → Stage → Election → Race
    After r j s election = at_stage j s (record (c.race r) { election = election })

    abbrev pub WonAfter : ℕ → ℕ → Stage → Election → ℕ → ℕ → Type 0
    WonAfter r j s election = Won (put c.race r (After r j s election)) c.races

    -- An election in which a stage changes, and the votes at most grow.
    pub Won-stage :
        (r j : ℕ) (s : Stage) (election : Election)
        → election.term ≡ (c.race r).election.term
        → election.peers_count ≡ (c.race r).election.peers_count
        → (c.race r).election.votes ≤ election.votes
        → (i term : ℕ) → Won c.race c.races i term
        → WonAfter r j s election i term
    Won-stage r j s election term peers more =
        Won-put c.race c.races r _ refl term
          (has_majority-more (c.race r).election election peers more)

    -- Node `i` is replaced and a stage of election `r` changes: both keep what they must.
    pub both-Inv :
        (cast' : Ballots) (r j : ℕ) (s : Stage) (election : Election) (i : ℕ) (n : Node)
        → Extends cast cast'
        → r < c.races
        → j < size
        → election.term ≡ (c.race r).election.term
        → election.peers_count ≡ (c.race r).election.peers_count
        → election.votes + bit (is_counted ((c.race r).stage j))
          ≡ (c.race r).election.votes + bit (is_counted s)
        → is_counted ((c.race r).stage j) ≡ false
        → (is_granted s ≡ true → cast' j (c.race r).election.term ≡ name (c.race r).owner)
        → ((k : ℕ)
            → k < size
            → Good size name (WonAfter r j s election k) (cast' k) k (put c.node i n k))
        → Inv size name cast' (set_race r (After r j s election) (set_node i n c))
    unfolding set_node set_race
    both-Inv cast' r j s election i n more running less term peers votes fresh granted nodes =
        let new = After r j s election in
        let fair = all_IsFair-Extends cast' more in
        record {
          nodes = nodes;
          fair = IsFair-put size name cast' c r new fair (
              stage-IsFair size name cast' (c.race r) j s election less term peers votes granted
                (fair r running));
        }

    -- What was good stays good where an election goes on.
    pub nodes_more :
        (r j : ℕ) (s : Stage) (election : Election)
        → election.term ≡ (c.race r).election.term
        → election.peers_count ≡ (c.race r).election.peers_count
        → (c.race r).election.votes ≤ election.votes
        → (i : ℕ) (n : Node) → Good size name (Won c.race c.races i) (cast i) i n
        → Good size name (WonAfter r j s election i) (cast i) i n
    nodes_more r j s election term peers more i n =
        Good-more size name cast (Won c.race c.races i) _ (cast i) i n
          (Won-stage r j s election term peers more i)
