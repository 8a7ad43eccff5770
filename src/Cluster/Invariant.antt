-- ===== src/Cluster/Invariant.antt =====
-- What makes elections safe, as an invariant of a cluster. It is about the votes that were cast so far.
use orris.Prelude.{
  refl, ℕ, String, Bool, true, false, ◌<◌, ◌-◌, ◌≡◌, ◌≢◌, ◌∙◌, put, put_all, put_there, tally,
}
use orris.Raft.State.{Node}
use orris.Raft.Election.{has_majority}
use orris.Raft.Recovery.Restores.{IsRecoverable}
use orris.Raft.Steps.Keeps.{Keeps}
use orris.Raft.Steps.Recoverable.{IsRecoverable-Keeps}
use orris.Raft.Steps.Combine.{Keeps-both, Keeps-each}
use orris.Raft.Steps.Member.{IsMember, IsMember-Keeps}
use orris.Raft.Steps.Leads.{Leads, Leads-Keeps}
use orris.Raft.Steps.Follows.{Held, Held-Keeps}
use orris.Cluster.{Stage, asking, replied, passed, counted, stopped, Race, Cluster}

-- A vote that was granted, and one that the candidate has counted too.
abbrev pub is_granted : Stage → Bool
is_granted (replied resp) = resp.vote_granted
is_granted (passed resp) = resp.vote_granted
is_granted (counted granted) = granted
is_granted _ = false

abbrev pub is_counted : Stage → Bool
is_counted (counted granted) = granted
is_counted _ = false

pub counted-granted : (s : Stage) → is_counted s ≡ true → is_granted s ≡ true
counted-granted asking h = h
counted-granted (replied resp) h = absurd (cc)
counted-granted (passed resp) h = absurd (cc)
counted-granted (counted granted) h = h
counted-granted stopped h = h

-- Which name each node gave its vote to in each term, "" for nobody.
abbrev pub Ballots : Type 0
Ballots = ℕ → ℕ → String

abbrev pub mark : Ballots → ℕ → ℕ → String → Ballots
mark cast i term name = put cast i (put (cast i) term name)

-- No vote changes.
abbrev pub Extends : Ballots → Ballots → Type 0
Extends cast cast' = (i term : ℕ) → cast i term ≢ "" → cast' i term ≡ cast i term

pub mark-Extends :
    (cast : Ballots) (i term : ℕ) (name : String)
    → (cast i term ≢ "" → name ≡ cast i term)
    → Extends cast (mark cast i term name)
mark-Extends cast i term name same =
    put_all (λ j col. (t : ℕ) → cast j t ≢ "" → col t ≡ cast j t) cast i _
      (put_all (λ t v. cast i t ≢ "" → v ≡ cast i t) (cast i) term name same (λ t _ _. refl))
      (λ j _ t _. refl)

pub mark_there : (cast : Ballots) (i term : ℕ) (name : String) → mark cast i term name i term ≡ name
mark_there cast i term name =
    rw (put_there cast i (put (cast i) term name)) (put_there (cast i) term name)

-- Node `i` got a majority in an election of the term.
abbrev pub Won : (ℕ → Race) → ℕ → ℕ → ℕ → Type 0
Won race races i term =
    (r : ℕ) × (r < races)
    × ((race r).owner ≡ i)
    × ((race r).election.term ≡ term)
    × (has_majority (race r).election ≡ true)

-- The node holds the votes that it gave.
abbrev pub Casts : (ℕ → String) → Node → Type 0
Casts col n = (x : (term : ℕ) × (col term ≢ "")) → Held x.0 (col x.0) n

pub Casts-mark :
    (col : ℕ → String) (term : ℕ) (name : String) (n : Node)
    → Casts col n
    → Held term name n
    → Casts (put col term name) n
Casts-mark col term name n old new x =
    put_all (λ t v. v ≢ "" → Held t v n) col term name (λ _. new) (λ t _ cast. old (t, cast)) x.0
      x.1

module _ (size : ℕ) (name : ℕ → String) where
  -- The votes of an election were cast, and are counted right.
  pub record IsFair (cast : Ballots) (race : Race) : Type 0 where
    pub owned : race.owner < size
    pub votes : race.election.votes ≡ tally is_counted race.stage size
    pub sized : race.election.peers_count ≡ size
    pub term : race.request.term ≡ race.election.term
    pub candidate : race.request.candidate_id ≡ name race.owner
    pub cast_for :
        (j : ℕ)
        → j < size
        → is_granted (race.stage j) ≡ true
        → cast j race.election.term ≡ name race.owner

  pub IsFair-Extends :
      (cast cast' : Ballots) (race : Race)
      → Extends cast cast'
      → name race.owner ≢ ""
      → IsFair cast race
      → IsFair cast' race
  IsFair-Extends cast cast' race more named h = record {
    owned = h.owned;
    votes = h.votes;
    sized = h.sized;
    term = h.term;
    candidate = h.candidate;
    cast_for = λ j less granted.
        let before = h.cast_for j less granted in
        more j race.election.term (λ none. named (cc)) ∙ before;
  }

  -- What is kept of node `i`, whose votes are `col`.
  abbrev pub Member : (ℕ → String) → ℕ → Node → Type 0
  Member col i n = IsRecoverable n × (Casts col n × IsMember (name i) (size - 1) n)

  abbrev pub Good : (ℕ → Type 0) → (ℕ → String) → ℕ → Node → Type 0
  Good Wins col i n = Member col i n × Leads Wins n

  pub Good-Keeps : (Wins : ℕ → Type 0) (col : ℕ → String) (i : ℕ) → Keeps (Good Wins col i)
  Good-Keeps Wins col i =
      let member = IsMember (name i) (size - 1) in
      let Index = (term : ℕ) × (col term ≢ "") in
      let casts : Keeps (Casts col) =
        Keeps-each Index (λ x. Held x.0 (col x.0)) (λ x. Held-Keeps x.0 (col x.0)) in
      Keeps-both (Member col i) (Leads Wins)
        (Keeps-both IsRecoverable (λ n. Casts col n × member n) IsRecoverable-Keeps
          (Keeps-both (Casts col) member casts (IsMember-Keeps (name i) (size - 1))))
        (Leads-Keeps Wins)

  pub record Inv (cast : Ballots) (c : Cluster) : Type 0 where
    pub nodes : (i : ℕ) → i < size → Good (Won c.race c.races i) (cast i) i (c.node i)
    pub fair : (r : ℕ) → r < c.races → IsFair cast (c.race r)
