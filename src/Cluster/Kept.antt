-- ===== src/Cluster/Kept.antt =====
-- The parts of a cluster that a step replaces, and what they must satisfy.
use native.Mathlib.Decide.{ℕ_discrete}
use orris.Prelude.{
  ap, refl, sym, ℕ, String, true, arith, ◌+◌, ◌<◌, ◌≤◌, ◌≡◌, ◌∙◌, inl, inr, Bool-cases, put,
  put_all, put_there, put_elsewhere, tally-put, bit,
}
use orris.Transport.{RequestVoteResponse}
use orris.Raft.State.{Node}
use orris.Raft.Election.{Election, has_majority, count_vote}
use orris.Cluster.{Stage, Race, Cluster, at_stage}
use orris.Cluster.Invariant.{Ballots, Won, Good, IsFair, is_counted, is_granted}

pub Won-put :
    (race : ℕ → Race) (races r : ℕ) (new : Race)
    → new.owner ≡ (race r).owner
    → new.election.term ≡ (race r).election.term
    → (has_majority (race r).election ≡ true → has_majority new.election ≡ true)
    → (i term : ℕ) → Won race races i term
    → Won (put race r new) races i term
Won-put race races r new owner term more i t (s, less, own, same, enough) = elim (ℕ_discrete s r) [
  | yes here ↦
      let there : put race r new s ≡ new = ap (put race r new) here ∙ put_there race r new in
      let at : race s ≡ race r = ap race here in
      let own' : new.owner ≡ i = owner ∙ ap (λ (q : Race). q.owner) (sym at) ∙ own in
      let same' : new.election.term ≡ t =
        term ∙ ap (λ (q : Race). q.election.term) (sym at) ∙ same in
      let enough' : has_majority new.election ≡ true =
        more (ap (λ (q : Race). has_majority q.election) (sym at) ∙ enough) in
      (s, less, rw there own', rw there same', rw there enough')
  | no other ↦
      let there = put_elsewhere race r new s other in
      (s, less, rw there own, rw there same, rw there enough)
]

module _ (size : ℕ) (name : ℕ → String) (Wins : ℕ → ℕ → Type 0) (cast : Ballots) (node : ℕ → Node)
    (old : (j : ℕ) → j < size → Good size name (Wins j) (cast j) j (node j)) (i : ℕ)
    (n : Node) where
  pub nodes_put :
      Good size name (Wins i) (cast i) i n
      → (j : ℕ) → j < size
      → Good size name (Wins j) (cast j) j (put node i n j)
  nodes_put new =
      put_all (λ j m. j < size → Good size name (Wins j) (cast j) j m) node i n (λ _. new)
        (λ j _. old j)

  pub nodes_put_col :
      (col : ℕ → String)
      → Good size name (Wins i) col i n
      → (j : ℕ) → j < size
      → Good size name (Wins j) (put cast i col j) j (put node i n j)
  nodes_put_col col new j less = elim (ℕ_discrete j i) [
    | yes same ↦ rw same (rw (put_there cast i col, put_there node i n) new)
    | no other ↦ rw (put_elsewhere cast i col j other, put_elsewhere node i n j other) (old j less)
  ]

module _ (size : ℕ) (name : ℕ → String) (cast : Ballots) where
  pub Good-more :
      (Wins Wins' : ℕ → Type 0) (col : ℕ → String) (i : ℕ) (n : Node)
      → ((term : ℕ) → Wins term → Wins' term)
      → Good size name Wins col i n
      → Good size name Wins' col i n
  Good-more Wins Wins' col i n more h = (h.0, λ leads. more n.current_term (h.1 leads))

  -- A stage that changes, with the votes.
  pub stage-IsFair :
      (race : Race) (j : ℕ) (s : Stage) (election : Election)
      → j < size
      → election.term ≡ race.election.term
      → election.peers_count ≡ race.election.peers_count
      → election.votes + bit (is_counted (race.stage j)) ≡ race.election.votes + bit (is_counted s)
      → (is_granted s ≡ true → cast j race.election.term ≡ name race.owner)
      → IsFair size name cast race
      → IsFair size name cast (at_stage j s (record race { election = election }))
  stage-IsFair race j s election less term peers votes new h = record {
    owned = h.owned;
    votes = omega (arith, votes, h.votes, tally-put is_counted race.stage j s size less);
    sized = peers ∙ h.sized;
    term = h.term ∙ sym term;
    candidate = h.candidate;
    cast_for = rw term (
        put_all
          (λ k s. k < size → is_granted s ≡ true → cast k race.election.term ≡ name race.owner)
          race.stage j s (λ _. new) (λ k _. h.cast_for k));
  }

  pub IsFair-put :
      (c : Cluster) (r : ℕ) (race : Race)
      → ((s : ℕ) → s < c.races → IsFair size name cast (c.race s))
      → IsFair size name cast race
      → (s : ℕ) → s < c.races
      → IsFair size name cast (put c.race r race s)
  IsFair-put c r race old new =
      put_all (λ s q. s < c.races → IsFair size name cast q) c.race r race (λ _. new) (λ s _. old s)

-- What counting one vote makes of the variables.
pub count_vote-election :
    (resp : RequestVoteResponse) (e : Election) (n : Node)
    → ((count_vote resp e n).0.term ≡ e.term)
      × ((count_vote resp e n).0.peers_count ≡ e.peers_count)
      × ((count_vote resp e n).0.votes ≡ e.votes + bit resp.vote_granted)
unfolding count_vote
count_vote-election resp e n = elim (Bool-cases resp.vote_granted) [
  | inl granted ↦ rw granted (refl, refl, refl)
  | inr refused ↦ rw refused (refl, refl, omega arith)
]

pub has_majority-more :
    (e e' : Election)
    → e'.peers_count ≡ e.peers_count
    → e.votes ≤ e'.votes
    → has_majority e ≡ true
    → has_majority e' ≡ true
unfolding has_majority
has_majority-more e e' same more enough = rw same (ground (arith, more, enough))
