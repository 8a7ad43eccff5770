-- ===== src/Cluster/Stands.antt =====
-- The step that opens an election: the candidate's own vote is the first of it.
use orris.Prelude.{
  ap, refl, sym, subst, ℕ, suc, String, true, false, Option, none, some, arith, ◌+◌, ◌<◌, ◌≡◌, ◌≢◌,
  ◌∙◌, inl, inr, Bool-cases, length, put, put_all, put_elsewhere, tally-put, tally_none,
}
use orris.Transport.{RequestVoteRequest}
use orris.Raft.State.{Node}
use orris.Raft.Election.{Election, is_leader, start_election, begin_candidacy, vote_request}
use orris.Raft.Steps.{disarm, timer_fired, step}
use orris.Raft.Steps.Votes.{stands-Follows}
use orris.Cluster.{Stage, asking, counted, Cluster, open_race, stand}
use orris.Cluster.Invariant.{
  Ballots, Extends, mark, mark-Extends, mark_there, Won, Casts, Casts-mark, Good, IsFair, Inv,
  is_counted, is_granted,
}
use orris.Cluster.Kept.{Good-more, nodes_put_col}
use orris.Cluster.Advance.{quiet-Good, all_IsFair-Extends}
use orris.Cluster.Moves.{Safe}

-- What an election that starts on `n` holds.
abbrev IsOpened : Node → Option (Election × RequestVoteRequest) → Type 0
IsOpened n none = Unit
IsOpened n (some (e, req)) =
    (is_leader n.state ≡ false)
    × (e.term ≡ n.current_term + 1)
    × (e.votes ≡ 1)
    × (e.peers_count ≡ length n.peers + 1)
    × (req.term ≡ e.term)
    × (req.candidate_id ≡ n.id)

start_election-IsOpened : (n : Node) → IsOpened n (start_election (disarm n)).1
unfolding start_election begin_candidacy vote_request
start_election-IsOpened n = elim (Bool-cases (is_leader n.state)) [
  | inl leads ↦ rw leads tt
  | inr other ↦ rw other (other, refl, refl, refl, refl, refl)
]

module _ (size : ℕ) (name : ℕ → String) (cast : Ballots) (i : ℕ) (election : Election)
    (request : RequestVoteRequest) where
  open_race-IsFair :
      i < size
      → election.votes ≡ 1
      → election.peers_count ≡ size
      → request.term ≡ election.term
      → request.candidate_id ≡ name i
      → IsFair size name (mark cast i election.term (name i)) (open_race i election request)
  unfolding open_race
  open_race-IsFair less votes peers term candidate =
      let own : Stage = counted true in
      let first = tally-put is_counted (λ _. asking) i own size less in
      record {
        owned = less;
        votes = omega (arith, first, tally_none is_counted (λ _. asking) (λ _. refl) size);
        sized = peers;
        term = term;
        candidate = candidate;
        cast_for =
            put_all
              (λ k s.
                k < size
                → is_granted s ≡ true
                → mark cast i election.term (name i) k election.term ≡ name i)
              (λ _. asking) i own (λ _ _. mark_there cast i election.term (name i))
              (λ k _ _ granted. absurd (cc));
      }

  pub Won-open :
      (c : Cluster) (k term : ℕ)
      → Won c.race c.races k term
      → Won (put c.race c.races (open_race i election request)) (suc c.races) k term
  Won-open c k term (r, less, own, same, enough) =
      let there =
        put_elsewhere c.race c.races (open_race i election request) r (λ e. absurd (omega arith)) in
      (r, omega arith, rw there own, rw there same, rw there enough)

module _ (size : ℕ) (name : ℕ → String) (named : (i : ℕ) → i < size → name i ≢ "") (c : Cluster)
    (cast : Ballots) (h : Inv size name cast c) where
  pub stand-Safe :
      (i : ℕ) (n : Node) (election : Election) (request : RequestVoteRequest)
      → i < size
      → start_election (disarm (c.node i)) ≡ (n, some (election, request))
      → Safe size name named (stand i n election request c)
  unfolding stand step
  stand-Safe i n election request less starts =
      let m = c.node i in
      let same : (start_election (disarm m)).0 ≡ n =
        ap (λ (r : Node × Option (Election × RequestVoteRequest)). r.0) starts in
      let opened : IsOpened m (some (election, request)) =
        subst (IsOpened m) (ap (λ (r : Node × Option (Election × RequestVoteRequest)). r.1) starts)
          (start_election-IsOpened m) in
      let (other, term, votes, peers, req_term, candidate) = opened in
      let (_, (casts, member)) = (h.nodes i less).0 in
      let good = quiet-Good size name named c cast h timer_fired i n less tt (ap some same) in
      let cast' = mark cast i election.term (name i) in
      let more : Extends cast cast' =
        mark-Extends cast i election.term (name i)
          λ given. absurd (omega (arith, (casts (election.term, given)).1.later)) in
      let new = open_race i election request in
      let Wins = Won (put c.race c.races new) (suc c.races) in
      let wins : (k : ℕ) (l : Node)
          → Good size name (Won c.race c.races k) (cast k) k l
          → Good size name (Wins k) (cast k) k l =
        λ k l.
          Good-more size name cast (Won c.race c.races k) (Wins k) (cast k) k l
            (Won-open size name cast i election request c k) in
      let (back, (held, member')) = good.0 in
      let follows = stands-Follows m other in
      let col = put (cast i) election.term (name i) in
      let marked : Casts col n =
        Casts-mark (cast i) election.term (name i) n held
          (back, rw (term, sym member.named, sym same) follows) in
      (
        cast',
        record {
          nodes =
              nodes_put_col size name Wins cast c.node
                (λ k k_less. wins k (c.node k) (h.nodes k k_less)) i n col
                ((back, (marked, member')), (wins i n good).1);
          fair =
              put_all (λ r q. r < suc c.races → IsFair size name cast' q) c.race c.races new
                (λ _.
                  open_race-IsFair size name cast i election request less votes
                    (omega (arith, peers, member.sized)) req_term (candidate ∙ member.named))
                (λ r older running.
                  all_IsFair-Extends size name named c cast h cast' more r (omega (arith, older)));
        },
      )
