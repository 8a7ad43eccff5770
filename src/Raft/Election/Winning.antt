-- ===== src/Raft/Election/Winning.antt =====
-- An election from its start to its end, with the replies in the order in which they arrive.
use orris.Prelude.{
  ℕ, suc, ◌+◌, ◌*◌, ◌≡◌, ◌≤◌, ◌<◌, refl, ◌∙◌, true, false, List, [], ◌∷◌, arith, inl, inr,
  Bool-cases, not, ◌||◌, ◌==◌, nat_eq, if◌then◌else◌, length,
}
use orris.Transport.{RequestVoteResponse}
use orris.Raft.State.{Node, reset_election_timer}
use orris.Raft.Vote.{step_down}
use orris.Raft.Election.{
  Election, is_leader, is_candidate, new_election, begin_candidacy, check_reply, count_vote,
  has_majority, finish_election,
}

-- The goroutines of `startElection`, one after the other, and what follows them.
pub elect : Election → List RequestVoteResponse → Node → Node
elect e [] n = finish_election e n
elect e (resp ∷ rest) n =
    let (m, goes_on) = check_reply e resp n in
    let (counted, after) = count_vote resp e m in
    let next = elect counted rest after in
    let skipped = elect e rest m in if goes_on then next else skipped

-- The votes that the peers granted.
unfoldable pub granted : List RequestVoteResponse → ℕ
granted [] = 0
granted (resp ∷ rest) =
    let others = granted rest in if resp.vote_granted then suc others else others

abbrev pub Majority : ℕ → Election → Type 0
Majority more e = e.peers_count < 2 * (e.votes + more)

pub has_majority-Majority : (e : Election) → has_majority e ≡ true → Majority 0 e
unfolding has_majority
has_majority-Majority e h = ground arith

finish_election-Majority :
    (e : Election) (n : Node)
    → is_leader n.state ≡ false
    → is_leader (finish_election e n).state ≡ true
    → Majority 0 e
unfolding finish_election reset_election_timer
finish_election-Majority e n follows =
    elim (Bool-cases (not (is_candidate n.state) || not (n.current_term == e.term))) [
      | inl over ↦ rw over (λ leads. absurd (cc))
      | inr here ↦ elim (Bool-cases (has_majority e)) [
        | inl won ↦ λ _. has_majority-Majority e won
        | inr lost ↦ rw (here, lost) (λ leads. absurd (cc))
      ]
    ]

pub elect-nil : (e : Election) (n : Node) → elect e [] n ≡ finish_election e n
unfolding elect
elect-nil e n = refl

pub granted-nil : granted [] ≡ 0
unfolding granted
granted-nil = refl

module _ (resp : RequestVoteResponse) (rs : List RequestVoteResponse) where
  pub elect-skipped :
      (e : Election) (n : Node)
      → (check_reply e resp n).1 ≡ false
      → elect e (resp ∷ rs) n ≡ elect e rs (check_reply e resp n).0
  unfolding elect
  elect-skipped e n stops = rw (elect, stops) refl

  pub elect-counted :
      (e : Election) (n : Node)
      → (check_reply e resp n).1 ≡ true
      → elect e (resp ∷ rs) n
        ≡ elect
            (count_vote resp e (check_reply e resp n).0).0
            rs
            (count_vote resp e (check_reply e resp n).0).1
  unfolding elect
  elect-counted e n goes_on = rw (elect, goes_on) refl

  pub granted-suc : resp.vote_granted ≡ true → granted (resp ∷ rs) ≡ suc (granted rs)
  unfolding granted
  granted-suc voted = rw voted refl

  pub granted_same : resp.vote_granted ≡ false → granted (resp ∷ rs) ≡ granted rs
  unfolding granted
  granted_same unvoted = rw unvoted refl

  granted-le : granted rs ≤ granted (resp ∷ rs)
  unfolding granted
  granted-le = ground arith

check_reply-follows :
    (e : Election) (resp : RequestVoteResponse) (n : Node)
    → is_leader n.state ≡ false
    → is_leader (check_reply e resp n).0.state ≡ false
unfolding check_reply step_down
check_reply-follows e resp n follows = ground (arith, follows)

abbrev pub one_more : Election → Election
one_more e = record e { votes = e.votes + 1 }

module _ (resp : RequestVoteResponse) (e : Election) (n : Node) where
  pub count_vote-refused : resp.vote_granted ≡ false → count_vote resp e n ≡ (e, n)
  unfolding count_vote
  count_vote-refused unvoted = rw unvoted refl

  pub count_vote-short :
      resp.vote_granted ≡ true
      → has_majority (one_more e) ≡ false
      → count_vote resp e n ≡ (one_more e, n)
  unfolding count_vote
  count_vote-short voted short = rw (voted, short) refl

elect-Majority :
    (rs : List RequestVoteResponse) (e : Election) (n : Node)
    → is_leader n.state ≡ false
    → is_leader (elect e rs n).state ≡ true
    → Majority (granted rs) e
unfolding elect granted
elect-Majority [] e n follows leads = finish_election-Majority e n follows leads
elect-Majority (resp ∷ rs) e n follows leads =
    let m = (check_reply e resp n).0 in
    let m_follows = check_reply-follows e resp n follows in
    let more = granted-le resp rs in
    elim (Bool-cases (check_reply e resp n).1) [
      | inr stops ↦
          let won =
            elect-Majority rs e m m_follows (rw (← elect-skipped resp rs e n stops) leads) in
          omega (arith, won, more)
      | inl goes_on ↦ elim (Bool-cases resp.vote_granted) [
        | inr unvoted ↦
            let same : elect e (resp ∷ rs) n ≡ elect e rs m =
              elect-counted resp rs e n goes_on ∙ rw (count_vote-refused resp e m unvoted) refl in
            let won = elect-Majority rs e m m_follows (rw (← same) leads) in
            omega (arith, won, more)
        | inl voted ↦ elim (Bool-cases (has_majority (one_more e))) [
          | inl enough ↦
              omega (arith, has_majority-Majority (one_more e) enough, granted-suc resp rs voted)
          | inr short ↦
              let same : elect e (resp ∷ rs) n ≡ elect (one_more e) rs m =
                elect-counted resp rs e n goes_on
                ∙ rw (count_vote-short resp e m voted short) refl in
              let won = elect-Majority rs (one_more e) m m_follows (rw (← same) leads) in
              omega (arith, won, granted-suc resp rs voted)
        ]
      ]
    ]

-- A node that stands for election and has become the leader once all replies that arrive are in has the
-- votes of more than half of the cluster, its own among them, if no other event comes between.
pub wins_with_majority :
    (rs : List RequestVoteResponse) (n : Node)
    → is_leader (elect (new_election (begin_candidacy n)) rs (begin_candidacy n)).state ≡ true
    → length n.peers + 1 < 2 * (1 + granted rs)
unfolding begin_candidacy
wins_with_majority rs n leads =
    elect-Majority rs (new_election (begin_candidacy n)) (begin_candidacy n) refl leads
