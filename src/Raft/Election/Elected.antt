-- ===== src/Raft/Election/Elected.antt =====
-- An election whose votes suffice.
use orris.Prelude.{
  ℕ, ◌+◌, ◌*◌, ◌≡◌, ◌≤◌, ◌<◌, refl, ◌∙◌, Bool, true, false, List, [], ◌∷◌, arith, inl, inr,
  Bool-cases, nat_eq, pos, length, ap,
}
use orris.Transport.{RequestVoteResponse}
use orris.Raft.Steps.Recoverable.{start_peers_same}
use orris.Raft.State.{NodeState, leader, candidate, follower, Node, reset_election_timer}
use orris.Raft.Election.{
  Election, is_leader, is_candidate, new_election, begin_candidacy, check_reply, count_vote,
  has_majority, finish_election, become_leader,
}
use orris.Raft.Election.Winning.{
  elect-nil, granted-nil, elect, granted, Majority, one_more, elect-skipped, elect-counted,
  granted-suc, granted_same, count_vote-refused, count_vote-short,
}

become_leader-leads : (n : Node) → is_leader (become_leader n).state ≡ true
unfolding become_leader reset_election_timer
become_leader-leads n = elim (Bool-cases (is_leader n.state)) [
  | inl leads ↦ rw leads leads
  | inr other ↦
      let (_, _, state) =
        start_peers_same n.peers (pos (length n.log)) (record n { state = leader }) in
      rw (other, state) refl
]

leader-no_candidate : (s : NodeState) → is_leader s ≡ true → is_candidate s ≡ false
leader-no_candidate leader h = refl
leader-no_candidate candidate h = absurd (cc)
leader-no_candidate follower h = refl

check_reply-late :
    (e : Election) (resp : RequestVoteResponse) (n : Node)
    → is_leader n.state ≡ true
    → check_reply e resp n ≡ (n, false)
unfolding check_reply
check_reply-late e resp n leads =
    let late = leader-no_candidate n.state leads in ground (arith, late)

elect-stays :
    (rs : List RequestVoteResponse) (e : Election) (n : Node)
    → is_leader n.state ≡ true
    → elect e rs n ≡ n
unfolding finish_election
elect-stays [] e n leads =
    let late = leader-no_candidate n.state leads in
    let ends : finish_election e n ≡ n = ground (arith, late) in elect-nil e n ∙ ends
elect-stays (resp ∷ rs) e n leads =
    let late = check_reply-late e resp n leads in
    elect-skipped resp rs e n (ap (λ (r : Node × Bool). r.1) late)
    ∙ rw late (elect-stays rs e n leads)

-- Replies of no later term.
abbrev pub AllUpTo : ℕ → List RequestVoteResponse → Type 0
AllUpTo term [] = Unit
AllUpTo term (resp ∷ rs) = (resp.term ≤ term) × AllUpTo term rs

check_reply-passes :
    (e : Election) (resp : RequestVoteResponse) (n : Node)
    → is_candidate n.state ≡ true
    → n.current_term ≡ e.term
    → resp.term ≤ e.term
    → check_reply e resp n ≡ (n, true)
unfolding check_reply
check_reply-passes e resp n stands same old = ground (arith, stands)

count_vote-wins :
    (resp : RequestVoteResponse) (e : Election) (n : Node)
    → is_candidate n.state ≡ true
    → n.current_term ≡ e.term
    → resp.vote_granted ≡ true
    → has_majority (one_more e) ≡ true
    → count_vote resp e n ≡ (one_more e, become_leader n)
unfolding count_vote
count_vote-wins resp e n stands same voted enough =
    rw (voted, enough, stands) (ground (arith, same))

Majority-has_majority : (e : Election) → Majority 0 e → has_majority e ≡ true
unfolding has_majority
Majority-has_majority e h = ground arith

elect-wins :
    (rs : List RequestVoteResponse) (e : Election) (n : Node)
    → is_candidate n.state ≡ true
    → n.current_term ≡ e.term
    → AllUpTo e.term rs
    → Majority (granted rs) e
    → is_leader (elect e rs n).state ≡ true
unfolding finish_election
elect-wins [] e n stands same old enough =
    let won = Majority-has_majority e (omega (arith, enough, granted-nil)) in
    let ends : finish_election e n ≡ become_leader n = ground (arith, stands, won) in
    ap (λ (m : Node). is_leader m.state) (elect-nil e n ∙ ends) ∙ become_leader-leads n
elect-wins (resp ∷ rs) e n stands same old enough =
    let passes = check_reply-passes e resp n stands same old.0 in
    let counted : elect e (resp ∷ rs) n ≡ elect (count_vote resp e n).0 rs (count_vote resp e n).1 =
      elect-counted resp rs e n (ap (λ (r : Node × Bool). r.1) passes) ∙ rw passes refl in
    let leads : Node → Bool = λ m. is_leader m.state in
    elim (Bool-cases resp.vote_granted) [
      | inr unvoted ↦
          let goes_on : elect e (resp ∷ rs) n ≡ elect e rs n =
            counted ∙ rw (count_vote-refused resp e n unvoted) refl in
          ap leads goes_on
          ∙ elect-wins rs e n stands same old.1
              (omega (arith, enough, granted_same resp rs unvoted))
      | inl voted ↦ elim (Bool-cases (has_majority (one_more e))) [
        | inl won ↦
            let wins : elect e (resp ∷ rs) n ≡ elect (one_more e) rs (become_leader n) =
              counted ∙ rw (count_vote-wins resp e n stands same voted won) refl in
            let stays = elect-stays rs (one_more e) (become_leader n) (become_leader-leads n) in
            ap leads (wins ∙ stays) ∙ become_leader-leads n
        | inr short ↦
            let goes_on : elect e (resp ∷ rs) n ≡ elect (one_more e) rs n =
              counted ∙ rw (count_vote-short resp e n voted short) refl in
            ap leads goes_on
            ∙ elect-wins rs (one_more e) n stands same old.1
                (omega (arith, enough, granted-suc resp rs voted))
      ]
    ]

-- A node that stands for election becomes the leader if the votes that its peers grant make, with its own,
-- more than half of the cluster, no reply has a later term, and no other event comes between.
pub majority_wins :
    (rs : List RequestVoteResponse) (n : Node)
    → AllUpTo (n.current_term + 1) rs
    → length n.peers + 1 < 2 * (1 + granted rs)
    → is_leader (elect (new_election (begin_candidacy n)) rs (begin_candidacy n)).state ≡ true
unfolding begin_candidacy
majority_wins rs n old enough =
    elect-wins rs (new_election (begin_candidacy n)) (begin_candidacy n) refl refl old enough
