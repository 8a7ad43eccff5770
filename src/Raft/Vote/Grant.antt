-- ===== src/Raft/Vote/Grant.antt =====
-- When a vote is granted, and what the reply says.
use text.Mathlib.TextEquality.{eq_iff}
use Prim.Native.Nat.{max}
use native.Mathlib.Decide.{dec_lt}
use orris.Prelude.{◌≡◌, refl, ◌↔◌, ◌⊎◌, inl, ◌<◌, true, false, arith, ◌≤ℤ◌, get_last?}
use orris.Transport.{RequestVoteRequest, RequestVoteResponse}
use orris.Raft.State.{Node, last_log_index, last_log_term}
use orris.Raft.Vote.{step_down, cast_vote, handle_request_vote}

-- The node has no vote of this term for somebody else. "" stands for no vote.
abbrev pub MayVote : Node → RequestVoteRequest → Type 0
MayVote n req =
    (n.current_term < req.term)
    ⊎ ((n.current_term ≡ req.term) × ((n.voted_for ≡ "") ⊎ (n.voted_for ≡ req.candidate_id)))

-- Raft's order of logs: the last terms decide, and the last indices where these are equal.
abbrev pub IsUpToDate : Node → RequestVoteRequest → Type 0
IsUpToDate n req =
    (last_log_term (get_last? n.log) < req.last_log_term)
    ⊎ ((req.last_log_term ≡ last_log_term (get_last? n.log))
        × (last_log_index (get_last? n.log) ≤ℤ req.last_log_index))

cast_vote_iff :
    (req : RequestVoteRequest) (n : Node)
    → ((cast_vote req n).1.vote_granted ≡ true)
      ↔ (((n.voted_for ≡ "") ⊎ (n.voted_for ≡ req.candidate_id)) × IsUpToDate n req)
unfolding cast_vote
cast_vote_iff req n = ground (arith, eq_iff n.voted_for "", eq_iff n.voted_for req.candidate_id)

module _ (req : RequestVoteRequest) (n : Node) where
  -- The three ways that the terms can compare.
  pub handle_stale :
      req.term < n.current_term
      → handle_request_vote req n ≡ (n, record { term = n.current_term; vote_granted = false })
  unfolding handle_request_vote
  handle_stale h = ground arith

  pub handle_newer :
      n.current_term < req.term → handle_request_vote req n ≡ cast_vote req (step_down req.term n)
  unfolding handle_request_vote
  handle_newer h = ground arith

  pub handle_same : n.current_term ≡ req.term → handle_request_vote req n ≡ cast_vote req n
  unfolding handle_request_vote
  handle_same h = ground arith

  -- A statement about the handler's result is one about each of these.
  pub request_vote_cases {ℓ} :
      (P : Node × RequestVoteResponse → Type ℓ)
      → (req.term < n.current_term → P (n, record { term = n.current_term; vote_granted = false }))
      → (n.current_term < req.term → P (cast_vote req (step_down req.term n)))
      → (n.current_term ≡ req.term → P (cast_vote req n))
      → P (handle_request_vote req n)
  request_vote_cases P stale newer same = elim (dec_lt req.term n.current_term) [
    | yes h ↦ rw (handle_stale h) (stale h)
    | no h ↦ elim (dec_lt n.current_term req.term) [
      | yes k ↦ rw (handle_newer k) (newer k)
      | no k ↦ let e : n.current_term ≡ req.term = omega arith in rw (handle_same e) (same e)
    ]
  ]

  cast_after_step_down :
      ((cast_vote req (step_down req.term n)).1.vote_granted ≡ true) ↔ IsUpToDate n req
  unfolding step_down
  cast_after_step_down =
      let votes = cast_vote_iff req (step_down req.term n) in
      (λ g. (votes.0 g).1, λ u. votes.1 (inl refl, u))

-- A vote is granted exactly if the request's term is not over, the node has not voted for another in
-- that term, and the candidate's log is at least as up to date as the node's.
pub grants_iff :
    (req : RequestVoteRequest) (n : Node)
    → ((handle_request_vote req n).1.vote_granted ≡ true) ↔ (MayVote n req × IsUpToDate n req)
unfolding handle_request_vote
grants_iff req n =
    request_vote_cases req n (λ r. (r.1.vote_granted ≡ true) ↔ (MayVote n req × IsUpToDate n req))
      (λ h. (λ g. cc, λ u. absurd (omega (arith, u.0))))
      (λ h.
        (λ g. (inl h, (cast_after_step_down req n).0 g), λ u. (cast_after_step_down req n).1 u.1))
      (λ h. ground (arith, cast_vote_iff req n))

cast_vote_term :
    (req : RequestVoteRequest) (n : Node)
    → ((cast_vote req n).1.term ≡ n.current_term)
      × ((cast_vote req n).0.current_term ≡ n.current_term)
unfolding cast_vote
cast_vote_term req n = ground arith

-- The reply carries the term that the node has afterwards: the larger of its own and the request's.
reply_term :
    (req : RequestVoteRequest) (n : Node)
    → ((handle_request_vote req n).1.term ≡ max n.current_term req.term)
      × ((handle_request_vote req n).0.current_term ≡ max n.current_term req.term)
unfolding step_down
reply_term req n =
    request_vote_cases req n
      (λ r.
        (r.1.term ≡ max n.current_term req.term) × (r.0.current_term ≡ max n.current_term req.term))
      (λ h. omega arith) (λ h. omega (arith, cast_vote_term req (step_down req.term n)))
      (λ h. omega (arith, cast_vote_term req n))
