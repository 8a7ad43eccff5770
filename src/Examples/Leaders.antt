-- ===== src/Examples/Leaders.antt =====
-- A cluster of three: "a" stands for election, "b" votes for it, and "a" crashes when it leads.
use orris.Prelude.{
  minus_one, ℕ, zero, suc, String, false, true, refl, some, ◌+◌, ◌<◌, ◌≡◌, ◌≢◌, ◌==◌, string_eq,
  arith, put, length,
}
use text.Mathlib.TextEquality.{eq_iff}
use orris.Transport.{RequestVoteResponse}
use orris.Raft.State.{Node, reset_election_timer}
use orris.Raft.Vote.{handle_request_vote, cast_vote, can_vote, log_up_to_date, step_down}
use orris.Raft.Election.{
  start_election, begin_candidacy, new_election, vote_request, check_reply, count_vote,
  has_majority, become_leader, start_peers, is_leader,
}
use orris.Raft.Recovery.Restores.{IsRecoverable}
use orris.Raft.Steps.{disarm, step, timer_fired}
use orris.Cluster.{
  stopped, Cluster, Race, open_race, stand, ask, check, count, set_node, set_race, Reach, stays,
  goes_on, stands, asks, checks, counts, happens,
}
use orris.Cluster.Safety.{IsStart, election_safety}
use orris.Examples.Nodes.{started, started-IsRecoverable}

abbrev member : ℕ → Node
member i = put (put (λ _. record started { id = "c" }) 1 (record started { id = "b" })) 0 started i

abbrev pub idle_race : Race
idle_race = record {
  owner = 0;
  election = record { term = 0; votes = 0; peers_count = 0 };
  request = record { term = 0; candidate_id = ""; last_log_index = minus_one; last_log_term = 0 };
  stage = λ _. stopped;
}

abbrev pub trio : Cluster
trio = record { node = member; race = λ _. idle_race; races = 0 }

abbrev pub candidate_a : Node
candidate_a = begin_candidacy (disarm started)

abbrev pub voting : Cluster
voting = stand 0 candidate_a (new_election candidate_a) (vote_request candidate_a) trio

abbrev pub answer : RequestVoteResponse
answer = record { term = 1; vote_granted = true }

abbrev pub led : Cluster
led = count 0 1 answer (check 0 1 answer (ask 0 1 voting))

pub starts_a :
    start_election (disarm (trio.node 0))
    ≡ (candidate_a, some (new_election candidate_a, vote_request candidate_a))
unfolding start_election
starts_a = refl

pub led-reached : Reach 3 trio led
unfolding stand ask check count set_node set_race open_race begin_candidacy handle_request_vote
    check_reply cast_vote can_vote log_up_to_date step_down vote_request
led-reached =
    goes_on
      (goes_on
        (goes_on
          (goes_on stays (
            stands 0 candidate_a (new_election candidate_a) (vote_request candidate_a) (omega arith)
              starts_a))
          (asks 0 1 (omega arith) (omega arith) refl))
        (checks 0 1 answer (omega arith) (omega arith) refl))
      (counts 0 1 answer (omega arith) (omega arith) refl)

-- Its timer fires while it leads, which changes nothing.
abbrev still_led : Cluster
still_led = set_node 0 (start_election (disarm (led.node 0))).0 led

still_led-reached : Reach 3 led still_led
unfolding step
still_led-reached = goes_on stays (happens timer_fired 0 _ (omega arith) tt refl)

a_leads : is_leader (led.node 0).state ≡ true
unfolding stand ask check count set_node set_race open_race begin_candidacy handle_request_vote
    check_reply cast_vote can_vote log_up_to_date step_down vote_request count_vote has_majority
    become_leader start_peers reset_election_timer
a_leads = refl

a_still_leads : is_leader (still_led.node 0).state ≡ true
unfolding start_election stand ask check count set_node set_race open_race begin_candidacy
    handle_request_vote check_reply cast_vote can_vote log_up_to_date step_down vote_request
    count_vote has_majority become_leader start_peers reset_election_timer
a_still_leads = refl

same_term : (led.node 0).current_term ≡ (still_led.node 0).current_term
unfolding start_election stand ask check count set_node set_race open_race begin_candidacy
    handle_request_vote check_reply cast_vote can_vote log_up_to_date step_down vote_request
    count_vote has_majority become_leader start_peers reset_election_timer
same_term = refl

pub below_three : (P : ℕ → Type 0) → P 0 → P 1 → P 2 → (i : ℕ) → i < 3 → P i
below_three P p q r zero h = p
below_three P p q r (suc zero) h = q
below_three P p q r (suc (suc zero)) h = r
below_three P p q r (suc (suc (suc i))) h = absurd (omega arith)

other : (j k : String) → (j == k) ≡ false → j ≢ k
other j k differ e = absurd (ground (arith, eq_iff j k))

abbrev SameName : ℕ → ℕ → Type 0
SameName i j = (member i).id ≡ (member j).id → i ≡ j

names_differ : (i : ℕ) → i < 3 → (j : ℕ) → j < 3 → SameName i j
names_differ =
    below_three (λ i. (j : ℕ) → j < 3 → SameName i j)
      (below_three (SameName 0) (λ e. refl) (λ e. absurd (other "a" "b" refl e))
        (λ e. absurd (other "a" "c" refl e)))
      (below_three (SameName 1) (λ e. absurd (other "b" "a" refl e)) (λ e. refl)
        (λ e. absurd (other "b" "c" refl e)))
      (below_three (SameName 2) (λ e. absurd (other "c" "a" refl e))
        (λ e. absurd (other "c" "b" refl e)) (λ e. refl))

pub trio-IsStart : IsStart 3 trio
trio-IsStart = record {
  none_yet = refl;
  restores =
      below_three (λ i. IsRecoverable (member i)) started-IsRecoverable started-IsRecoverable
        started-IsRecoverable;
  peers = below_three (λ i. length (member i).peers + 1 ≡ 3) refl refl refl;
  follows = below_three (λ i. is_leader (member i).state ≡ false) refl refl refl;
  named =
      below_three (λ i. (member i).id ≢ "") (other "a" "" refl) (other "b" "" refl)
        (other "c" "" refl);
  distinct = λ i j i_less j_less. names_differ i i_less j j_less;
}

election_safety_example : ◌≡◌ {A = ℕ} 0 0
election_safety_example =
    election_safety 3 trio led still_led 0 0 trio-IsStart led-reached still_led-reached
      (omega arith) (omega arith) a_leads a_still_leads same_term
