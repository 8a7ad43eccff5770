-- ===== src/Cluster.antt =====
pub mod Invariant
pub mod Kept
pub mod Advance
pub mod Moves
pub mod Counts
pub mod Stands
pub mod Safety
-- The nodes of a cluster, and the elections that run among them: the tasks of `startElection` in
-- internal/raft/election.go over one `HandleRequestVote` for each peer that is reached. A message
-- may be lost, or be handled after its caller gave up; nothing is assumed of what other messages hold.
use orris.Prelude.{ℕ, Bool, true, false, Option, some, ◌<◌, ◌≡◌, put, if◌then◌else◌, suc}
use orris.Transport.{RequestVoteRequest, RequestVoteResponse}
use orris.Raft.State.{Node}
use orris.Raft.Vote.{handle_request_vote}
use orris.Raft.Election.{Election, start_election, check_reply, count_vote, finish_election}
use orris.Raft.Steps.{Event, disarm, step}
use orris.Raft.Steps.Keeps.Runs.{IsQuiet}

-- How far the task for one peer is: it asks, has a reply, found it to be current, counted it, or ended.
pub data Stage : Type 0 where
  asking : Stage
  replied : RequestVoteResponse → Stage
  passed : RequestVoteResponse → Stage
  counted : Bool → Stage
  stopped : Stage

-- One call of `startElection`: the variables that its tasks share, what they ask, and the stage of each.
-- The candidate's own vote is counted from the start.
pub record Race : Type 0 where
  pub owner : ℕ
  pub election : Election
  pub request : RequestVoteRequest
  pub stage : ℕ → Stage

-- `races` is the number of elections so far.
pub record Cluster : Type 0 where
  pub node : ℕ → Node
  pub race : ℕ → Race
  pub races : ℕ

unfoldable pub open_race : ℕ → Election → RequestVoteRequest → Race
open_race owner election request = record {
  owner = owner;
  election = election;
  request = request;
  stage = put (λ _. asking) owner (counted true);
}

unfoldable pub set_node : ℕ → Node → Cluster → Cluster
set_node i n c = record c { node = put c.node i n }

unfoldable pub set_race : ℕ → Race → Cluster → Cluster
set_race r race c = record c { race = put c.race r race }

abbrev pub at_stage : ℕ → Stage → Race → Race
at_stage j stage race = record race { stage = put race.stage j stage }

-- Node `i`, which does not lead, times out: `n` is the candidate, and its tasks start.
unfoldable pub stand : ℕ → Node → Election → RequestVoteRequest → Cluster → Cluster
stand i n election request c = record c {
  node = put c.node i n;
  race = put c.race c.races (open_race i election request);
  races = suc c.races;
}

-- Node `j` handles the request of election `r`, and the reply arrives.
unfoldable pub ask : ℕ → ℕ → Cluster → Cluster
ask r j c =
    let race = c.race r in
    let (n, resp) = handle_request_vote race.request (c.node j) in
    set_race r (at_stage j (replied resp) race) (set_node j n c)

-- The task of election `r` for peer `j` looks at the reply.
unfoldable pub check : ℕ → ℕ → RequestVoteResponse → Cluster → Cluster
check r j resp c =
    let race = c.race r in
    let (n, goes_on) = check_reply race.election resp (c.node race.owner) in
    set_race r (at_stage j (if goes_on then passed resp else stopped) race)
      (set_node race.owner n c)

-- It counts the vote, and the node leads if that is the majority.
unfoldable pub count : ℕ → ℕ → RequestVoteResponse → Cluster → Cluster
count r j resp c =
    let race = c.race r in
    let (election, n) = count_vote resp race.election (c.node race.owner) in
    set_race r (at_stage j (counted resp.vote_granted) (record race { election = election }))
      (set_node race.owner n c)

-- Every task of election `r` is over.
unfoldable pub finish : ℕ → Cluster → Cluster
finish r c =
    let race = c.race r in set_node race.owner (finish_election race.election (c.node race.owner)) c

-- One step of a cluster of `size` nodes. What is no part of an election happens to one node: the requests of
-- clients and leaders, replication, the apply loop, crashes and restarts, and late or repeated messages.
pub data Step (size : ℕ) (c : Cluster) : Cluster → Type 0 where
  happens :
      (e : Event) (i : ℕ) (n : Node)
      → i < size
      → IsQuiet e
      → step e (c.node i) ≡ some n
      → Step size c (set_node i n c)
  stands :
      (i : ℕ) (n : Node) (election : Election) (request : RequestVoteRequest)
      → i < size
      → start_election (disarm (c.node i)) ≡ (n, some (election, request))
      → Step size c (stand i n election request c)
  asks : (r j : ℕ) → r < c.races → j < size → (c.race r).stage j ≡ asking → Step size c (ask r j c)
  checks :
      (r j : ℕ) (resp : RequestVoteResponse)
      → r < c.races
      → j < size
      → (c.race r).stage j ≡ replied resp
      → Step size c (check r j resp c)
  counts :
      (r j : ℕ) (resp : RequestVoteResponse)
      → r < c.races
      → j < size
      → (c.race r).stage j ≡ passed resp
      → Step size c (count r j resp c)
  ends : (r : ℕ) → r < c.races → Step size c (finish r c)

-- Any number of steps.
pub data Reach (size : ℕ) (c : Cluster) : Cluster → Type 0 where
  stays : Reach size c c
  goes_on : {d e : Cluster} → Reach size c d → Step size d e → Reach size c e
