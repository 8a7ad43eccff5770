-- ===== src/Network/Bids.antt =====
-- What an election promises: a voter who holds a chosen text voted for a log that begins with it.
use native.Mathlib.Decide.{ℕ_discrete}
use orris.Prelude.{
  ℕ, Bool, true, Option, none, some, ◌+◌, ◌≡◌, ◌≤◌, ◌<◌, inl, inr, refl, sym, ◌∙◌, subst, List,
  arith, length, get_last?, put, put_all, put_there, put_elsewhere, Prefix, Prefix-refl,
  Prefix-trans, Bool-cases,
}
use orris.Storage.{LogEntry}
use orris.Transport.{RequestVoteRequest}
use orris.Raft.State.{Node, last_log_index, last_log_term}
use orris.Raft.Vote.{handle_request_vote}
use orris.Raft.Vote.Grant.{grants_iff}
use orris.Raft.Election.{Election, is_leader, start_election, begin_candidacy, vote_request}
use orris.Raft.Steps.{disarm}
use orris.Raft.Steps.Contending.{Contends}
use orris.Cluster.{Stage, asking, counted, Race, at_stage, open_race}
use orris.Cluster.Invariant.{is_granted}
use orris.Network.Ledger.{Ledger, IsLogged, Extends, IsLogged-Extends}
use orris.Network.Order.{IsOrdered}
use orris.Network.UpToDate.{Ends, up_to_date-Prefix}
use orris.Network.Moved.{Moved}

-- What an election that starts on `n` asks with.
abbrev Opens : Node → Node × Option (Election × RequestVoteRequest) → Type 0
Opens n (m, none) = Unit
Opens n (m, some (e, req)) =
    (m.log ≡ n.log)
    × (m.current_term ≡ e.term)
    × (e.term ≡ n.current_term + 1)
    × (req.last_log_index ≡ last_log_index (get_last? n.log))
    × (req.last_log_term ≡ last_log_term (get_last? n.log))

start_election-Opens : (n : Node) → Opens n (start_election (disarm n))
unfolding start_election begin_candidacy vote_request
start_election-Opens n = elim (Bool-cases (is_leader n.state)) [
  | inl leads ↦ rw leads tt
  | inr other ↦ rw other (refl, refl, refl, refl, refl)
]

module _ (size : ℕ) (L : List LogEntry) (t : ℕ) (test : ℕ → Bool) where
  -- `log`: what the candidate stands with.
  pub record Bid (g : Ledger) (node : ℕ → Node) (race : Race) : Type 0 where
    pub log : List LogEntry
    pub opened : race.election.term ≤ (node race.owner).current_term
    pub standing :
        Contends (node race.owner).state
        → (node race.owner).current_term ≡ race.election.term
        → Prefix log (node race.owner).log
    pub index : race.request.last_log_index ≡ last_log_index (get_last? log)
    pub term : race.request.last_log_term ≡ last_log_term (get_last? log)
    pub logged : IsLogged g log
    pub before : ℕ
    pub younger : before < race.election.term
    pub ordered : IsOrdered before log
    pub kept :
        (j : ℕ)
        → j < size
        → test j ≡ true
        → is_granted (race.stage j) ≡ true
        → t < race.election.term
        → Prefix L log

  pub Bid-Extends :
      (g g' : Ledger) (node : ℕ → Node) (race : Race)
      → Extends g g'
      → Bid g node race
      → Bid g' node race
  Bid-Extends g g' node race more h = record {
    log = h.log;
    opened = h.opened;
    standing = h.standing;
    index = h.index;
    term = h.term;
    logged = IsLogged-Extends g g' h.log more h.logged;
    before = h.before;
    younger = h.younger;
    ordered = h.ordered;
    kept = h.kept;
  }

  -- A node moves.
  pub Bid-put :
      (g : Ledger) (node : ℕ → Node) (race : Race) (i : ℕ) (m : Node)
      → Moved L t (node i) m
      → Bid g node race
      → Bid g (put node i m) race
  Bid-put g node race i m moved h =
      let Still : Node → Type 0 = λ n.
        (race.election.term ≤ n.current_term)
        × (Contends n.state → n.current_term ≡ race.election.term → Prefix h.log n.log) in
      let still : Still (put node i m race.owner) = elim (ℕ_discrete race.owner i) [
        | no other ↦ rw (put_elsewhere node i m race.owner other) (h.opened, h.standing)
        | yes same ↦
            let (opened, standing) : Still (node i) =
              subst (λ j. Still (node j)) same (h.opened, h.standing) in
            rw (same, put_there node i m)
              (
                omega (arith, moved.term),
                λ contends here.
                    let stays : m.current_term ≡ (node i).current_term =
                      omega (arith, moved.term, opened, here) in
                    let (stood, grew) = moved.runs contends stays in
                    Prefix-trans h.log (node i).log m.log (standing stood (sym stays ∙ here)) grew,
              )
      ] in
      record {
        log = h.log;
        opened = still.0;
        standing = still.1;
        index = h.index;
        term = h.term;
        logged = h.logged;
        before = h.before;
        younger = h.younger;
        ordered = h.ordered;
        kept = h.kept;
      }

  -- A task goes on, with no new vote or with one of a node that holds the text only if the log does.
  pub Bid-staged :
      (g : Ledger) (node : ℕ → Node) (race : Race) (j : ℕ) (s : Stage) (election : Election)
      → election.term ≡ race.election.term
      → (h : Bid g node race)
      → (j < size → test j ≡ true → is_granted s ≡ true → t < race.election.term → Prefix L h.log)
      → Bid g node (at_stage j s (record race { election = election }))
  Bid-staged g node race j s election same h voted = record {
    log = h.log;
    opened = rw same h.opened;
    standing = λ contends here. h.standing contends (here ∙ same);
    index = h.index;
    term = h.term;
    logged = h.logged;
    before = h.before;
    younger = rw same h.younger;
    ordered = h.ordered;
    kept = λ k k_less yes_k granted above.
        let below : t < race.election.term = rw (← same) above in
        put_all (λ l stage. l < size → test l ≡ true → is_granted stage ≡ true → Prefix L h.log)
          race.stage j s (λ l_less yes_l given. voted l_less yes_l given below)
          (λ l _ l_less yes_l given. h.kept l l_less yes_l given below) k k_less yes_k granted;
  }

  -- A vote for the candidate by a node that holds the text.
  pub voted-Prefix :
      (g : Ledger) (node : ℕ → Node) (race : Race) (n : Node)
      → (h : Bid g node race) → IsLogged g n.log
      → IsOrdered n.current_term n.log
      → ((u : ℕ) → IsOrdered u (g.text u))
      → Ends t L
      → ((u : ℕ) → t < u → 0 < length (g.text u) → Prefix L (g.text u))
      → (handle_request_vote race.request n).1.vote_granted ≡ true
      → Prefix L n.log
      → Prefix L h.log
  voted-Prefix g node race n h logged ordered texts ends later granted held =
      let (_, better) = (grants_iff race.request n).0 granted in
      up_to_date-Prefix g n.log h.log n.current_term h.before logged h.logged ordered h.ordered
        texts (rw (← h.index, ← h.term) better) L t held (λ u above _. later u above) ends

  -- The owner stands with the log that it has, and votes for itself.
  pub open_race-Bid :
      (g : Ledger) (node : ℕ → Node) (i : ℕ) (n : Node) (election : Election)
      (request : RequestVoteRequest)
      → start_election (disarm (node i)) ≡ (n, some (election, request))
      → IsLogged g (node i).log
      → IsOrdered (node i).current_term (node i).log
      → (test i ≡ true → Prefix L (node i).log)
      → Bid g (put node i n) (open_race i election request)
  unfolding open_race
  open_race-Bid g node i n election request starts logged ordered held =
      let here = put_there node i n in
      let (log, term, next, index, last) : Opens (node i) (n, some (election, request)) =
        subst (Opens (node i)) starts (start_election-Opens (node i)) in
      record {
        log = (node i).log;
        opened = rw (here, term) (omega arith);
        standing = λ _ _. rw (here, log) (Prefix-refl (node i).log);
        index = index;
        term = last;
        logged = logged;
        before = (node i).current_term;
        younger = omega (arith, next);
        ordered = ordered;
        kept = λ j j_less yes_j granted above.
            put_all (λ l stage. test l ≡ true → is_granted stage ≡ true → Prefix L (node i).log)
              (λ _. asking) i (counted true) (λ yes_i _. held yes_i) (λ l _ _ given. absurd (cc)) j
              yes_j granted;
      }
