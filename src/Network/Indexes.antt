-- ===== src/Network/Indexes.antt =====
-- NextIndex of a leader: for each peer it stays within the leader's log.
use orris.Prelude.{
  ℕ, suc, zero, String, true, false, ◌≡◌, ◌≤◌, ◌⊎◌, inl, inr, refl, sym, ap, ◌∙◌, subst, some, none,
  [], ◌∷◌, arith, nat_eq, string_eq, ◌==◌, Bool-cases, length, ℤ, pos, ◌+ℤ◌, ◌-ℤ◌, ltb_ℤ, ltb, Bool,
  if◌then◌else◌, Map, insert, lookup, lookup-insert, pred_succ, get_elem?,
}
use text.Mathlib.TextPositions.{eq_refl}
use orris.Transport.{AppendEntriesRequest, AppendEntriesResponse}
use orris.Raft.State.{Node, leader, int_at, reset_election_timer}
use orris.Raft.Vote.{step_down}
use orris.Raft.Append.Invariant.{Ensures, Ensures-if, Ensures-map, Ensures-some}
use orris.Raft.Election.{is_leader, start_peers, become_leader}
use orris.Raft.Commit.{advance_commit_index}
use orris.Raft.Replication.{
  PeerTask, is_current, has_entries, record_match, back_off, finish_replication, peer_tasks,
  send_heartbeats,
}
use orris.Raft.Steps.Keeps.Regions.{advance_from_inv}
use orris.Raft.Steps.Contending.{Points, Points-Spares}
use orris.Raft.Steps.SameLog.{become_leader-log}

-- An index of the log, or the one behind its end.
abbrev pub Fits : ℤ → ℕ → Type 0
Fits index size = (k : ℕ) × (index ≡ pos k) × (k ≤ size)

pub Fits-more : (index : ℤ) (a b : ℕ) → a ≤ b → Fits index a → Fits index b
Fits-more index a b le (k, same, inside) = (k, same, omega arith)

-- The entry of each peer in a map of next indices.
abbrev pub Aims : Map String → Map ℤ → ℕ → Type 0
Aims peers next size =
    (q : ℕ) (id addr : String)
    → get_elem? peers q ≡ some (id, addr)
    → Fits (int_at (lookup id next)) size

abbrev pub Within : Node → Type 0
Within n = is_leader n.state ≡ true → Aims n.peers n.next_index (length n.log)

Aims-insert :
    (peers : Map String) (next : Map ℤ) (size : ℕ) (key : String) (index : ℤ)
    → Fits index size
    → Aims peers next size
    → Aims peers (insert key index next) size
Aims-insert peers next size key index fits h q id addr at_q = elim (Bool-cases (key == id)) [
  | inl same ↦ rw (lookup-insert key id index next, same) fits
  | inr other ↦ rw (lookup-insert key id index next, other) (h q id addr at_q)
]

start_peers_keeps :
    (peers : Map String) (next : ℤ) (n : Node) (id : String)
    → lookup id n.next_index ≡ some next
    → lookup id (start_peers peers next n).next_index ≡ some next
unfolding start_peers
start_peers_keeps [] next n id h = h
start_peers_keeps ((key, addr) ∷ peers) next n id h = start_peers_keeps peers next _ id (
    lookup-insert key id next n.next_index
    ∙ elim (Bool-cases (key == id)) [ inl same ↦ rw same refl | inr other ↦ rw other h ])

start_peers_next :
    (peers : Map String) (next : ℤ) (n : Node) (q : ℕ) (id addr : String)
    → get_elem? peers q ≡ some (id, addr)
    → lookup id (start_peers peers next n).next_index ≡ some next
unfolding start_peers
start_peers_next [] next n q id addr at_q = absurd (cc (at_q))
start_peers_next ((key, a) ∷ peers) next n zero id addr at_q =
    let same : key ≡ id = cc (at_q) in
    start_peers_keeps peers next _ id
      (lookup-insert key id next n.next_index ∙ rw (same, eq_refl id) refl)
start_peers_next ((key, a) ∷ peers) next n (suc q) id addr at_q =
    start_peers_next peers next _ q id addr at_q

start_peers_peers :
    (peers : Map String) (next : ℤ) (n : Node) → (start_peers peers next n).peers ≡ n.peers
unfolding start_peers
start_peers_peers [] next n = refl
start_peers_peers ((id, _) ∷ peers) next n = start_peers_peers peers next _

-- A new leader starts with the end of its log.
pub become_leader-Within : (n : Node) → is_leader n.state ≡ false → Within (become_leader n)
unfolding become_leader reset_election_timer
become_leader-Within n other leads q id addr at_q =
    let started = record n { state = leader } in
    let size = pos (length n.log) in
    let peers : (become_leader n).peers ≡ n.peers =
      rw other (start_peers_peers n.peers size started) in
    let at_q' : get_elem? n.peers q ≡ some (id, addr) =
      subst (λ l. get_elem? l q ≡ some (id, addr)) peers at_q in
    let next : lookup id (become_leader n).next_index ≡ some size =
      rw other (start_peers_next n.peers size started q id addr at_q') in
    (length n.log, ap int_at next, rw (become_leader-log n) (omega arith))

-- What the answer of a peer makes of the next indices.
abbrev Rewritten : PeerTask → AppendEntriesRequest → Node → Map ℤ → Type 0
Rewritten task req n next =
    (next ≡ n.next_index)
    ⊎ ((is_current task n ≡ true)
        × ((next
              ≡ insert task.peer_id (req.prev_log_index +ℤ pos (length req.entries) +ℤ pos 1)
                  n.next_index)
            ⊎ ((ltb_ℤ (pos 0) task.next ≡ true)
                × (next ≡ insert task.peer_id (task.next -ℤ pos 1) n.next_index))))

abbrev Finished : PeerTask → AppendEntriesRequest → Node → Node → Type 0
Finished task req n m =
    is_leader m.state ≡ true → Rewritten task req n m.next_index × (m.peers ≡ n.peers)

back_off-Finished :
    (task : PeerTask) (req : AppendEntriesRequest) (n : Node)
    → is_current task n ≡ true
    → Finished task req n (back_off task n)
unfolding back_off
back_off-Finished task req n current = elim (Bool-cases (ltb_ℤ (pos 0) task.next)) [
  | inl more ↦
      let written = record n {
        next_index = insert task.peer_id (task.next -ℤ pos 1) n.next_index;
      } in
      subst (λ (b : Bool). Finished task req n (if b then written else n)) (sym more)
        (λ leads. (inr (current, inr (more, refl)), refl))
  | inr first ↦ rw first (λ leads. (inl refl, refl))
]

finish_replication-Finished :
    (task : PeerTask) (req : AppendEntriesRequest) (resp : AppendEntriesResponse) (n : Node)
    → Ensures (Finished task req n) (finish_replication task req resp n)
unfolding finish_replication advance_commit_index record_match
finish_replication-Finished task req resp n =
    let F = Finished task req n in
    let stays : F n = λ leads. (inl refl, refl) in
    elim (Bool-cases (is_current task n)) [
      | inr over ↦ rw over stays
      | inl current ↦ elim (Bool-cases (ltb n.current_term resp.term)) [
        | inl newer ↦ rw (current, newer) (unfold step_down in λ leads. absurd (cc))
        | inr old ↦
            let m = record_match task.peer_id req n in
            let P = Points m.next_index m.peers in
            let advanced =
              advance_from_inv P ⊥ (Points-Spares m.next_index m.peers) (length m.log) m
                (λ _. (refl, refl)) in
            rw (current, old)
              (Ensures-if F resp.success _ _
                (Ensures-if F (has_entries req.entries) _ (some n)
                  (Ensures-map P F (advance_commit_index m)
                    (λ l h leads. let (next, peers) = h leads in (inr (current, inl next), peers))
                    advanced)
                  stays)
                (back_off-Finished task req n current))
      ]
    ]

pub finish_replication-Within :
    (task : PeerTask) (req : AppendEntriesRequest) (resp : AppendEntriesResponse) (n m : Node)
    → finish_replication task req resp n ≡ some m
    → m.log ≡ n.log
    → (is_current task n ≡ true
        → Fits task.next (length n.log)
          × Fits (req.prev_log_index +ℤ pos (length req.entries) +ℤ pos 1) (length n.log))
    → (is_leader m.state ≡ true → is_leader n.state ≡ true)
    → Within n
    → Within m
finish_replication-Within task req resp n m ran log fits led h leads =
    let (written, peers) =
      Ensures-some (Finished task req n) (finish_replication task req resp n) m ran
        (finish_replication-Finished task req resp n) leads in
    let before = h (led leads) in
    let size = length n.log in
    let after : Aims n.peers m.next_index size = elim written [
      | inl same ↦ rw same before
      | inr (current, inl same) ↦
          rw same (Aims-insert n.peers n.next_index size _ _ (fits current).1 before)
      | inr (current, inr (more, same)) ↦ rw same (
          Aims-insert n.peers n.next_index size _ _
            (stepped_back task.next size more (fits current).0) before)
    ] in
    rw (log, peers) after
  where
    stepped_back :
        (next : ℤ) (size : ℕ)
        → ltb_ℤ (pos 0) next ≡ true
        → Fits next size
        → Fits (next -ℤ pos 1) size
    stepped_back next size more (zero, same, inside) = absurd (cc (same, more))
    stepped_back next size more (suc k, same, inside) = (k, rw same (pred_succ k), omega arith)

planned :
    (n : Node) (task : PeerTask) (peers : Map String) (p : ℕ)
    → get_elem? (peer_tasks n peers) p ≡ some task
    → (task.term ≡ n.current_term)
      × (addr : String) × (get_elem? peers p ≡ some (task.peer_id, addr))
      × (task.next ≡ int_at (lookup task.peer_id n.next_index))
unfolding peer_tasks
planned n task [] p at_p = absurd (cc (at_p))
planned n task ((id, addr) ∷ peers) zero at_p =
    let named : id ≡ task.peer_id = cc (at_p) in
    let term : task.term ≡ n.current_term = cc (at_p) in
    let next : task.next ≡ int_at (lookup id n.next_index) = cc (at_p) in
    (
      term,
      addr,
      ap (λ i. some (i, addr)) named,
      next ∙ ap (λ i. int_at (lookup i n.next_index)) named,
    )
planned n task ((id, addr) ∷ peers) (suc p) at_p = planned n task peers p at_p

-- A task of a round of heartbeats.
pub send_heartbeats-Fits :
    (n : Node) (p : ℕ) (task : PeerTask)
    → get_elem? (send_heartbeats n) p ≡ some task
    → Within n
    → (is_leader n.state ≡ true) × (task.term ≡ n.current_term) × Fits task.next (length n.log)
unfolding send_heartbeats
send_heartbeats-Fits n p task at_p h = elim (Bool-cases (is_leader n.state)) [
  | inr other ↦
      let none_there : none ≡ some task =
        subst (λ (b : Bool). get_elem? (if b then peer_tasks n n.peers else []) p ≡ some task) other
          at_p in
      absurd (cc (none_there))
  | inl leads ↦
      let here : get_elem? (peer_tasks n n.peers) p ≡ some task =
        subst (λ (b : Bool). get_elem? (if b then peer_tasks n n.peers else []) p ≡ some task) leads
          at_p in
      let (term, addr, found, next) = planned n task n.peers p here in
      (leads, term, rw next (h leads p task.peer_id addr found))
]
