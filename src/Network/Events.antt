-- ===== src/Network/Events.antt =====
-- What each event of a node keeps of its ties to the ledger.
use orris.Prelude.{
  ℕ, ◌⊎◌, ◌≡◌, refl, sym, ap, ◌∙◌, true, false, some, List, arith, inl, inr, Bool-cases, nat_eq,
  length, pos,
}
use orris.Transport.{AppendEntriesRequest, AppendEntriesResponse}
use orris.Storage.{LogEntry}
use orris.Raft.State.{Node, ClientReq, NodeState, follower, candidate, leader, reset_election_timer}
use orris.Raft.Append.{handle_append_entries, push}
use orris.Raft.Append.Invariant.{Ensures-some}
use orris.Raft.Election.{is_leader, is_candidate, become_leader}
use orris.Raft.Client.{begin_client_req, client_entry}
use orris.Raft.Recovery.Restores.{IsRecoverable}
use orris.Raft.Steps.{Event, entries_received, step}
use orris.Raft.Steps.Keeps.Runs.{IsQuiet, IsSparing, quiet_inv}
use orris.Raft.Steps.Leads.{become_leader_term, Leads, Leads-Keeps}
use orris.Raft.Steps.SameLog.{step-log}
use orris.Raft.Steps.Standing.{Both, Both-Keeps, become_leader-Here}
use orris.Raft.Steps.Recoverable.{start_peers_same}
use orris.Network.Ledger.{Ledger, IsLogged}
use orris.Raft.Append.Joined.{received-either}
use orris.Network.Invariant.{Past, Leading, Stays}

abbrev Always : List LogEntry → Type 0
Always log = Unit

pub step-Past :
    (e : Event) (n m : Node)
    → IsQuiet e
    → IsRecoverable n
    → step e n ≡ some m
    → (t : ℕ) → Past t n
    → Past t m
step-Past e n m quiet back ran t past =
    let P = Both t Always (λ _ _ _. tt) in
    (Ensures-some P (step e n) m ran
      (quiet_inv P (Both-Keeps t Always (λ _ _ _. tt)) e n quiet (back, past))).1

-- Whoever leads after an event that starts no leadership led before, in the same term.
pub step-Leads :
    (e : Event) (n m : Node)
    → IsQuiet e
    → step e n ≡ some m
    → is_leader m.state ≡ true
    → (is_leader n.state ≡ true) × (m.current_term ≡ n.current_term)
step-Leads e n m quiet ran =
    let Led : ℕ → Type 0 = λ t. (is_leader n.state ≡ true) × (t ≡ n.current_term) in
    Ensures-some (Leads Led) (step e n) m ran
      (quiet_inv (Leads Led) (Leads-Keeps Led) e n quiet (λ leads. (leads, refl)))

Leading-same :
    (g : Ledger) (n m : Node)
    → (is_leader m.state ≡ true → (is_leader n.state ≡ true) × (m.current_term ≡ n.current_term))
    → (is_leader m.state ≡ true → m.log ≡ n.log)
    → Leading g n
    → Leading g m
Leading-same g n m led same h leads =
    let (before, term) = led leads in
    let (begun, text) = h before in (rw term begun, same leads ∙ text ∙ ap g.text (sym term))

pub sparing-Stays :
    (size : ℕ) (g : Ledger) (e : Event) (n m : Node)
    → IsSparing e
    → IsQuiet e
    → IsRecoverable n
    → step e n ≡ some m
    → IsLogged g n.log
    → Leading g n
    → Stays size g n m
sparing-Stays size g e n m sparing quiet back ran logged leading =
    let same = step-log e n m sparing back ran in
    record {
      logged = rw same logged;
      leading = Leading-same g n m (step-Leads e n m quiet ran) (λ _. same) leading;
      past = step-Past e n m quiet back ran;
    }

-- A node that leads after a request has refused it, and is as it was.
handled-Leads :
    (req : AppendEntriesRequest) (n m : Node) (resp : AppendEntriesResponse)
    → handle_append_entries req n ≡ some (m, resp)
    → is_leader m.state ≡ true
    → m.log ≡ n.log
handled-Leads req n m resp ran leads = elim (received-either req n m resp ran) [
  | inl same ↦ ap (λ (l : Node). l.log) same
  | inr (_, _, follows) ↦ absurd (cc (leads, follows))
]

-- A request that a leader made.
pub received-Stays :
    (size : ℕ) (g : Ledger) (req : AppendEntriesRequest) (n m : Node) (resp : AppendEntriesResponse)
    → IsRecoverable n
    → handle_append_entries req n ≡ some (m, resp)
    → IsLogged g m.log
    → Leading g n
    → Stays size g n m
unfolding step
received-Stays size g req n m resp back ran logged leading =
    let e = entries_received req in
    let ran' : step e n ≡ some m = rw ran refl in
    record {
      logged = logged;
      leading =
          Leading-same g n m (step-Leads e n m tt ran') (handled-Leads req n m resp ran) leading;
      past = step-Past e n m tt back ran';
    }

-- A leader that takes a client's request has one more entry, of its term.
pub client-log :
    (req : ClientReq) (n : Node)
    → is_leader n.state ≡ true
    → (begin_client_req req n).0 ≡ push (client_entry req n) n
unfolding begin_client_req
client-log req n leads = rw leads refl

pub client_refused :
    (req : ClientReq) (n : Node) → is_leader n.state ≡ false → (begin_client_req req n).0 ≡ n
unfolding begin_client_req
client_refused req n other = rw other refl

pub become_leader-state : (n : Node) → (become_leader n).state ≡ leader
unfolding become_leader reset_election_timer
become_leader-state n = elim (Bool-cases (is_leader n.state)) [
  | inl leads ↦ rw leads (is_leader-eq n.state leads)
  | inr other ↦
      let (_, _, state) =
        start_peers_same n.peers (pos (length n.log)) (record n { state = leader }) in
      rw other state
]
  where
    is_leader-eq : (s : NodeState) → is_leader s ≡ true → s ≡ leader
    is_leader-eq follower leads = absurd (cc)
    is_leader-eq candidate leads = absurd (cc)
    is_leader-eq leader leads = refl

pub become_leader-Past :
    (n : Node) → is_candidate n.state ≡ true → (t : ℕ) → Past t n → Past t (become_leader n)
become_leader-Past n stands t = become_leader-Here t Always (λ _ _ _. tt) n stands

-- The term that it begins.
pub become_leader_begins : (n : Node) → Past n.current_term (become_leader n)
become_leader_begins n = record {
  reached = rw become_leader_term (omega arith);
  stands = λ _. ap is_candidate (become_leader-state n);
  there = λ _ _. tt;
}

-- A count of votes and the end of an election leave a node with a new timer at most, or make it the leader.
abbrev pub Counted : Node → (Node → Type 0) → Node → Type 0
Counted n Led m = (m ≡ n) ⊎ (m ≡ reset_election_timer n) ⊎ ((m ≡ become_leader n) × Led n)
