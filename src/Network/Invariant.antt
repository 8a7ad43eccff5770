-- ===== src/Network/Invariant.antt =====
-- What ties the logs of a network to the ledger, and how it lasts when a node or the ledger changes.
use native.Mathlib.Decide.{ℕ_discrete}
use orris.Prelude.{
  ℕ, true, false, ◌≡◌, ◌≢◌, ◌<◌, ap, sym, ◌∙◌, List, [], put, put_all, put_there, put_elsewhere,
  Prefix, Prefix-refl,
}
use orris.Storage.{LogEntry}
use orris.Raft.State.{Node}
use orris.Raft.Election.{is_leader}
use orris.Raft.Steps.Standing.{Waits}
use orris.Network.{Stage, planned, sent, answered, closed}
use orris.Network.Ledger.{Ledger, IsLogged, Extends, IsLogged-Extends}
use orris.Network.Requests.{IsMade, IsMade-Extends}

-- The node has led in the term, and will not stand in it again.
abbrev pub Past : ℕ → Node → Type 0
Past term n = Waits term (λ _. Unit) n

-- Node `i` began the term.
abbrev pub Began : ℕ → (ℕ → Node) → (ℕ → ℕ → Type 0) → ℕ → Type 0
Began size node Wins term = (i : ℕ) × (i < size) × Wins i term × Past term (node i)

-- A leader's log is that of the ledger.
abbrev pub Leading : Ledger → Node → Type 0
Leading g n =
    is_leader n.state ≡ true → (g.begun n.current_term ≡ true) × (n.log ≡ g.text n.current_term)

-- What a call has asked for.
abbrev pub Asked : Ledger → Stage → Type 0
Asked g planned = Unit
Asked g (sent req) = IsMade g req
Asked g (answered req resp) = IsMade g req
Asked g closed = Unit

pub Asked-Extends : (g g' : Ledger) (s : Stage) → Extends g g' → Asked g s → Asked g' s
Asked-Extends g g' planned more h = tt
Asked-Extends g g' (sent req) more h = IsMade-Extends g g' req more h
Asked-Extends g g' (answered req resp) more h = IsMade-Extends g g' req more h
Asked-Extends g g' closed more h = tt

module _ (size : ℕ) where
  -- `Wins i t`: node `i` won an election of term `t`.
  pub record Nodes (g : Ledger) (Wins : ℕ → ℕ → Type 0) (node : ℕ → Node) : Type 0 where
    pub logged : (i : ℕ) → i < size → IsLogged g (node i).log
    pub leading : (i : ℕ) → i < size → Leading g (node i)
    pub began : (t : ℕ) → g.begun t ≡ true → Began size node Wins t
    pub blank : (t : ℕ) → g.begun t ≡ false → g.text t ≡ []
    pub texts : (t : ℕ) → IsLogged g (g.text t)

  pub Nodes-more :
      (g : Ledger) (Wins Wins' : ℕ → ℕ → Type 0) (node : ℕ → Node)
      → ((i t : ℕ) → Wins i t → Wins' i t)
      → Nodes g Wins node
      → Nodes g Wins' node
  Nodes-more g Wins Wins' node more h = record {
    logged = h.logged;
    leading = h.leading;
    began = λ t b. let (i, less, won, past) = h.began t b in (i, less, more i t won, past);
    blank = h.blank;
    texts = h.texts;
  }

  -- What a step that leaves the ledger alone must keep of the node.
  pub record Stays (g : Ledger) (n m : Node) : Type 0 where
    pub logged : IsLogged g m.log
    pub leading : Leading g m
    pub past : (t : ℕ) → Past t n → Past t m

  Began-put :
      (Wins : ℕ → ℕ → Type 0) (node : ℕ → Node) (i : ℕ) (m : Node)
      → ((t : ℕ) → Past t (node i) → Past t m)
      → (t : ℕ) → Began size node Wins t
      → Began size (put node i m) Wins t
  Began-put Wins node i m past t (j, less, won, before) = (
    j,
    less,
    won,
    elim (ℕ_discrete j i) [
      | yes same ↦ rw same (rw (put_there node i m) (past t (rw (← same) before)))
      | no other ↦ rw (put_elsewhere node i m j other) before
    ],
  )

  module _ (g : Ledger) (Wins : ℕ → ℕ → Type 0) (node : ℕ → Node) (h : Nodes g Wins node) (i : ℕ)
      (m : Node) where
    pub Nodes-put : Stays g (node i) m → Nodes g Wins (put node i m)
    Nodes-put s = record {
      logged =
          put_all (λ j n. j < size → IsLogged g n.log) node i m (λ _. s.logged) (λ j _. h.logged j);
      leading =
          put_all (λ j n. j < size → Leading g n) node i m (λ _. s.leading) (λ j _. h.leading j);
      began = λ t b. Began-put Wins node i m s.past t (h.began t b);
      blank = h.blank;
      texts = h.texts;
    }

    -- The ledger with a new last text of the term.
    abbrev pub written : ℕ → List LogEntry → Ledger
    written t text = record { text = put g.text t text; begun = put g.begun t true }

    pub written-Extends :
        (t : ℕ) (text : List LogEntry) → Prefix (g.text t) text → Extends g (written t text)
    written-Extends t text more =
        put_all (λ u new. Prefix (g.text u) new) g.text t text more (λ u _. Prefix-refl (g.text u))

    -- Node `i`, the only leader of term `t`, becomes `m` with a log that continues the text.
    pub Nodes-write :
        (t : ℕ)
        → i < size
        → m.current_term ≡ t
        → Prefix (g.text t) m.log
        → IsLogged (written t m.log) m.log
        → Wins i t
        → ((u : ℕ) → Past u (node i) → Past u m)
        → Past t m
        → ((j : ℕ) → j < size → j ≢ i → is_leader (node j).state ≡ true → (node j).current_term ≢ t)
        → Nodes (written t m.log) Wins (put node i m)
    Nodes-write t less term more fits wins past here alone =
        let g' = written t m.log in
        let ext = written-Extends t m.log more in
        record {
          logged =
              put_all (λ j n. j < size → IsLogged g' n.log) node i m (λ _. fits)
                (λ j _ j_less. IsLogged-Extends g g' (node j).log ext (h.logged j j_less));
          leading =
              put_all (λ j n. j < size → Leading g' n) node i m
                (λ _ _. (
                  ap (put g.begun t true) term ∙ put_there g.begun t true,
                  sym (ap (put g.text t m.log) term ∙ put_there g.text t m.log),
                ))
                (λ j other j_less leads.
                  let u = (node j).current_term in
                  let apart = alone j j_less other leads in
                  let (begun, same) = h.leading j j_less leads in
                  (
                    put_elsewhere g.begun t true u apart ∙ begun,
                    same ∙ sym (put_elsewhere g.text t m.log u apart),
                  ));
          began =
              put_all (λ u b. b ≡ true → Began size (put node i m) Wins u) g.begun t true
                (λ _. (i, less, wins, rw (put_there node i m) here))
                (λ u _ b. Began-put Wins node i m past u (h.began u b));
          blank = λ u none. elim (ℕ_discrete u t) [
            | yes same ↦ absurd (cc (ap (put g.begun t true) same ∙ put_there g.begun t true, none))
            | no other ↦
                put_elsewhere g.text t m.log u other
                ∙ h.blank u (sym (put_elsewhere g.begun t true u other) ∙ none)
          ];
          texts =
              put_all (λ u text. IsLogged g' text) g.text t m.log fits
                (λ u _. IsLogged-Extends g g' (g.text u) ext (h.texts u));
        }
