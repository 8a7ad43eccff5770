-- ===== src/Network/Writes.antt =====
-- The two ways in which the ledger grows: a leadership begins, and a leader takes a client's request.
use native.Mathlib.Decide.{ℕ_discrete}
use orris.Prelude.{
  ◌⊎◌, ℕ, ◌≡◌, ◌≢◌, ◌<◌, refl, sym, ap, ◌∙◌, subst, true, false, [], ◌∷◌, ◌++◌, inl, inr,
  Bool-cases, put, put_there, put_elsewhere, Prefix, Prefix-nil, Prefix-refl,
}
use orris.Raft.State.{Node, ClientReq}
use orris.Raft.Append.{push}
use orris.Raft.Append.Merge.{log-push}
use orris.Raft.Client.{client_entry}
use orris.Raft.Election.{is_leader, is_candidate, become_leader}
use orris.Raft.Steps.Leads.{become_leader_term}
use orris.Raft.Steps.SameLog.{become_leader-log}
use orris.Network.Ledger.{Ledger, IsLogged, Extends, IsLogged-Extends, IsLogged-push}
use orris.Network.Invariant.{Past, Nodes, Nodes-write, written, written-Extends}
use orris.Network.Events.{become_leader-state, become_leader-Past, become_leader_begins}

-- Where the ledger changed, the text is now the log of the term's leader.
abbrev pub Wrote : ℕ → Ledger → Ledger → (ℕ → Node) → Type 0
Wrote size g g' node =
    (u : ℕ)
    → ((g'.text u ≡ g.text u) × (g'.begun u ≡ g.begun u))
      ⊎ ((j : ℕ) × (j < size)
          × (is_leader (node j).state ≡ true)
          × ((node j).current_term ≡ u)
          × (g'.text u ≡ (node j).log))

pub Wrote-refl : (size : ℕ) (g : Ledger) (node : ℕ → Node) → Wrote size g g node
Wrote-refl size g node u = inl (refl, refl)

-- The ledger may have grown.
abbrev pub Grown : (size : ℕ) → Ledger → (ℕ → ℕ → Type 0) → (ℕ → Node) → Type 0
Grown size g Wins node =
    (g' : Ledger) × Extends g g' × Wrote size g g' node × Nodes size g' Wins node

-- Node `i` becomes `m`, and whoever leads then has won an election of the term, which no other has.
module _ (size : ℕ) (g : Ledger) (Wins : ℕ → ℕ → Type 0) (node : ℕ → Node)
    (h : Nodes size g Wins node)
    (once : (j k t : ℕ) → j < size → k < size → Wins j t → Wins k t → j ≡ k) (i : ℕ)
    (less : i < size) (m : Node)
    (won : (j : ℕ)
      → j < size
      → is_leader (put node i m j).state ≡ true
      → Wins j (put node i m j).current_term) where
  wins_here : is_leader m.state ≡ true → Wins i m.current_term
  wins_here leads =
      subst (λ (l : Node). is_leader l.state ≡ true → Wins i l.current_term) (put_there node i m)
        (won i less) leads

  alone :
      (j : ℕ)
      → Wins i m.current_term
      → j < size
      → j ≢ i
      → is_leader (node j).state ≡ true
      → (node j).current_term ≢ m.current_term
  alone j mine j_less other leads same =
      let there = put_elsewhere node i m j other in
      let theirs : Wins j (node j).current_term =
        subst (λ (l : Node). is_leader l.state ≡ true → Wins j l.current_term) there (won j j_less)
          leads in
      other (once j i m.current_term j_less less (subst (Wins j) same theirs) mine)

  written-Wrote :
      is_leader m.state ≡ true
      → Wrote size g (written size g Wins node h i m m.current_term m.log) (put node i m)
  written-Wrote leads u = elim (ℕ_discrete u m.current_term) [
    | no other ↦ inl (
      put_elsewhere g.text m.current_term m.log u other,
      put_elsewhere g.begun m.current_term true u other,
    )
    | yes same ↦
        let here = put_there node i m in
        inr (
          i,
          less,
          rw here leads,
          rw here (sym same),
          rw (here, same) (put_there g.text m.current_term m.log),
        )
  ]

  -- The node that began the term is the one that won it.
  Began-Past : (t : ℕ) → Wins i t → g.begun t ≡ true → Past t (node i)
  Began-Past t mine begun =
      let (k, k_less, won_k, past) = h.began t begun in
      subst (λ j. Past t (node j)) (once k i t k_less less won_k mine) past

  pub begins-Grown :
      m ≡ become_leader (node i)
      → is_candidate (node i).state ≡ true
      → Grown size g Wins (put node i m)
  begins-Grown leads stands =
      let n = node i in
      let t = m.current_term in
      let term : t ≡ n.current_term =
        ap (λ (l : Node). l.current_term) leads ∙ become_leader_term n in
      let log : m.log ≡ n.log = ap (λ (l : Node). l.log) leads ∙ become_leader-log n in
      let led : is_leader m.state ≡ true =
        ap (λ (l : Node). is_leader l.state) leads ∙ ap is_leader (become_leader-state n) in
      let mine : Wins i t = wins_here led in
      let fresh : g.begun t ≡ false = elim (Bool-cases (g.begun t)) [
        | inr no_one ↦ no_one
        | inl begun ↦ let past = Began-Past t mine begun in absurd (cc (past.stands term, stands))
      ] in
      let nothing : Prefix (g.text t) m.log = rw (h.blank t fresh) (Prefix-nil m.log) in
      let g' : Ledger = written size g Wins node h i m t m.log in
      let ext = written-Extends size g Wins node h i m t m.log nothing in
      (
        g',
        ext,
        written-Wrote led,
        Nodes-write size g Wins node h i m t less refl nothing
            (IsLogged-Extends g g' m.log ext (rw log (h.logged i less))) mine
            (λ u past. rw leads (become_leader-Past n stands u past))
            (subst (λ (l : Node). Past l.current_term l) (sym leads)
              (subst (λ u. Past u (become_leader n)) (sym (become_leader_term n))
                (become_leader_begins n)))
            (λ j. alone j mine),
      )

  pub pushes-Grown :
      (req : ClientReq)
      → m ≡ push (client_entry req (node i)) (node i)
      → is_leader (node i).state ≡ true
      → ((t : ℕ) → Past t (node i) → Past t m)
      → Grown size g Wins (put node i m)
  unfolding push client_entry
  pushes-Grown req pushed leads past =
      let n = node i in
      let e = client_entry req n in
      let t = m.current_term in
      let term : t ≡ n.current_term = ap (λ (l : Node). l.current_term) pushed in
      let log : m.log ≡ n.log ++ e ∷ [] = ap (λ (l : Node). l.log) pushed ∙ log-push e n in
      let led : is_leader m.state ≡ true = ap (λ (l : Node). is_leader l.state) pushed ∙ leads in
      let mine : Wins i t = wins_here led in
      let (begun, text) = h.leading i less leads in
      let more : Prefix (g.text t) m.log =
        (e ∷ [], log ∙ ap (λ l. l ++ e ∷ []) (text ∙ ap g.text (sym term))) in
      let g' : Ledger = written size g Wins node h i m t m.log in
      let ext = written-Extends size g Wins node h i m t m.log more in
      let there : g'.text e.term ≡ n.log ++ e ∷ [] =
        ap g'.text (sym term) ∙ put_there g.text t m.log ∙ log in
      let fits : IsLogged g' m.log = subst (IsLogged g') (sym log) (
        IsLogged-push g' n.log e (IsLogged-Extends g g' n.log ext (h.logged i less))
          (rw there (Prefix-refl (n.log ++ e ∷ [])))) in
      (
        g',
        ext,
        written-Wrote led,
        Nodes-write size g Wins node h i m t less refl more fits mine past
            (past t (Began-Past t mine (rw term begun))) (λ j. alone j mine),
      )
