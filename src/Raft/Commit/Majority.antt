-- ===== src/Raft/Commit/Majority.antt =====
-- Which index `advanceCommitIndex` commits.
use native.Mathlib.Decide.{dec_lt, ℕ_discrete}
use orris.Prelude.{
  subst, ◌≢◌, ℕ, zero, suc, String, ◌+◌, ◌*◌, ◌≡◌, ◌↔◌, ◌≤◌, ◌<◌, ◌⊎◌, refl, true, Option, some,
  List, [], ◌∷◌, arith, nat_eq, inl, inr, length, get_elem?, if◌then◌else◌, ℤ, pos, pos_part,
  neg_part, minus_one, ◌≤ℤ◌, ◌<ℤ◌, leb_ℤ, Map, get_elem?_lt, lt_of_get_elem?, Option-cases,
}
use orris.Storage.{LogEntry}
use orris.Raft.State.{Node}
use orris.Raft.Commit.{count_matches, is_replicated, commit_to, advance_from, advance_commit_index}

-- The peers that are known to hold the entry at an index.
pub holders : ℤ → Map ℤ → List String
holders index [] = []
holders index ((id, match) ∷ rest) =
    let others = holders index rest in if leb_ℤ index match then id ∷ others else others

length-holders :
    (index : ℤ) (known : Map ℤ) → count_matches index known ≡ length (holders index known)
unfolding count_matches holders
length-holders index [] = refl
length-holders index ((id, match) ∷ rest) = ground (arith, length-holders index rest)

-- More than half of the cluster, the node itself among them.
abbrev pub HeldByMajority : ℕ → Node → Type 0
HeldByMajority index n = length n.peers + 1 < 2 * (1 + length (holders (pos index) n.match_index))

is_replicated_iff :
    (index : ℕ) (n : Node) → (is_replicated (pos index) n ≡ true) ↔ HeldByMajority index n
unfolding is_replicated
is_replicated_iff index n = rw (length-holders (pos index) n.match_index) (ground arith)

-- An entry that may be committed: of the current term, and on a majority of the nodes.
abbrev pub IsCommittable : ℕ → Node → Type 0
IsCommittable index n =
    (e : LogEntry) × (get_elem? n.log index ≡ some e)
    × (e.term ≡ n.current_term)
    × HeldByMajority index n

-- The index of the result, or the reason that there is none.
abbrev pub Advances : Node → Option Node → Type 0
Advances n result =
    ((index : ℕ) × (result ≡ some (commit_to (pos index) n))
      × IsCommittable index n
      × (n.commit_index <ℤ pos index)
      × ((j : ℕ) → index < j → ¬ IsCommittable j n))
    ⊎ ((result ≡ some n) × ((j : ℕ) → n.commit_index <ℤ pos j → ¬ IsCommittable j n))

module _ (n : Node) (index : ℕ) (e : LogEntry) (got : get_elem? n.log index ≡ some e) where
  -- One round of the loop above the commit index, by whether it may commit.
  round_commits :
      n.commit_index <ℤ pos index
      → IsCommittable index n
      → advance_from (suc index) n ≡ some (commit_to (pos index) n)
  unfolding advance_from
  round_commits higher (e', got', current, majority) =
      ground (arith, got, got', (is_replicated_iff index n).1 majority)

  round_skips :
      n.commit_index <ℤ pos index
      → ¬ IsCommittable index n
      → advance_from (suc index) n ≡ advance_from index n
  unfolding advance_from
  round_skips higher not_yet =
      let fails : e.term ≡ n.current_term → is_replicated (pos index) n ≢ true =
        λ same held. not_yet (e, got, same, (is_replicated_iff index n).0 held) in
      rw got (ground (arith, fails))

round_stops :
    (n : Node) (index : ℕ) → pos index ≤ℤ n.commit_index → advance_from (suc index) n ≡ some n
unfolding advance_from
round_stops n index low = ground arith

dec-IsCommittable : (n : Node) (index : ℕ) → Dec (IsCommittable index n)
dec-IsCommittable n index = elim (Option-cases (get_elem? n.log index)) [
  | inl nothing ↦ no λ (c : IsCommittable index n). cc (nothing, c.1)
  | inr (e, got) ↦ elim (ℕ_discrete e.term n.current_term) [
    | no differ ↦ no λ (c : IsCommittable index n). differ (ground (arith, got, c.1, c.2))
    | yes same ↦
        elim (dec_lt (length n.peers + 1) (2 * (1 + length (holders (pos index) n.match_index)))) [
          | yes held ↦ yes (e, got, same, held)
          | no few ↦ no λ c. few c.3
        ]
  ]
]

module _ (n : Node) (from : minus_one ≤ℤ n.commit_index) where
  advance_from-Advances :
      (k : ℕ)
      → k ≤ length n.log
      → ((j : ℕ) → k ≤ j → ¬ IsCommittable j n)
      → Advances n (advance_from k n)
  advance_from-Advances zero inside above =
      inr (unfold advance_from in ground arith, λ j _. above j (omega arith))
  advance_from-Advances (suc index) inside above =
      let (e, got) = get_elem?_lt index n.log inside in
      let below = advance_from-Advances index (omega arith) in
      elim (dec_lt (pos_part n.commit_index) (index + neg_part n.commit_index)) [
        | no low ↦ inr (round_stops n index (omega arith), λ j higher. above j (omega arith))
        | yes higher ↦ elim (dec-IsCommittable n index) [
          | yes c ↦ inl (index, round_commits n index e got (omega arith) c, c, omega arith, above)
          | no not_yet ↦ rw (round_skips n index e got (omega arith) not_yet) (
              below λ j from_here c. elim (ℕ_discrete j index) [
                | yes here ↦ not_yet (subst (λ i. IsCommittable i n) here c)
                | no past ↦ above j (omega arith) c
              ])
        ]
      ]

-- From a commit index of -1 or more, `advanceCommitIndex` does not panic. It commits the highest index
-- whose entry is of the current term and known to be on a majority of the nodes, if that is above the
-- commit index, and otherwise changes nothing.
pub advance_commit_index-Advances :
    (n : Node) → minus_one ≤ℤ n.commit_index → Advances n (advance_commit_index n)
unfolding advance_commit_index
advance_commit_index-Advances n from =
    advance_from-Advances n from (length n.log) (omega arith)
      λ j past c. absurd (omega (arith, lt_of_get_elem? j n.log c.0 c.1))
