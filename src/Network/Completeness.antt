-- ===== src/Network/Completeness.antt =====
-- No leader is without what more than half of the nodes held in an earlier term.
use orris.Prelude.{
  ℕ, suc, String, Bool, true, ◌*◌, ◌≡◌, ◌≢◌, ◌≤◌, ◌<◌, inl, inr, refl, sym, ◌∙◌, subst, some, List,
  [], arith, nat_eq, tally, tally_overlap, length, get_elem?, Prefix, Prefix-nil,
}
use orris.Storage.{LogEntry}
use orris.Raft.Election.{is_leader}
use orris.Raft.Election.Winning.{has_majority-Majority}
use orris.Cluster.Invariant.{is_counted, is_granted, counted-granted}
use orris.Cluster.Moves.{Safe}
use orris.Cluster.Safety.{IsStart-Safe}
use orris.Network.{Network, Reach}
use orris.Network.Ledger.{Ledger, IsLogged-Prefix}
use orris.Network.Order.{IsOrdered-nil, whole}
use orris.Network.UpToDate.{Ends}
use orris.Network.Matching.{IsFresh, IsFresh-Inv, nothing}
use orris.Network.Lasting.{Chosen, Reach-Chosen, Chosen-leads}

module _ (size : ℕ) (name : ℕ → String) (named : (i : ℕ) → i < size → name i ≢ "")
    (distinct : (i j : ℕ) → i < size → j < size → name i ≡ name j → i ≡ j) (test : ℕ → Bool)
    (quorum : size < 2 * tally test (λ j. j) size) where
  -- A voter of an election is not before its term.
  voter-reached :
      (w : Network) (r j : ℕ)
      → Safe size name named w.cluster
      → r < w.cluster.races
      → j < size
      → is_granted ((w.cluster.race r).stage j) ≡ true
      → (w.cluster.race r).election.term ≤ (w.cluster.node j).current_term
  voter-reached w r j safe running less granted =
      let fair = safe.1.fair r running in
      let cast = fair.cast_for j less granted in
      ((safe.1.nodes j less).0.1.0 (
        (w.cluster.race r).election.term,
        λ none. named (w.cluster.race r).owner fair.owned (sym cast ∙ none),
      )).1.later

  -- More than half of the nodes are in the term and hold the text: from now on it is chosen.
  Chosen-held :
      (g : Ledger) (w : Network) (t p : ℕ) (L : List LogEntry) (e : LogEntry)
      → Chosen size name named distinct test quorum [] 0 (inl refl) g w
      → ((j : ℕ)
          → j < size
          → test j ≡ true
          → ((w.cluster.node j).current_term ≡ t) × Prefix L (w.cluster.node j).log)
      → (size_so : length L ≡ suc p) → (at_p : get_elem? L p ≡ some e) → (own : e.term ≡ t)
      → Chosen size name named distinct test quorum L t (inr (p, e, size_so, at_p, own)) g w
  Chosen-held g w t p L e h holds size_so at_p own = record {
    safe = h.safe;
    tied = h.tied;
    texts = record {
      ordered = h.texts.ordered;
      start =
          let (j, less, mine, _) =
            tally_overlap test test (λ j. j) (λ j. j) size (omega (arith, quorum)) in
          let logged =
            IsLogged-Prefix g L (w.cluster.node j).log (holds j less mine).1
              (h.tied.nodes.logged j less) in
          subst (λ u. Prefix L (g.text u)) own (whole g L p e logged size_so at_p);
      later = λ u above begun.
          let (i, _, (r, running, _, term, won), _) = h.tied.nodes.began u begun in
          let race = w.cluster.race r in
          let fair = h.safe.1.fair r running in
          let (j, less, mine, counted_j) =
            tally_overlap test is_counted (λ l. l) race.stage size
              (omega
                (arith, quorum, has_majority-Majority race.election won, fair.votes, fair.sized)) in
          let reached =
            voter-reached w r j h.safe running less (counted-granted (race.stage j) counted_j) in
          absurd (omega (arith, reached, above, term, (holds j less mine).0));
    };
    held = (
      λ i less. record {
        ordered = (h.held.0 i less).ordered;
        within = (h.held.0 i less).within;
        reached = λ mine. omega (arith, (holds i less mine).0);
        holds = λ mine. (holds i less mine).1;
      },
      λ r running.
          let bid = h.held.1 r running in
          record {
            log = bid.log;
            opened = bid.opened;
            standing = bid.standing;
            index = bid.index;
            term = bid.term;
            logged = bid.logged;
            before = bid.before;
            younger = bid.younger;
            ordered = bid.ordered;
            kept = λ j less mine granted above.
                let reached = voter-reached w r j h.safe running less granted in
                absurd (omega (arith, reached, above, (holds j less mine).0));
          },
    );
    backed = h.backed;
  }

  IsFresh-Chosen :
      (w : Network)
      → IsFresh size w
      → Safe size name named w.cluster
      → Chosen size name named distinct test quorum [] 0 (inl refl) nothing w
  IsFresh-Chosen w h safe = record {
    safe = safe;
    tied = IsFresh-Inv size w h;
    texts = record {
      ordered = IsOrdered-nil;
      start = Prefix-nil [];
      later = λ u above begun. absurd (cc);
    };
    held = (
      λ i less. record {
        ordered = rw (h.empty i less) (IsOrdered-nil (w.cluster.node i).current_term);
        within = λ leads. absurd (cc (leads, h.start.follows i less));
        reached = λ _. omega arith;
        holds = λ _. Prefix-nil (w.cluster.node i).log;
      },
      λ r running. absurd (omega (arith, h.start.none_yet)),
    );
    backed = λ k less. absurd (omega (arith, h.calls));
  }

-- Leader completeness: if at some moment more than half of the nodes are in term `t` with logs that begin
-- with `L`, whose last entry is of that term, then a node that leads, then or later, in this or a later term
-- has a log that begins with `L`. This is so whatever steps the network takes from a fresh start: elections
-- may overlap, requests may be lost, late or repeated, and nodes may crash and restart.
pub leader_completeness :
    (size : ℕ) (u v w : Network) (test : ℕ → Bool) (t p i : ℕ) (L : List LogEntry) (e : LogEntry)
    → IsFresh size u
    → Reach size u v
    → Reach size v w
    → size < 2 * tally test (λ j. j) size
    → ((j : ℕ)
        → j < size
        → test j ≡ true
        → ((v.cluster.node j).current_term ≡ t) × Prefix L (v.cluster.node j).log)
    → length L ≡ suc p
    → get_elem? L p ≡ some e
    → e.term ≡ t
    → i < size
    → is_leader (w.cluster.node i).state ≡ true
    → t ≤ (w.cluster.node i).current_term
    → Prefix L (w.cluster.node i).log
leader_completeness size u v w test t p i L e fresh before after quorum holds size_so at_p own less
      leads reached =
    let name = λ (l : ℕ). (u.cluster.node l).id in
    let named = fresh.start.named in
    let distinct = fresh.start.distinct in
    let first =
      IsFresh-Chosen size name named distinct test quorum u fresh
        (IsStart-Safe size u.cluster fresh.start) in
    let (g, h) =
      Reach-Chosen size name named distinct test quorum [] 0 (inl refl) u v nothing before first in
    let now =
      Chosen-held size name named distinct test quorum g v t p L e h holds size_so at_p own in
    let ends_so : Ends t L = inr (p, e, size_so, at_p, own) in
    let (g', h') = Reach-Chosen size name named distinct test quorum L t ends_so v w g after now in
    Chosen-leads size name named distinct test quorum L t ends_so g' w i h' less leads reached
