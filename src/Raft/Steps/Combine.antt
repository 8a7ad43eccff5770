-- ===== src/Raft/Steps/Combine.antt =====
-- Invariants of a node put together from others.
use orris.Prelude.{Option, none, some}
use orris.Raft.State.{Node}
use orris.Raft.Append.Invariant.{Ensures}
use orris.Raft.Apply.{apply_next}
use orris.Raft.Steps.Keeps.{Keeps}

module _ (P Q : Node → Type 0) where
  Ensures-both : (o : Option Node) → Ensures P o → Ensures Q o → Ensures (λ n. P n × Q n) o
  Ensures-both none p q = tt
  Ensures-both (some n) p q = (p, q)

  pub Keeps-both : Keeps P → Keeps Q → Keeps (λ n. P n × Q n)
  Keeps-both k l = record {
    stepped = λ term n newer h. (k.stepped term n newer h.0, l.stepped term n newer h.1);
    adopted = λ req n le h. (k.adopted req n le h.0, l.adopted req n le h.1);
    voted = λ req n h. (k.voted req n h.0, l.voted req n h.1);
    pushed = λ e n h. (k.pushed e n h.0, l.pushed e n h.1);
    cut = λ i n other h. (k.cut i n other h.0, l.cut i n other h.1);
    committed = λ index n above h. (k.committed index n above h.0, l.committed index n above h.1);
    fired = λ n h. (k.fired n h.0, l.fired n h.1);
    armed = λ n h. (k.armed n h.0, l.armed n h.1);
    indexed = λ next match n h. (k.indexed next match n h.0, l.indexed next match n h.1);
    applied = λ n h. Ensures-both (apply_next n) (k.applied n h.0) (l.applied n h.1);
    restarted = λ n h. (k.restarted n h.0, l.restarted n h.1);
  }

module _ (X : Type 0) (P : X → Node → Type 0) where
  Ensures-each : (o : Option Node) → ((x : X) → Ensures (P x) o) → Ensures (λ n. (x : X) → P x n) o
  Ensures-each none p = tt
  Ensures-each (some n) p = p

  pub Keeps-each : ((x : X) → Keeps (P x)) → Keeps (λ n. (x : X) → P x n)
  Keeps-each k = record {
    stepped = λ term n newer h x. (k x).stepped term n newer (h x);
    adopted = λ req n le h x. (k x).adopted req n le (h x);
    voted = λ req n h x. (k x).voted req n (h x);
    pushed = λ e n h x. (k x).pushed e n (h x);
    cut = λ i n other h x. (k x).cut i n other (h x);
    committed = λ index n above h x. (k x).committed index n above (h x);
    fired = λ n h x. (k x).fired n (h x);
    armed = λ n h x. (k x).armed n (h x);
    indexed = λ next match n h x. (k x).indexed next match n (h x);
    applied = λ n h. Ensures-each (apply_next n) (λ x. (k x).applied n (h x));
    restarted = λ n h x. (k x).restarted n (h x);
  }
