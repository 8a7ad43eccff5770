-- ===== src/Control/Start/Leaders.antt =====
-- The cluster that `clusterStart` starts, with the peers that every daemon reads from its flag.
use text.Mathlib.TextLemmas.{append_cancel_left, append-ne-nil_of_right_ne-nil}
use orris.Prelude.{ℕ, suc, ◌-◌, ◌<◌, ◌≡◌, sym, ◌∙◌, true, false, arith, pos}
use orris.Storage.Journal.{Journal}
use orris.Raft.State.{Node}
use orris.Raft.Election.{is_leader}
use orris.Raft.Recovery.{new_node}
use orris.Raft.Recovery.Restores.{IsRecoverable}
use orris.Raft.Steps.Recoverable.{new_node-IsRecoverable}
use orris.Raft.Steps.Member.{IsMember, new_node-IsMember}
use orris.Raft.Steps.Leads.{new_node-follows}
use orris.Control.Text.Decimal.{format_nat-inj, format_nat-not_empty}
use orris.Control.Start.{Launch, launch, parse_peers, peer_id}
use orris.Control.Start.Peers.{launch_knows_others, launch_named}
use orris.Cluster.{Cluster, Reach}
use orris.Cluster.Safety.{IsStart, election_safety}

-- `orrisd` with these arguments, on the log file of its directory, whose records can all be read.
unfoldable pub daemon : Launch → Journal → Node
daemon args wal = new_node args.id args.addr (parse_peers args.peers) wal

-- Every node of a cluster of `total` nodes has just been started. The nodes count from 0 here, and from 1 in their names.
abbrev pub IsLaunched : ℕ → Cluster → Type 0
IsLaunched total c =
    (c.races ≡ 0)
    × ((i : ℕ)
        → i < total
        → (wal : Journal) × (wal.is_open ≡ true)
          × (c.node i ≡ daemon (launch (pos (suc i)) total) wal))

module _ (total i : ℕ) (less : i < total) (wal : Journal) where
  abbrev args : Launch
  args = launch (pos (suc i)) total

  daemon-IsMember : IsMember (peer_id (suc i)) (total - 1) (daemon args wal)
  unfolding daemon
  daemon-IsMember =
      let (id, _) = launch_named (suc i) total in
      let (_, count) = launch_knows_others (suc i) total (omega arith) (omega arith) in
      let given = new_node-IsMember args.id args.addr (parse_peers args.peers) wal in
      record { named = given.named ∙ id; sized = given.sized ∙ omega (arith, count) }

  daemon-IsRecoverable : wal.is_open ≡ true → IsRecoverable (daemon args wal)
  unfolding daemon
  daemon-IsRecoverable opened =
      new_node-IsRecoverable args.id args.addr (parse_peers args.peers) wal opened

  daemon-follows : is_leader (daemon args wal).state ≡ false
  unfolding daemon
  daemon-follows = new_node-follows args.id args.addr (parse_peers args.peers) wal

module _ (total : ℕ) (c : Cluster) (launched : IsLaunched total c) where
  named : (i : ℕ) → i < total → (c.node i).id ≡ peer_id (suc i)
  named i less =
      let (wal, _, same) = launched.1 i less in rw same ((daemon-IsMember total i less wal).named)

  IsLaunched-IsStart : IsStart total c
  IsLaunched-IsStart = record {
    none_yet = launched.0;
    restores = λ i less.
        let (wal, opened, same) = launched.1 i less in
        rw same (daemon-IsRecoverable total i less wal opened);
    peers = λ i less.
        let (wal, _, same) = launched.1 i less in
        let member = daemon-IsMember total i less wal in rw same (omega (arith, member.sized));
    follows = λ i less.
        let (wal, _, same) = launched.1 i less in rw same (daemon-follows total i less wal);
    named = λ i less empty.
        append-ne-nil_of_right_ne-nil "node" (format_nat-not_empty (suc i))
          (sym (named i less) ∙ empty);
    distinct = λ i j i_less j_less same.
        let names = sym (named i i_less) ∙ same ∙ named j j_less in
        omega (arith, format_nat-inj (suc i) (suc j) (append_cancel_left "node" _ _ names));
  }

-- In a cluster that `clusterStart` starts, of any number of nodes and on open log files whose records can all be read, at most one
-- node is ever the leader of a term: a node that leads in a term, and one that leads in it then or later, are the same. Each
-- daemon reads its peers from its flag. Elections may overlap, messages may be lost, late or repeated, and nodes may crash
-- between any two steps and restart with the arguments of their first start, when every record that they have appended is
-- written whole.
pub launched_safety :
    (total : ℕ) (c d e : Cluster) (i j : ℕ)
    → IsLaunched total c
    → Reach total c d
    → Reach total d e
    → i < total
    → j < total
    → is_leader (d.node i).state ≡ true
    → is_leader (e.node j).state ≡ true
    → (d.node i).current_term ≡ (e.node j).current_term
    → i ≡ j
launched_safety total c d e i j launched =
    election_safety total c d e i j (IsLaunched-IsStart total c launched)
