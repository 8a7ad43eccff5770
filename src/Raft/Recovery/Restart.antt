-- ===== src/Raft/Recovery/Restart.antt =====
-- A node that starts on a log: what it has applied.
use native.Mathlib.Decide.{dec_lt}
use Prim.Native.Nat.{min, max}
use orris.Prelude.{
  ℕ, suc, String, ◌≡◌, ◌≤◌, refl, sym, ap, ◌∙◌, length-drop, get_elem?_of_drop, lt_of_get_elem?,
  true, List, [], ◌∷◌, foldl, arith, length, drop, pos, minus_one, ◌+ℤ◌, ◌≤ℤ◌, leb_ℤ, pred_parts,
  succ_pred, pos_succ, Map, drop-cons,
}
use orris.Storage.{WalRecord, LogEntry}
use orris.Storage.Journal.{Journal}
use orris.Raft.State.{Node, Durable}
use orris.Raft.Apply.{apply_entry}
use orris.Raft.Apply.Prefix.{
  state_at, state_at-suc, state_at-zero, IsApplied, applied_to, IsApplied-eq,
}
use orris.Raft.Recovery.{
  recover_record, replay, replay_entries, recover_state, fresh_node, new_node,
}
use orris.Raft.Recovery.Restores.{IsRecoverable}

-- The replayed commit index never falls below its start.
recover_record_above :
    (d : Durable) (rec : WalRecord)
    → minus_one ≤ℤ d.commit_index
    → minus_one ≤ℤ (recover_record d rec).commit_index
unfolding recover_record
recover_record_above d rec h = ground arith

pub foldl-above :
    (recs : List WalRecord) (d : Durable)
    → minus_one ≤ℤ d.commit_index
    → minus_one ≤ℤ (foldl recover_record d recs).commit_index
foldl-above [] d h = h
foldl-above (rec ∷ recs) d h =
    foldl-above recs (recover_record d rec) (recover_record_above d rec h)

replay_entries-IsApplied :
    (rest : List LogEntry) (c i : ℕ) (n : Node)
    → rest ≡ drop i n.log
    → n.commit_index +ℤ pos 1 ≡ pos c
    → IsApplied i n
    → i ≤ length n.log
    → replay_entries i rest n ≡ applied_to (max i (min c (length n.log))) n
unfolding replay_entries
replay_entries-IsApplied [] c i n left hc h inside =
    let size : length n.log ≤ i = omega (arith, ap length left, length-drop i n.log) in
    let here : max i (min c (length n.log)) ≡ i = omega arith in rw here (sym (IsApplied-eq i n h))
replay_entries-IsApplied (e ∷ rest) c i n left hc h inside =
    let got = get_elem?_of_drop i n.log e rest (sym left) in
    let below = lt_of_get_elem? i n.log e got in
    elim (dec_lt i c) [
      | yes more ↦
          let m : Node = record n { last_applied = pos i; kv_store = apply_entry e n.kv_store } in
          let applied : IsApplied (suc i) m = record {
            index = pos_succ i;
            store = rw h.store (sym (state_at-suc i n.log e got));
          } in
          let test : leb_ℤ (pos i) n.commit_index ≡ true =
            ground (arith, pred_parts n.commit_index c hc) in
          let reached : max (suc i) (min c (length n.log)) ≡ max i (min c (length n.log)) =
            omega arith in
          let next : rest ≡ drop (suc i) n.log = cc (left, drop-cons i n.log e got) in
          rw (test, ← reached) (replay_entries-IsApplied rest c (suc i) m next hc applied below)
      | no done ↦
          let here : max i (min c (length n.log)) ≡ i = omega arith in
          rw here (ground (arith, pred_parts n.commit_index c hc, IsApplied-eq i n h))
    ]

module _ (id addr : String) (peers : Map String) (wal : Journal) (c : ℕ) where
  abbrev restored : Durable
  restored = replay wal.records

  abbrev reached : ℕ
  reached = min c (length restored.log)

  recovered :
      restored.commit_index +ℤ pos 1 ≡ pos c
      → new_node id addr peers wal
        ≡ record (applied_to reached
            (record (fresh_node id addr peers wal) { durable = restored })) {
              election_timer = true;
            }
  unfolding new_node recover_state ◌+ℤ◌
  recovered hc =
      let m : Node = record (fresh_node id addr peers wal) { durable = restored } in
      let start : IsApplied 0 m = record { index = refl; store = sym (state_at-zero m.log) } in
      let all : max 0 reached ≡ reached = omega arith in
      let replayed = replay_entries-IsApplied m.log c 0 m refl hc start (omega arith) in
      ap (λ (r : Node). record r { election_timer = true })
        (replayed ∙ ap (λ k. applied_to k m) all)

-- A node that starts on a log replays its records, and has applied the committed entries that its log holds:
-- `c` is the number of entries up to the restored commit index.
pub new_node-replay :
    (id addr : String) (peers : Map String) (wal : Journal) (c : ℕ)
    → (replay wal.records).commit_index +ℤ pos 1 ≡ pos c
    → ((new_node id addr peers wal).durable ≡ replay wal.records)
      × IsApplied (min c (length (replay wal.records).log)) (new_node id addr peers wal)
new_node-replay id addr peers wal c hc =
    let e = recovered id addr peers wal c hc in
    (
      ap (λ (r : Node). r.durable) e,
      rw e (record { index = succ_pred (reached id addr peers wal c); store = refl }),
    )

-- Such a node restores what an earlier node wrote, whatever part of its committed entries the earlier one
-- had applied: the term, the vote and the log are the same, the commit index is no lower, and the store is
-- the one that the committed entries of this log make.
pub restart_restores :
    (n : Node) (c : ℕ)
    → IsRecoverable n
    → (replay n.wal.records).commit_index +ℤ pos 1 ≡ pos c
    → let r = new_node n.id n.addr n.peers n.wal in
      (r.current_term ≡ n.current_term)
      × (r.voted_for ≡ n.voted_for)
      × (r.log ≡ n.log)
      × (n.commit_index ≤ℤ r.commit_index)
      × (r.kv_store ≡ state_at (min c (length n.log)) n.log)
restart_restores n c h hc =
    let (same, applied) = new_node-replay n.id n.addr n.peers n.wal c hc in
    let back = h.restores in
    let log : (new_node n.id n.addr n.peers n.wal).log ≡ n.log =
      ap (λ (d : Durable). d.log) same ∙ back.log in
    (
      ap (λ (d : Durable). d.current_term) same ∙ back.term,
      ap (λ (d : Durable). d.voted_for) same ∙ back.vote,
      log,
      rw same (back.commit),
      applied.store ∙ rw (log, back.log),
    )
