-- ===== src/Storage/Wal/RoundTrip.antt =====
-- What `ReadAll` finds in a file that appends have left, whole or damaged.
use mathlib.Core.List.{append_assoc, append-nil}
use native.Mathlib.Decide.{dec_lt}
use orris.Prelude.{
  ◌-◌, ◌+◌, length-take, take-append_right, ℕ, zero, suc, ◌≤◌, ◌<◌, ◌≡◌, ◌≢◌, take, refl, Option,
  none, some, List, [], ◌∷◌, ◌++◌, arith, length, length-append, ap, ◌>>=◌,
}
use orris.Storage.Records.{WalRecord}
use orris.Storage.Wal.{
  Codec, Bytes, Wal, open_wal, put_uint32, header, frame, append, read_record, read_records,
  read_all,
}
use orris.Storage.Wal.Framing.{IsWritable, read_record-frame, read_record_broken}

module _ (codec : Codec) where
  -- The file that a sequence of appends leaves.
  abbrev pub frames : List WalRecord → Bytes
  frames [] = []
  frames (r ∷ rs) = frame codec r ++ frames rs

  abbrev pub AllWritable : List WalRecord → Type 0
  AllWritable [] = Unit
  AllWritable (r ∷ rs) = IsWritable codec r × AllWritable rs

  -- Appends in a row; none is os.ErrClosed.
  abbrev pub append_all : Wal → List WalRecord → Option Wal
  append_all w [] = some w
  append_all w (r ∷ rs) = append codec w r >>= λ w'. append_all w' rs

  eight-le-frame : (r : WalRecord) → 8 ≤ length (frame codec r)
  unfolding frame put_uint32
  eight-le-frame r = omega arith

  read_records-frames :
      (fuel : ℕ) (rs : List WalRecord) (tail : Bytes)
      → length (frames rs ++ tail) < fuel
      → AllWritable rs
      → read_record codec tail ≡ none
      → read_records codec fuel (frames rs ++ tail) ≡ rs
  unfolding read_records
  read_records-frames zero rs tail h short broken = absurd (omega arith)
  read_records-frames (suc fuel) [] tail h short broken = rw (broken, read_records)
  read_records-frames (suc fuel) (r ∷ rs) tail h short broken =
      let assoc : (frame codec r ++ frames rs) ++ tail ≡ frame codec r ++ (frames rs ++ tail) =
        append_assoc (frame codec r) (frames rs) tail in
      let less : length (frames rs ++ tail) < fuel = omega (
        arith,
        eight-le-frame r,
        length-append (frame codec r) (frames rs ++ tail),
        ap length assoc,
      ) in
      rw (assoc, read_record-frame codec r (frames rs ++ tail) short.0, read_records)
        (ap (◌∷◌ r) (read_records-frames fuel rs tail less short.1 broken))

  pub read_all-frames :
      (rs : List WalRecord) (tail : Bytes)
      → AllWritable rs
      → read_record codec tail ≡ none
      → read_all codec (open_wal (some (frames rs ++ tail))) ≡ some rs
  unfolding read_all open_wal
  read_all-frames rs tail short broken =
      ap some
        (read_records-frames (suc (length (frames rs ++ tail))) rs tail (omega arith) short broken)

  read_record-nil : read_record codec [] ≡ none
  unfolding read_record
  read_record-nil = refl

  append_all-frames :
      (rs : List WalRecord) (contents : Bytes)
      → append_all (record { file = some contents }) rs
        ≡ some (record { file = some (contents ++ frames rs) })
  unfolding append
  append_all-frames [] contents = rw append-nil
  append_all-frames (r ∷ rs) contents =
      rw (append_all-frames rs (contents ++ frame codec r), append_assoc)

  pub read_all-opened :
      (rs : List WalRecord)
      → AllWritable rs
      → read_all codec (record { file = some (frames rs) }) ≡ some rs
  unfolding open_wal
  read_all-opened rs short =
      rw (← append-nil (frames rs)) (read_all-frames rs [] short read_record-nil)

  pub frames-append : (rs qs : List WalRecord) → frames (rs ++ qs) ≡ frames rs ++ frames qs
  frames-append [] qs = refl
  frames-append (r ∷ rs) qs = rw (frames-append rs qs, append_assoc)

  pub AllWritable-append :
      (rs qs : List WalRecord) → AllWritable rs → AllWritable qs → AllWritable (rs ++ qs)
  AllWritable-append [] qs hr hq = hq
  AllWritable-append (r ∷ rs) qs hr hq = (hr.0, AllWritable-append rs qs hr.1 hq)

  -- On a new log file, any appends of writable records succeed, and
  -- `ReadAll` then returns exactly these records in order.
  pub read_all-append_all :
      (rs : List WalRecord)
      → AllWritable rs
      → (append_all (open_wal none) rs >>= read_all codec) ≡ some rs
  unfolding open_wal
  read_all-append_all rs short = rw (append_all-frames rs []) (read_all-opened rs short)

  read_record_short : (bytes : Bytes) → length bytes < 8 → read_record codec bytes ≡ none
  unfolding read_record
  read_record_short bytes h = ground arith

  length-header : (r : WalRecord) → length (header codec r) ≡ 8
  unfolding header put_uint32
  length-header r = refl

  read_record_torn :
      (r : WalRecord) (k : ℕ)
      → IsWritable codec r
      → k < length (frame codec r)
      → read_record codec (take k (frame codec r)) ≡ none
  unfolding frame
  read_record_torn r k h cut = elim (dec_lt k 8) [
    | yes few ↦ read_record_short _ (omega (arith, length-take k (frame codec r)))
    | no many ↦
        let body = take (k - 8) (codec.encode r) in
        let split : k ≡ length (header codec r) + (k - 8) = omega (arith, length-header r) in
        let missing : length body < length (codec.encode r) = omega (
          arith,
          length-take (k - 8) (codec.encode r),
          length-append (header codec r) (codec.encode r),
          length-header r,
        ) in
        rw (split, take-append_right (k - 8) (header codec r) (codec.encode r))
          (read_record_broken codec r body h (λ _. missing))
  ]

  -- A log that a crash has left after writing only the first bytes of a record's frame, fewer than all,
  -- is read up to the record before it.
  pub read_all_torn :
      (rs : List WalRecord) (r : WalRecord) (k : ℕ)
      → AllWritable rs
      → IsWritable codec r
      → k < length (frame codec r)
      → read_all codec (open_wal (some (frames rs ++ take k (frame codec r)))) ≡ some rs
  read_all_torn rs r k short h cut =
      read_all-frames rs (take k (frame codec r)) short (read_record_torn r k h cut)

  -- Where the bytes behind a record's header do not have the checksum that the header states, `ReadAll`
  -- returns the records before it, and nothing that is appended afterwards is ever read.
  pub read_all_corrupt :
      (rs later : List WalRecord) (r : WalRecord) (body : Bytes)
      → AllWritable rs
      → IsWritable codec r
      → codec.checksum (take (length (codec.encode r)) (body ++ frames later))
        ≢ codec.checksum (codec.encode r)
      → (append_all (open_wal (some (frames rs ++ (header codec r ++ body)))) later
          >>= read_all codec)
        ≡ some rs
  unfolding open_wal
  read_all_corrupt rs later r body short h bad =
      rw
        (
          append_all-frames later (frames rs ++ (header codec r ++ body)),
          append_assoc,
          append_assoc,
        )
        (unfold open_wal in
          read_all-frames rs _ short
            (read_record_broken codec r (body ++ frames later) h (λ e. absurd (bad e))))
