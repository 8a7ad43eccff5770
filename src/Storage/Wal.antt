-- ===== src/Storage/Wal.antt =====
pub mod Framing
pub mod RoundTrip
pub mod Refines
-- The file of internal/storage/wal.go as its bytes, the write position at the end. Each record is
-- framed as four bytes of length, four bytes of checksum, and the payload.
-- gob and crc32 are not part of the repository: they are the fields of a `Codec`. The operating
-- system's reads, writes and syncs of an open file are taken to succeed.
use orris.Prelude.{
  ℕ, zero, suc, ◌+◌, ◌*◌, ◌/◌, ◌%◌, ◌^◌, ◌<◌, ◌≡◌, Option, none, some, List, [], ◌∷◌, ◌++◌, ltb,
  ◌==◌, nat_eq, if◌then◌else◌, ◌>>=◌, length, take, drop,
}
use orris.Storage.Records.{WalRecord}

abbrev pub Bytes : Type 0
Bytes = List ℕ

-- A checksum is a uint32; what gob guarantees is `Framing.IsWritable`.
pub record Codec : Type 0 where
  pub encode : WalRecord → Bytes
  pub decode : Bytes → Option WalRecord
  pub checksum : Bytes → ℕ
  pub checksum_bound : (bytes : Bytes) → checksum bytes < 2 ^ 32

-- `file` is none once the log is closed.
pub record Wal : Type 0 where
  pub file : Option Bytes

-- `open_wal contents`: the file is created empty if it is missing, and written at its end.
unfoldable pub open_wal : Option Bytes → Wal
open_wal none = record { file = some [] }
open_wal (some contents) = record { file = some contents }

unfoldable pub close : Wal → Wal
close w = record { file = none }

-- binary.BigEndian.PutUint32 of a uint32, and Uint32.
unfoldable pub put_uint32 : ℕ → Bytes
put_uint32 n = n / 16777216 % 256 ∷ n / 65536 % 256 ∷ n / 256 % 256 ∷ n % 256 ∷ []

unfoldable pub uint32 : Bytes → ℕ
uint32 (a ∷ b ∷ c ∷ d ∷ _) = a * 16777216 + b * 65536 + c * 256 + d
uint32 _ = 0

module _ (codec : Codec) where
  -- The eight bytes before a payload; `uint32(len(data))` wraps around.
  unfoldable pub header : WalRecord → Bytes
  header rec =
      put_uint32 (length (codec.encode rec) % 2 ^ 32)
      ++ put_uint32 (codec.checksum (codec.encode rec))

  -- The bytes that one record adds to the file.
  unfoldable pub frame : WalRecord → Bytes
  unfolding header
  frame rec = header rec ++ codec.encode rec

  -- none is os.ErrClosed.
  unfoldable pub append : Wal → WalRecord → Option Wal
  append w rec = do contents ← w.file; some (record { file = some (contents ++ frame rec) })

  -- The payload behind a header: the record and the bytes after it, or none where the loop ends
  -- because the payload is incomplete, does not have its checksum, or does not decode.
  pub read_payload : ℕ → ℕ → Bytes → Option (WalRecord × Bytes)
  read_payload size expected rest =
      if ltb (length rest) size
      then none
      else if codec.checksum (take size rest) == expected
      then (do rec ← codec.decode (take size rest); some (rec, drop size rest))
      else none

  -- One round of the loop of `ReadAll`, at the unread bytes.
  pub read_record : Bytes → Option (WalRecord × Bytes)
  read_record bytes =
      if ltb (length bytes) 8
      then none
      else let size = uint32 (take 4 bytes) in
        let expected = uint32 (take 4 (drop 4 bytes)) in read_payload size expected (drop 8 bytes)

  -- Each round reads at least a header, so there are no more rounds than bytes.
  pub read_records : ℕ → Bytes → List WalRecord
  read_records zero bytes = []
  read_records (suc fuel) bytes = elim (read_record bytes) [
    | none ↦ []
    | some (rec, rest) ↦ rec ∷ read_records fuel rest
  ]

  -- none is os.ErrClosed. The write position is put back at the end, where `Wal` always has it.
  unfoldable pub read_all : Wal → Option (List WalRecord)
  unfolding read_records read_record read_payload
  read_all w = do contents ← w.file; some (read_records (suc (length contents)) contents)
