-- ===== src/Examples/Files.antt =====
-- The log file, with a small encoding in the place of gob and crc32: a term, and a length.
use orris.Prelude.{
  ℕ, ◌≡◌, ◌<◌, ◌%◌, ◌^◌, refl, Option, none, some, List, [], ◌∷◌, ◌++◌, arith, length, ◌>>=◌, take,
  foldl, if◌then◌else◌,
}
use orris.Storage.{WalRecord, record_state, zero_record}
use orris.Storage.Wal.{Codec, Bytes, open_wal, header, frame, read_all, put_uint32}
use orris.Storage.Wal.Framing.{IsWritable}
use orris.Storage.Wal.RoundTrip.{
  frames, append_all, AllWritable, read_all-append_all, read_all_torn, read_all_corrupt,
}
use orris.Storage.Wal.Refines.{Use, appends, closes, on_wal, on_journal, new_journal, read_all-uses}

abbrev at_term : ℕ → WalRecord
at_term term = record (zero_record record_state) { term = term }

abbrev decode_term : Bytes → Option WalRecord
decode_term (term ∷ []) = some (at_term term)
decode_term _ = none

abbrev first_byte : Bytes → ℕ
first_byte [] = 7
first_byte (byte ∷ _) = byte % 2 ^ 32

first_byte_bound : (bytes : Bytes) → first_byte bytes < 2 ^ 32
first_byte_bound [] = omega arith
first_byte_bound (byte ∷ _) = omega arith

abbrev small_codec : Codec
small_codec = record {
  encode = λ r. r.term ∷ [];
  decode = decode_term;
  checksum = first_byte;
  checksum_bound = first_byte_bound;
}

at_term-IsWritable : (term : ℕ) → IsWritable small_codec (at_term term)
at_term-IsWritable term = record { decodes = refl; short = omega arith }

abbrev two_records : List WalRecord
two_records = at_term 1 ∷ at_term 2 ∷ []

two_records-AllWritable : AllWritable small_codec two_records
two_records-AllWritable = (at_term-IsWritable 1, (at_term-IsWritable 2, tt))

read_all-append_all_example :
    (append_all small_codec (open_wal none) two_records >>= read_all small_codec) ≡ some two_records
read_all-append_all_example = read_all-append_all small_codec two_records two_records-AllWritable

torn_inside : 3 < length (frame small_codec (at_term 5))
unfolding frame header put_uint32
torn_inside = omega arith

-- The machine stopped after three of the nine bytes of a third record.
read_all_torn_example :
    read_all small_codec
      (open_wal (some (frames small_codec two_records ++ take 3 (frame small_codec (at_term 5)))))
    ≡ some two_records
read_all_torn_example =
    read_all_torn small_codec two_records (at_term 5) 3 two_records-AllWritable
      (at_term-IsWritable 5) torn_inside

-- The payload of the third record became another byte; the record appended after it is lost.
read_all_corrupt_example :
    (append_all small_codec
        (open_wal
          (some (frames small_codec two_records ++ (header small_codec (at_term 5) ++ 6 ∷ []))))
        (at_term 8 ∷ [])
      >>= read_all small_codec)
    ≡ some two_records
read_all_corrupt_example =
    read_all_corrupt small_codec two_records (at_term 8 ∷ []) (at_term 5) (6 ∷ [])
      two_records-AllWritable (at_term-IsWritable 5) (λ e. absurd (omega (arith, e)))

abbrev some_uses : List Use
some_uses = appends (at_term 1) ∷ appends (at_term 2) ∷ closes ∷ appends (at_term 3) ∷ []

read_all-uses_example :
    read_all small_codec (foldl (on_wal small_codec) (open_wal none) some_uses)
    ≡ (let j = foldl on_journal new_journal some_uses in if j.is_open then some j.records else none)
read_all-uses_example =
    read_all-uses small_codec some_uses
      (at_term-IsWritable 1, (at_term-IsWritable 2, (at_term-IsWritable 3, tt)))
