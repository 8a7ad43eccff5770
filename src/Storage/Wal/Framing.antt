-- ===== src/Storage/Wal/Framing.antt =====
-- One frame of the log file, read back.
use mathlib.Core.List.{append_assoc}
use orris.Prelude.{
  ℕ, ◌%◌, ◌^◌, ◌<◌, ◌≡◌, none, some, [], ◌++◌, arith, nat_eq, length, take, length-append,
  take-append, drop-append,
}
use orris.Storage.Records.{WalRecord}
use orris.Storage.Wal.{Codec, Bytes, put_uint32, uint32, header, frame, read_record, read_payload}

pub uint32-put_uint32 : (n : ℕ) (rest : Bytes) → n < 2 ^ 32 → uint32 (put_uint32 n ++ rest) ≡ n
unfolding uint32 put_uint32
uint32-put_uint32 n rest h = omega arith

module _ (codec : Codec) where
  -- A header is read back, whatever stands behind it.
  pub read_record_header :
      (size expected : ℕ) (body : Bytes)
      → size < 2 ^ 32
      → expected < 2 ^ 32
      → read_record codec (put_uint32 size ++ (put_uint32 expected ++ body))
        ≡ read_payload codec size expected body
  unfolding read_record put_uint32
  read_record_header size expected body hs he =
      let e₁ : uint32 (put_uint32 size) ≡ size = uint32-put_uint32 size [] hs in
      let e₂ : uint32 (put_uint32 expected) ≡ expected = uint32-put_uint32 expected [] he in
      ground (arith, e₁, e₂)

  -- gob decodes what it encoded, and the payload is shorter than 4 GiB.
  pub record IsWritable (r : WalRecord) : Type 0 where
    pub decodes : codec.decode (codec.encode r) ≡ some r
    pub short : length (codec.encode r) < 2 ^ 32

  pub read_payload_encode :
      (r : WalRecord) (rest : Bytes)
      → IsWritable r
      → read_payload codec
          (length (codec.encode r))
          (codec.checksum (codec.encode r))
          (codec.encode r ++ rest)
        ≡ some (r, rest)
  unfolding read_payload
  read_payload_encode r rest h =
      rw (take-append (codec.encode r) rest, drop-append (codec.encode r) rest, h.decodes)
        (ground (arith, length-append (codec.encode r) rest))

  pub read_record-frame :
      (r : WalRecord) (rest : Bytes)
      → IsWritable r
      → read_record codec (frame codec r ++ rest) ≡ some (r, rest)
  unfolding frame
  read_record-frame r rest h =
      let fits : length (codec.encode r) % 2 ^ 32 ≡ length (codec.encode r) =
        omega (arith, h.short) in
      rw (
        fits,
        append_assoc,
        append_assoc,
        read_record_header _ _ (codec.encode r ++ rest) h.short
            (codec.checksum_bound (codec.encode r)),
        read_payload_encode r rest h,
      )

  -- Nothing is read where the bytes end early, or where the checksum is not the header's.
  pub read_record_broken :
      (r : WalRecord) (body : Bytes)
      → IsWritable r
      → (codec.checksum (take (length (codec.encode r)) body) ≡ codec.checksum (codec.encode r)
          → length body < length (codec.encode r))
      → read_record codec (header codec r ++ body) ≡ none
  unfolding header read_payload
  read_record_broken r body h bad =
      let fits : length (codec.encode r) % 2 ^ 32 ≡ length (codec.encode r) =
        omega (arith, h.short) in
      rw
        (
          fits,
          append_assoc,
          read_record_header _ _ body h.short (codec.checksum_bound (codec.encode r)),
          read_payload,
        )
        (ground (arith, bad))
