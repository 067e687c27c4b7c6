-- ===== src/Buffer/Record.antt =====
-- internal/buffer/record.go: the header of a record, `u32 fragLen | 16B traceID | u32 CRC32C(frag)`.
-- The section's `checksum` is crc32.Checksum over the Castagnoli table, a function of the bytes.
use retrosampler.Prelude.{ℕ, ◌-◌, ◌^◌, ◌<◌, ◌≡◌, ◌++◌, arith, append_assoc}
use retrosampler.Prelude.{ltb, if◌then◌else◌, length, take, drop, length-append}
use retrosampler.Prelude.{take-length, take-length_append, drop-length_append}
use retrosampler.Prelude.Bytes.{Bytes, le_bytes, le_value, length-le_bytes, le_value-le_bytes}

abbrev pub rec_header_len : ℕ
rec_header_len = 24

-- `n` is a length, so the test `n < 0` of the source never holds.
unfoldable pub len_u32 : ℕ → ℕ
len_u32 n = if ltb (2 ^ 32 - 1) n then 0 else n

pub len_u32_id : (n : ℕ) → n < 2 ^ 32 → len_u32 n ≡ n
unfolding len_u32
len_u32_id n h = ground arith

-- What parseRecordHeader returns.
pub record Header : Type 0 where
  pub frag_len : ℕ
  pub id : Bytes
  pub crc : ℕ

unfoldable pub parse_record_header : Bytes → Header
parse_record_header h = record {
  frag_len = le_value (take 4 h);
  id = take 16 (drop 4 h);
  crc = le_value (take 4 (drop 20 h));
}

module _ (checksum : Bytes → ℕ) where
  unfoldable pub put_record_header : Bytes → Bytes → Bytes
  put_record_header id frag =
      le_bytes 4 (len_u32 (length frag)) ++ (id ++ le_bytes 4 (checksum frag))

  pub length-put_record_header :
      (id frag : Bytes) → length id ≡ 16 → length (put_record_header id frag) ≡ rec_header_len
  unfolding put_record_header
  length-put_record_header id frag h = omega (
    arith,
    length-append (le_bytes 4 (len_u32 (length frag))) (id ++ le_bytes 4 (checksum frag)),
    length-append id (le_bytes 4 (checksum frag)),
    length-le_bytes 4 (len_u32 (length frag)),
    length-le_bytes 4 (checksum frag),
  )

  frag_len_bytes :
      (id frag : Bytes) → take 4 (put_record_header id frag) ≡ le_bytes 4 (len_u32 (length frag))
  unfolding put_record_header
  frag_len_bytes id frag =
      take-length_append 4 (le_bytes 4 (len_u32 (length frag))) _ (length-le_bytes 4 _)

  after_frag_len :
      (id frag : Bytes) → drop 4 (put_record_header id frag) ≡ id ++ le_bytes 4 (checksum frag)
  unfolding put_record_header
  after_frag_len id frag =
      drop-length_append 4 (le_bytes 4 (len_u32 (length frag))) _ (length-le_bytes 4 _)

  -- Behind the length and an id of 16 bytes stands the checksum.
  pub crc_bytes :
      (id frag : Bytes)
      → length id ≡ 16
      → drop 20 (put_record_header id frag) ≡ le_bytes 4 (checksum frag)
  unfolding put_record_header
  crc_bytes id frag h =
      let len_bytes = le_bytes 4 (len_u32 (length frag)) in
      rw (← append_assoc len_bytes id (le_bytes 4 (checksum frag))) (
        drop-length_append 20 (len_bytes ++ id) (le_bytes 4 (checksum frag))
          (omega (arith, length-append len_bytes id, length-le_bytes 4 (len_u32 (length frag)), h)))

  -- Parsing a header gives the length, the id and the checksum that were written, for an id of
  -- 16 bytes, a fragment shorter than 2 ^ 32 and a checksum that is a uint32.
  pub parse-put_record_header :
      (id frag : Bytes)
      → length id ≡ 16
      → length frag < 2 ^ 32
      → checksum frag < 2 ^ 32
      → parse_record_header (put_record_header id frag)
        ≡ record { frag_len = length frag; id = id; crc = checksum frag }
  unfolding parse_record_header len_u32
  parse-put_record_header id frag hid hfrag hsum =
      λ i. record { frag_len = len_path i; id = id_path i; crc = crc_path i }
    where
      len_path : le_value (take 4 (put_record_header id frag)) ≡ length frag
      len_path =
          rw (frag_len_bytes id frag, le_value-le_bytes 4 (len_u32 (length frag)) (ground arith))
            (ground arith)

      id_path : take 16 (drop 4 (put_record_header id frag)) ≡ id
      id_path = rw (after_frag_len id frag) (take-length_append 16 id _ hid)

      crc_path : le_value (take 4 (drop 20 (put_record_header id frag))) ≡ checksum frag
      crc_path =
          rw
            (
              crc_bytes id frag hid,
              take-length 4 (le_bytes 4 (checksum frag)) (length-le_bytes 4 _),
            )
            (le_value-le_bytes 4 (checksum frag) (omega arith))
