-- ===== src/Buffer/Segment/Trailer.antt =====
-- internal/buffer/segment.go: readFooter on records, their directory and a trailer that agrees with both.
use retrosampler.Prelude.{ℕ, ◌+◌, ◌-◌, ◌*◌, ◌^◌, ◌<◌, ◌≡◌, refl, sym, arith, List, ◌++◌}
use retrosampler.Prelude.{append_assoc, some, length, take, drop, All}
use retrosampler.Prelude.{length-append, take-length, take-length_append, drop-length_append}
use retrosampler.Prelude.Bytes.{Bytes, le_bytes, length-le_bytes, le_value-le_bytes}
use retrosampler.Prelude.Ints.{pos}
use retrosampler.Buffer.Segment.Writer.{DirEntry, seg_magic, dir_entry_len, trailer_len}
use retrosampler.Buffer.Segment.Writer.{encode_dir, encode_trailer, i64_from_u64}
use retrosampler.Buffer.Segment.Reader.{read_dir, read_trailer, read_footer}
use retrosampler.Buffer.Segment.Entries.{IsEntry, field, length-encode_dir, decode-encode_dir}

module _ (a b c d e : ℕ) where
  length-encode_trailer : length (encode_trailer a b c d e) ≡ trailer_len
  unfolding encode_trailer
  length-encode_trailer = simp (length-append, length-le_bytes)

  -- The fields of the trailer, at the offsets of the reader.
  count_field : take 4 (drop 8 (encode_trailer a b c d e)) ≡ le_bytes 4 b
  unfolding encode_trailer
  count_field =
      field 8 4 (le_bytes 8 a) (le_bytes 4 b) _ (length-le_bytes 8 a) (length-le_bytes 4 b)

  t_min_field : take 8 (drop 12 (encode_trailer a b c d e)) ≡ le_bytes 8 c
  unfolding encode_trailer
  t_min_field =
      let front = le_bytes 8 a ++ le_bytes 4 b in
      let back = le_bytes 8 d ++ (le_bytes 4 e ++ le_bytes 4 seg_magic) in
      let split : encode_trailer a b c d e ≡ front ++ (le_bytes 8 c ++ back) = simp append_assoc in
      rw split (
        field 12 8 front (le_bytes 8 c) back (simp (length-append, length-le_bytes))
          (length-le_bytes 8 c))

  t_max_field : take 8 (drop 20 (encode_trailer a b c d e)) ≡ le_bytes 8 d
  unfolding encode_trailer
  t_max_field =
      let front = le_bytes 8 a ++ (le_bytes 4 b ++ le_bytes 8 c) in
      let back = le_bytes 4 e ++ le_bytes 4 seg_magic in
      let split : encode_trailer a b c d e ≡ front ++ (le_bytes 8 d ++ back) = simp append_assoc in
      rw split (
        field 20 8 front (le_bytes 8 d) back (simp (length-append, length-le_bytes))
          (length-le_bytes 8 d))

  crc_field : take 4 (drop 28 (encode_trailer a b c d e)) ≡ le_bytes 4 e
  unfolding encode_trailer
  crc_field =
      let front = le_bytes 8 a ++ (le_bytes 4 b ++ (le_bytes 8 c ++ le_bytes 8 d)) in
      let split : encode_trailer a b c d e ≡ front ++ (le_bytes 4 e ++ le_bytes 4 seg_magic) =
        simp append_assoc in
      rw split (
        field 28 4 front (le_bytes 4 e) _ (simp (length-append, length-le_bytes))
          (length-le_bytes 4 e))

  magic_field : take 4 (drop 32 (encode_trailer a b c d e)) ≡ le_bytes 4 seg_magic
  unfolding encode_trailer
  magic_field =
      let front =
        le_bytes 8 a ++ (le_bytes 4 b ++ (le_bytes 8 c ++ (le_bytes 8 d ++ le_bytes 4 e))) in
      let split : encode_trailer a b c d e ≡ front ++ le_bytes 4 seg_magic = simp append_assoc in
      rw
        (
          split,
          drop-length_append 32 front (le_bytes 4 seg_magic)
              (simp (length-append, length-le_bytes)),
        )
        (take-length 4 _ (length-le_bytes 4 seg_magic))

  off_field : take 8 (encode_trailer a b c d e) ≡ le_bytes 8 a
  unfolding encode_trailer
  off_field = take-length_append 8 (le_bytes 8 a) _ (length-le_bytes 8 a)

i64_fits : (n : ℕ) → n < 2 ^ 63 → i64_from_u64 n ≡ some (pos n)
unfolding i64_from_u64
i64_fits n h = ground arith

module _ (checksum : Bytes → ℕ) where
  -- A trailer that agrees with the file gives the stored times and the directory.
  read_trailer_lem :
      (file : Bytes) (off count t_min t_max crc : ℕ) (es : List DirEntry)
      → off < 2 ^ 63
      → count < 2 ^ 32
      → t_min < 2 ^ 63
      → t_max < 2 ^ 63
      → crc < 2 ^ 32
      → off + count * dir_entry_len + trailer_len ≡ length file
      → read_dir checksum file off count crc ≡ some es
      → read_trailer checksum file (encode_trailer off count t_min t_max crc)
        ≡ some (record { gen = 0; t_min = pos t_min; t_max = pos t_max; size = 0; entries = es })
  unfolding read_trailer
  read_trailer_lem file off count t_min t_max crc es h1 h2 h3 h4 h5 fit dir =
      rw
        (
          magic_field off count t_min t_max crc,
          t_min_field off count t_min t_max crc,
          t_max_field off count t_min t_max crc,
          off_field off count t_min t_max crc,
          count_field off count t_min t_max crc,
          crc_field off count t_min t_max crc,
          le_value-le_bytes 4 seg_magic (omega arith),
          le_value-le_bytes 8 t_min (omega arith),
          le_value-le_bytes 8 t_max (omega arith),
          le_value-le_bytes 8 off (omega arith),
          le_value-le_bytes 4 count (omega arith),
          le_value-le_bytes 4 crc (omega arith),
          i64_fits t_min h3,
          i64_fits t_max h4,
          i64_fits off h1,
          dir,
        )
        (ground arith)

  -- The directory behind `off` bytes of records is read back, if its checksum is the one given.
  read_dir_lem :
      (front back : Bytes) (es : List DirEntry)
      → All IsEntry es
      → read_dir checksum
          (front ++ (encode_dir es ++ back))
          (length front)
          (length es)
          (checksum (encode_dir es))
        ≡ some es
  unfolding read_dir
  read_dir_lem front back es h =
      rw
        (
          field (length front) (length es * dir_entry_len) front (encode_dir es) back refl
              (length-encode_dir es h),
          decode-encode_dir es h,
        )
        (ground arith)

  module _ (is_u32 : (bs : Bytes) → checksum bs < 2 ^ 32) (front : Bytes) (es : List DirEntry)
      (lo hi : ℕ) where
    abbrev pub trailer : Bytes
    trailer = encode_trailer (length front) (length es) lo hi (checksum (encode_dir es))

    abbrev pub file : Bytes
    file = front ++ (encode_dir es ++ trailer)

    length-file :
        All IsEntry es → length file ≡ length front + length es * dir_entry_len + trailer_len
    length-file h = omega (
      arith,
      length-append front (encode_dir es ++ trailer),
      length-append (encode_dir es) trailer,
      length-encode_dir es h,
      length-encode_trailer (length front) (length es) lo hi (checksum (encode_dir es)),
    )

    drop-file : All IsEntry es → drop (length file - trailer_len) file ≡ trailer
    drop-file h = rw (← append_assoc front (encode_dir es) trailer) (
        drop-length_append _ (front ++ encode_dir es) trailer (
          omega (
            arith,
            length-append (front ++ encode_dir es) trailer,
            length-encode_trailer (length front) (length es) lo hi (checksum (encode_dir es)),
          )))

    -- A file of records, their directory and a trailer that agrees with both is read back.
    pub read_footer_lem :
        All IsEntry es
        → length front < 2 ^ 62
        → length es < 2 ^ 32
        → lo < 2 ^ 63
        → hi < 2 ^ 63
        → read_footer checksum file
          ≡ some (record { gen = 0; t_min = pos lo; t_max = pos hi; size = 0; entries = es })
    unfolding read_footer
    read_footer_lem h small few hlo hhi =
        rw
          (
            drop-file h,
            read_trailer_lem file (length front) (length es) lo hi (checksum (encode_dir es)) es
                (omega arith) few hlo hhi (is_u32 (encode_dir es)) (sym (length-file h))
                (read_dir_lem front trailer es h),
          )
          (ground (arith, length-file h))
