-- ===== src/Buffer/Segment/Reader.antt =====
-- internal/buffer/segment.go: readFooter and scanRecords, over the bytes of a file.
use retrosampler.Prelude.{ℕ, zero, suc, ◌+◌, ◌-◌, ◌*◌, ◌%◌, ◌^◌, List, [], ◌∷◌, Option, none, some}
use retrosampler.Prelude.{ltb, leb, ◌==◌, if◌then◌else◌, length, take, drop}
use retrosampler.Prelude.Bytes.{Bytes, le_value}
use retrosampler.Prelude.Ints.{ℤ, pos_part}
use retrosampler.Prelude.Options.{◌>>=◌, ◌>>◌, require}
use retrosampler.Buffer.Record.{rec_header_len, len_u32, parse_record_header}
use retrosampler.Buffer.Segment.Writer.{DirEntry, seg_magic, dir_entry_len, trailer_len}
use retrosampler.Buffer.Segment.Writer.{max_record_len, i64_from_u64}

pub record SegMeta : Type 0 where
  pub gen : ℕ
  pub t_min : ℤ
  pub t_max : ℤ
  pub size : ℕ
  pub entries : List DirEntry

-- `r[0:n]` of io.ReadFull: none where fewer bytes are left.
unfoldable pub read_full : ℕ → Bytes → Option Bytes
read_full n bs = if ltb (length bs) n then none else some (take n bs)

unfoldable pub decode_entry : Bytes → DirEntry
decode_entry b = record {
  id = take 16 b;
  off = le_value (take 4 (drop 16 b));
  length = le_value (take 4 (drop 20 b));
}

unfoldable pub decode_dir : ℕ → Bytes → List DirEntry
decode_dir zero footer = []
decode_dir (suc n) footer =
    decode_entry (take dir_entry_len footer) ∷ decode_dir n (drop dir_entry_len footer)

module _ (checksum : Bytes → ℕ) where
  -- The body of the loop for one record: the fragment's length and the id, or none for a `break`.
  unfoldable pub read_record : Bytes → Option (ℕ × Bytes)
  read_record bs = do
    hdr ← read_full rec_header_len bs
    let h = parse_record_header hdr
    require (leb h.frag_len max_record_len)
    frag ← read_full h.frag_len (drop rec_header_len bs)
    require (checksum frag == h.crc)
    some (h.frag_len, h.id)

  -- The loop, on fuel, from the bytes at offset `off` on. The result is `entries` and `validEnd`.
  unfoldable pub scan_loop : ℕ → Bytes → ℕ → List DirEntry × ℕ
  scan_loop zero bs off = ([], off)
  scan_loop (suc fuel) bs off = elim (read_record bs) [
    | none ↦ ([], off)
    | some (n, id) ↦
        let r = scan_loop fuel (drop (rec_header_len + n) bs) (off + (rec_header_len + n)) in
        (record { id = id; off = len_u32 off; length = n } ∷ r.0, r.1)
  ]

  -- Each round takes 24 bytes at least, so a round for each byte is enough.
  unfoldable pub scan_records : Bytes → List DirEntry × ℕ
  scan_records file = scan_loop (length file) file 0

  -- The CRC and the directory, once the trailer is parsed.
  unfoldable pub read_dir : Bytes → ℕ → ℕ → ℕ → Option (List DirEntry)
  read_dir file footer_off count crc =
      let footer : Bytes = take (count * dir_entry_len) (drop footer_off file) in
      do require (checksum footer == crc); some (decode_dir count footer)

  -- none is errNoFooter. Of the int64 sum the bit pattern is compared: a sum that wraps is no size.
  unfoldable pub read_trailer : Bytes → Bytes → Option SegMeta
  unfolding read_dir
  read_trailer file trailer = do
    require (le_value (take 4 (drop 32 trailer)) == seg_magic)
    t_min ← i64_from_u64 (le_value (take 8 (drop 12 trailer)))
    t_max ← i64_from_u64 (le_value (take 8 (drop 20 trailer)))
    footer_off ← i64_from_u64 (le_value (take 8 trailer))
    let count = le_value (take 4 (drop 8 trailer))
    require ((pos_part footer_off + count * dir_entry_len + trailer_len) % 2 ^ 64 == length file)
    entries ← read_dir file (pos_part footer_off) count (le_value (take 4 (drop 28 trailer)))
    some (record { gen = 0; t_min = t_min; t_max = t_max; size = 0; entries = entries })

  -- The generation and the size are left zero, for the caller to set.
  unfoldable pub read_footer : Bytes → Option SegMeta
  unfolding read_trailer
  read_footer file =
      if ltb (length file) trailer_len
      then none
      else read_trailer file (drop (length file - trailer_len) file)
