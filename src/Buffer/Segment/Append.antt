-- ===== src/Buffer/Segment/Append.antt =====
-- internal/buffer/segment.go: the writer's directory and size agree with the bytes it has written.
use retrosampler.Prelude.{ℕ, ◌+◌, ◌^◌, ◌<◌, ◌≡◌, sym, arith, List, [], ◌∷◌, ◌++◌}
use retrosampler.Prelude.{some, Option-cases, inl, inr, length, take, All, All-append}
use native.Mathlib.Nat.{zero-add}
use retrosampler.Prelude.Bytes.{Bytes}
use retrosampler.Prelude.Ints.{ℤ}
use retrosampler.Buffer.Record.{len_u32, len_u32_id, put_record_header}
use retrosampler.Buffer.Segment.Adds.{Adds->>, write-Adds}
use retrosampler.Buffer.Segment.Writer.{
  BufWriter, SegmentWriter, write, append, write_record, note_record,
}
use retrosampler.Buffer.Segment.Records.{
  Rec, IsRec, total_len, dir_from, whole, encode_rec, encode_recs,
}
use retrosampler.Buffer.Segment.Records.{encode_recs-append, total_len-append, dir_from-append}
use retrosampler.Buffer.Segment.Reader.{scan_records}
use retrosampler.Buffer.Segment.Scan.{scan_records-take}

-- The lengths that the writer notes are below 2 ^ 32.
note_dir :
    (rs : List Rec) (r : Rec)
    → IsRec r
    → dir_from 0 rs
        ++ (record { id = r.id; off = len_u32 (total_len rs); length = len_u32 (length r.frag) }
            ∷ [])
      ≡ dir_from 0 rs
        ++ (record { id = r.id; off = len_u32 (0 + total_len rs); length = length r.frag } ∷ [])
note_dir rs r is_rec =
    rw (len_u32_id (length r.frag) (omega (arith, is_rec.1)), zero-add (total_len rs))

module _ (checksum : Bytes → ℕ) where
  -- The writer holds the records `rs`, in this order, and nothing else.
  pub record Holds (s : SegmentWriter) (rs : List Rec) : Type 0 where
    pub bytes : s.w.bytes ≡ encode_recs checksum rs
    pub size : s.size ≡ total_len rs
    pub dir : s.dir ≡ dir_from 0 rs
    pub recs : All IsRec rs

  -- After both writes the file has the record, and the directory and size have it too.
  note_record-Holds :
      (s : SegmentWriter) (rs : List Rec) (r : Rec) (now : ℤ) (w : BufWriter)
      → Holds s rs
      → IsRec r
      → w.bytes ≡ s.w.bytes ++ encode_rec checksum r
      → Holds (note_record checksum s r.id r.frag now w) (rs ++ (r ∷ []))
  unfolding note_record
  note_record-Holds s rs r now w h is_rec e = record {
    bytes = rw (e, h.bytes) (sym (encode_recs-append checksum rs r));
    size = omega (arith, h.size, total_len-append rs r);
    dir = rw (h.dir, h.size, dir_from-append rs r 0) (note_dir rs r is_rec);
    recs = All-append _ rs (r ∷ []) h.recs (is_rec, tt);
  }

  pub write_record_ok :
      (r : Rec) (w : BufWriter)
      → (write_record checksum r.id r.frag w).0 ≡ some tt
      → (write_record checksum r.id r.frag w).1.bytes ≡ w.bytes ++ encode_rec checksum r
  unfolding write_record encode_rec
  write_record_ok r w h =
      let hdr = put_record_header checksum r.id r.frag in
      Adds->> (write hdr) (write r.frag) hdr r.frag (write-Adds hdr) (write-Adds r.frag) w h

  -- An append that succeeds returns the offset of the new record, which the writer holds behind the
  -- records from before.
  pub append-Holds :
      (s : SegmentWriter) (rs : List Rec) (r : Rec) (now : ℤ) (off : ℕ)
      → Holds s rs
      → IsRec r
      → (append checksum s r.id r.frag now).0 ≡ some off
      → (off ≡ len_u32 (total_len rs))
        × Holds (append checksum s r.id r.frag now).1 (rs ++ (r ∷ []))
  unfolding append
  append-Holds s rs r now off h is_rec e =
      elim (Option-cases (write_record checksum r.id r.frag s.w).0) [
        | inl failed ↦ cc (rw failed at e)
        | inr (_, ok) ↦ rw ok (
          ground (arith, rw ok at e, h.size),
          note_record-Holds s rs r now _ h is_rec (write_record_ok r s.w ok),
        )
      ]

  -- What a crash after any number of bytes leaves of a writer's records is what scanRecords finds: the
  -- records that stand whole in those bytes, at the writer's own offsets.
  pub scan_records-Holds :
      (s : SegmentWriter) (rs : List Rec) (n : ℕ)
      → ((bs : Bytes) → checksum bs < 2 ^ 32)
      → Holds s rs
      → scan_records checksum (take n s.w.bytes) ≡ (dir_from 0 (whole n rs), total_len (whole n rs))
  scan_records-Holds s rs n is_u32 h = rw h.bytes (scan_records-take checksum is_u32 rs n h.recs)
