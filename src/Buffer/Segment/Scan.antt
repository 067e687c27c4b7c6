-- ===== src/Buffer/Segment/Scan.antt =====
-- internal/buffer/segment.go: what scanRecords recovers from a segment with no footer.
use retrosampler.Prelude.{ℕ, zero, suc, ◌+◌, ◌-◌, ◌^◌, ◌≤◌, ◌<◌, ◌≡◌, refl, ◌∙◌, ap, arith}
use retrosampler.Prelude.{List, [], ◌∷◌, ◌++◌, none, some, append_assoc}
use retrosampler.Prelude.{length, take, drop, All, length-append}
use retrosampler.Prelude.{
  take-length_append, drop-length_append, take-append_ge, take-append_le, length-take,
}
use native.Mathlib.Decide.{dec_lt}
use retrosampler.Prelude.Bytes.{Bytes}
use retrosampler.Buffer.Record.{rec_header_len, len_u32}
use retrosampler.Buffer.Record.{
  put_record_header, length-put_record_header, parse-put_record_header,
}
use retrosampler.Buffer.Segment.Records.{
  Rec, IsRec, rec_len, total_len, dir_from, whole, encode_rec,
}
use retrosampler.Buffer.Segment.Records.{
  encode_recs, whole_cut, whole_fits, length-encode_rec, length-encode_recs, length-whole,
  length-whole_le,
}
use retrosampler.Buffer.Segment.Reader.{read_full, read_record, scan_loop, scan_records}

read_full-append : (n : ℕ) (xs ys : Bytes) → length xs ≡ n → read_full n (xs ++ ys) ≡ some xs
unfolding read_full
read_full-append n xs ys h = rw (take-length_append n xs ys h) (ground (arith, length-append xs ys))

read_full_short : (n : ℕ) (bs : Bytes) → length bs < n → read_full n bs ≡ none
unfolding read_full
read_full_short n bs h = ground arith

take-nil : (n : ℕ) → take {A = ℕ} n [] ≡ []
take-nil zero = refl
take-nil (suc n) = refl

module _ (checksum : Bytes → ℕ) where
  read_record_nil : read_record checksum [] ≡ none
  unfolding read_record
  read_record_nil = rw (read_full_short rec_header_len [] (omega arith))

  scan_loop_stop :
      (fuel : ℕ) (bs : Bytes) (off : ℕ)
      → read_record checksum bs ≡ none
      → scan_loop checksum fuel bs off ≡ ([], off)
  unfolding scan_loop
  scan_loop_stop zero bs off h = refl
  scan_loop_stop (suc fuel) bs off h = rw (h, scan_loop)

  scan_loop_next :
      (fuel : ℕ) (bs : Bytes) (off n : ℕ) (id : Bytes)
      → read_record checksum bs ≡ some (n, id)
      → scan_loop checksum (suc fuel) bs off ≡ (
        record { id = id; off = len_u32 off; length = n }
            ∷ (scan_loop checksum fuel
                (drop (rec_header_len + n) bs)
                (off + (rec_header_len + n))).0,
        (scan_loop checksum fuel (drop (rec_header_len + n) bs) (off + (rec_header_len + n))).1,
      )
  unfolding scan_loop
  scan_loop_next fuel bs off n id h = rw (h, scan_loop)

module _ (checksum : Bytes → ℕ) (is_u32 : (bs : Bytes) → checksum bs < 2 ^ 32) where
  -- A whole record at the front is read, whatever follows it.
  read_record-encode_rec :
      (r : Rec) (rest : Bytes)
      → IsRec r
      → read_record checksum (encode_rec checksum r ++ rest) ≡ some (length r.frag, r.id)
  unfolding read_record encode_rec
  read_record-encode_rec r rest h =
      let hdr = put_record_header checksum r.id r.frag in
      let hdr_len = length-put_record_header checksum r.id r.frag h.0 in
      rw
        (
          append_assoc hdr r.frag rest,
          read_full-append rec_header_len hdr (r.frag ++ rest) hdr_len,
          parse-put_record_header checksum r.id r.frag h.0 (omega (arith, h.1)) (is_u32 r.frag),
          drop-length_append rec_header_len hdr (r.frag ++ rest) hdr_len,
          read_full-append (length r.frag) r.frag rest refl,
        )
        (ground (arith, h.1))

  -- A proper prefix of a record is not read: the header or the fragment is cut short.
  read_record_torn :
      (r : Rec) (k : ℕ)
      → IsRec r
      → k < rec_len r
      → read_record checksum (take k (encode_rec checksum r)) ≡ none
  unfolding read_record encode_rec
  read_record_torn r k h lt = elim (dec_lt k rec_header_len) [
    | yes short ↦ rw (read_full_short rec_header_len (take k (hdr ++ r.frag)) (cut_len short))
    | no long ↦
        rw
          (
            take-append_ge k hdr r.frag (omega (arith, hdr_len, long)),
            read_full-append rec_header_len hdr (take (k - length hdr) r.frag) hdr_len,
            parse-put_record_header checksum r.id r.frag h.0 (omega (arith, h.1)) (is_u32 r.frag),
            drop-length_append rec_header_len hdr (take (k - length hdr) r.frag) hdr_len,
            read_full_short (length r.frag) (take (k - length hdr) r.frag) (frag_cut_len long),
          )
          (ground (arith, h.1))
  ]
    where
      hdr : Bytes
      hdr = put_record_header checksum r.id r.frag

      hdr_len : length hdr ≡ rec_header_len
      hdr_len = length-put_record_header checksum r.id r.frag h.0

      cut_len : k < rec_header_len → length (take k (hdr ++ r.frag)) < rec_header_len
      cut_len short = omega (arith, length-take k (hdr ++ r.frag))

      frag_cut_len : ¬ (k < rec_header_len) → length (take (k - length hdr) r.frag) < length r.frag
      frag_cut_len long = omega (arith, hdr_len, length-take (k - length hdr) r.frag)

  -- One round over a record that stands whole in the first `n` bytes.
  scan_loop_round :
      (r : Rec) (rs : List Rec) (fuel n off : ℕ)
      → IsRec r
      → rec_len r ≤ n
      → let later =
          scan_loop checksum fuel
            (take (n - rec_len r) (encode_recs checksum rs))
            (off + rec_len r) in
        scan_loop checksum
          (suc fuel)
          (take n (encode_rec checksum r ++ encode_recs checksum rs))
          off
        ≡ (record { id = r.id; off = len_u32 off; length = length r.frag } ∷ later.0, later.1)
  scan_loop_round r rs fuel n off h fits =
      let len = length-encode_rec checksum r h in
      let front = encode_rec checksum r in
      let rest = take (n - length front) (encode_recs checksum rs) in
      rw (
        take-append_ge n front (encode_recs checksum rs) (omega (arith, len, fits)),
        scan_loop_next checksum fuel (front ++ rest) off (length r.frag) r.id
            (read_record-encode_rec r rest h),
        drop-length_append (rec_len r) front rest len,
        len,
      )

  -- A record that does not stand whole in the first `n` bytes ends the loop.
  scan_loop_cut :
      (r : Rec) (rs : List Rec) (fuel n off : ℕ)
      → IsRec r
      → n < rec_len r
      → scan_loop checksum fuel (take n (encode_rec checksum r ++ encode_recs checksum rs)) off
        ≡ ([], off)
  scan_loop_cut r rs fuel n off h cut =
      rw
        (take-append_le n (encode_rec checksum r) (encode_recs checksum rs)
          (omega (arith, length-encode_rec checksum r h, cut)))
        (scan_loop_stop checksum fuel _ off (read_record_torn r n h cut))

  -- The loop over the first `n` bytes of records finds the ones that stand there whole.
  scan_loop-whole :
      (rs : List Rec) (fuel n off : ℕ)
      → All IsRec rs
      → length (whole n rs) ≤ fuel
      → scan_loop checksum fuel (take n (encode_recs checksum rs)) off
        ≡ (dir_from off (whole n rs), off + total_len (whole n rs))
  unfolding encode_recs dir_from whole
  scan_loop-whole [] fuel n off h enough =
      rw (take-nil n, scan_loop_stop checksum fuel [] off (read_record_nil checksum), whole)
        (ground arith)
  scan_loop-whole (r ∷ rs) fuel n off h enough = elim (dec_lt n (rec_len r)) [
    | yes cut ↦ rw (scan_loop_cut r rs fuel n off h.0 cut, whole_cut r rs n cut) (ground arith)
    | no fits ↦
        step fuel enough fits (λ f e. scan_loop-whole rs f (n - rec_len r) (off + rec_len r) h.1 e)
  ]
    where
      step :
          (fuel : ℕ)
          → length (whole n (r ∷ rs)) ≤ fuel
          → ¬ (n < rec_len r)
          → ((f : ℕ)
              → length (whole (n - rec_len r) rs) ≤ f
              → scan_loop checksum f
                  (take (n - rec_len r) (encode_recs checksum rs))
                  (off + rec_len r)
                ≡ (
                  dir_from (off + rec_len r) (whole (n - rec_len r) rs),
                  off + rec_len r + total_len (whole (n - rec_len r) rs),
                ))
          → scan_loop checksum fuel (take n (encode_recs checksum (r ∷ rs))) off
            ≡ (dir_from off (whole n (r ∷ rs)), off + total_len (whole n (r ∷ rs)))
      step zero e fits ih = absurd (omega (arith, ap length (whole_fits r rs n (omega arith))))
      step (suc f) e fits ih =
          rw
            (
              scan_loop_round r rs f n off h.0 (omega arith),
              ih f (omega (arith, ap length (whole_fits r rs n (omega arith)))),
              whole_fits r rs n (omega arith),
            )
            (ground arith)

  whole-le-bytes :
      (rs : List Rec) (n : ℕ)
      → All IsRec rs
      → length (whole n rs) ≤ length (take n (encode_recs checksum rs))
  whole-le-bytes rs n h = omega (
    arith,
    length-take n (encode_recs checksum rs),
    length-encode_recs checksum rs h,
    length-whole n rs,
    length-whole_le rs n,
  )

  -- Recovery after a crash: of the first `n` bytes that a writer of the records `rs` wrote, scanRecords
  -- finds exactly the records that stand there whole, each at its offset, and the end of the last one.
  pub scan_records-take :
      (rs : List Rec) (n : ℕ)
      → All IsRec rs
      → scan_records checksum (take n (encode_recs checksum rs))
        ≡ (dir_from 0 (whole n rs), total_len (whole n rs))
  unfolding scan_records
  scan_records-take rs n h =
      scan_loop-whole rs _ n 0 h (whole-le-bytes rs n h)
      ∙ ap (λ e. (dir_from 0 (whole n rs), e)) (omega arith)
