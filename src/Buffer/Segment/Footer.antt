-- ===== src/Buffer/Segment/Footer.antt =====
-- internal/buffer/segment.go: readFooter reads back the directory that finalize wrote.
use retrosampler.Prelude.{ℕ, ◌^◌, ◌<◌, ◌≡◌, refl, arith, List, ◌++◌}
use retrosampler.Prelude.{some, Option-cases, inl, inr, length}
use retrosampler.Prelude.Bytes.{Bytes}
use retrosampler.Prelude.Ints.{ℤ, pos, negsuc, IsI64}
use retrosampler.Buffer.Record.{len_u32, len_u32_id}
use retrosampler.Buffer.Segment.Writer.{BufWriter, SegmentWriter, DirEntry}
use retrosampler.Buffer.Segment.Writer.{
  ◌>>=◌, return, flush, write_tail, store_footer, write_footer, finalize,
}
use retrosampler.Buffer.Segment.Writer.{encode_dir, encode_trailer, u64_from_i64}
use retrosampler.Buffer.Segment.Records.{Rec, total_len, dir_from, encode_recs, length-encode_recs}
use retrosampler.Buffer.Segment.Reader.{read_footer}
use retrosampler.Buffer.Segment.Adds.{bind_some, write_tail-Adds, flush_bytes}
use retrosampler.Buffer.Segment.Entries.{dir_from-IsEntry, length-dir_from}
use retrosampler.Buffer.Segment.Trailer.{read_footer_lem}
use retrosampler.Buffer.Segment.Append.{Holds}

u64_pos : (v : ℤ) (n : ℕ) → u64_from_i64 v ≡ some n → v ≡ pos n
unfolding u64_from_i64
u64_pos (pos m) n h = cc
u64_pos (negsuc m) n h = cc

module _ (checksum : Bytes → ℕ) where
  -- What finalize wrote when it reports no error.
  record Footed (s : SegmentWriter) (w : BufWriter) (es : List DirEntry) (out : Bytes)
      : Type 0 where
    t_min : ℕ
    t_max : ℕ
    min_eq : s.t_min ≡ pos t_min
    max_eq : s.t_max ≡ pos t_max
    entries : es ≡ s.dir
    bytes :
        out
        ≡ w.bytes
          ++ (encode_dir s.dir
              ++ encode_trailer s.size
                  (len_u32 (length s.dir))
                  t_min
                  t_max
                  (checksum (encode_dir s.dir)))

  store_footer-Footed :
      (s : SegmentWriter) (w : BufWriter) (es : List DirEntry)
      → (store_footer checksum s w).0 ≡ some es
      → Footed s w es (store_footer checksum s w).1.bytes
  unfolding store_footer
  store_footer-Footed s w es h = elim (Option-cases (u64_from_i64 s.t_min)) [
    | inl e ↦ cc (rw (size_ok, e) at h)
    | inr (lo, e) ↦ elim (Option-cases (u64_from_i64 s.t_max)) [
      | inl f ↦ cc (rw (size_ok, e, f) at h)
      | inr (hi, f) ↦ tail_ok lo hi e f (rw (size_ok, e, f) at h)
    ]
  ]
    where
      size_ok : u64_from_i64 (pos s.size) ≡ some s.size
      size_ok = unfold u64_from_i64 in refl

      trailer : ℕ → ℕ → Bytes
      trailer lo hi =
          encode_trailer s.size (len_u32 (length s.dir)) lo hi (checksum (encode_dir s.dir))

      tail_ok :
          (lo hi : ℕ)
          → u64_from_i64 s.t_min ≡ some lo
          → u64_from_i64 s.t_max ≡ some hi
          → ((write_tail s.dir (trailer lo hi) >>= λ _. return s.dir) w).0 ≡ some es
          → Footed s w es (store_footer checksum s w).1.bytes
      tail_ok lo hi e f k =
          let (_, ok, on) =
            bind_some (write_tail s.dir (trailer lo hi)) (λ _. return s.dir) w es k in
          record {
            t_min = lo;
            t_max = hi;
            min_eq = u64_pos s.t_min lo e;
            max_eq = u64_pos s.t_max hi f;
            entries = cc (rw on at k);
            bytes = rw (size_ok, e, f) (rw on (write_tail-Adds s.dir (trailer lo hi) w ok));
          }

  module _ (is_u32 : (bs : Bytes) → checksum bs < 2 ^ 32) (s : SegmentWriter) (rs : List Rec)
      (h : Holds checksum s rs) (few : length rs < 2 ^ 32) where
    abbrev body : Bytes
    body = encode_recs checksum rs

    -- What the trailer stores is what the reader checks it against.
    stored_counts : (s.size ≡ length body) × (len_u32 (length s.dir) ≡ length (dir_from 0 rs))
    stored_counts = (
      omega (arith, h.size, length-encode_recs checksum rs h.recs),
      rw (h.dir, length-dir_from rs 0) (len_u32_id (length rs) few),
    )

    read_Footed :
        (w : BufWriter) (es : List DirEntry) (out : Bytes)
        → Footed s w es out
        → w.bytes ≡ s.w.bytes
        → IsI64 s.t_min
        → IsI64 s.t_max
        → total_len rs < 2 ^ 62
        → read_footer checksum out
          ≡ some (record {
            gen = 0;
            t_min = s.t_min;
            t_max = s.t_max;
            size = 0;
            entries = dir_from 0 rs;
          })
    read_Footed w es out foot same lo hi small =
        rw
          (
            foot.bytes, same, h.bytes, stored_counts.0, stored_counts.1, h.dir, foot.min_eq,
            foot.max_eq,
          )
          (read_footer_lem checksum is_u32 body (dir_from 0 rs) foot.t_min foot.t_max
            (dir_from-IsEntry rs 0 h.recs) (omega (arith, length-encode_recs checksum rs h.recs))
            (omega (arith, length-dir_from rs 0)) (ground (arith, foot.min_eq, lo.0))
            (ground (arith, foot.max_eq, hi.0)))

  -- For a writer that holds the records `rs`, a finalize that reports no error leaves a file from which
  -- readFooter reads the writer's times and its directory, which is that of `rs`; the checksum is a
  -- uint32, the times are int64, and the file is smaller than 2 ^ 62 bytes with fewer than 2 ^ 32
  -- records.
  pub read_footer-finalize :
      (s : SegmentWriter) (rs : List Rec) (es : List DirEntry)
      → ((bs : Bytes) → checksum bs < 2 ^ 32)
      → Holds checksum s rs
      → IsI64 s.t_min
      → IsI64 s.t_max
      → length rs < 2 ^ 32
      → total_len rs < 2 ^ 62
      → (finalize checksum s).0 ≡ some es
      → read_footer checksum (finalize checksum s).1.w.bytes
        ≡ some (record {
          gen = 0;
          t_min = s.t_min;
          t_max = s.t_max;
          size = 0;
          entries = dir_from 0 rs;
        })
  unfolding finalize write_footer
  read_footer-finalize s rs es is_u32 h lo hi few small ok =
      let (_, flushed, on) = bind_some flush (λ _. store_footer checksum s) s.w es ok in
      rw on (
        read_Footed is_u32 s rs h few (flush s.w).1 es _
          (store_footer-Footed s (flush s.w).1 es (rw on at ok)) (flush_bytes s.w flushed) lo hi
          small)
