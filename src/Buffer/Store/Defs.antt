-- ===== src/Buffer/Store/Defs.antt =====
-- internal/buffer/buffer.go: Append, roll, Expire and what they call, over the model of a segment's writer and of
-- the index. Handles and errors' texts are left out.
use retrosampler.Prelude.{
  ℕ, zero, suc, ◌+◌, ◌-◌, ◌%◌, ◌^◌, Bool, true, false, ◌&&◌, List, [], ◌∷◌, ◌++◌, Option, none,
  some,
}
use retrosampler.Prelude.{ltb, ◌==◌, if◌then◌else◌, length}
use retrosampler.Prelude.Bytes.{Bytes}
use retrosampler.Prelude.Ints.{ℤ, ltb_ℤ, ◌-ℤ◌}
use retrosampler.Buffer.Record.{rec_header_len, len_u32}
use retrosampler.Buffer.Segment.Writer.{
  BufWriter, SegmentWriter, max_record_len, new_segment_writer, append, finalize,
}
use retrosampler.Buffer.Segment.Reader.{SegMeta}
use retrosampler.Buffer.Index.Defs.{Index, put}
use retrosampler.Buffer.Index.Reclaim.{sweep}

-- `metas` is a map by generation, in any order. `answers` says which of the system's next calls to remove, open,
-- stat, close and create a file succeed; past its end each does. Sizes are not negative, so they are natural
-- numbers here.
pub record Buffer : Type 0 where
  pub idx : Index
  pub w : SegmentWriter
  pub has_active_reader : Bool
  pub metas : List SegMeta
  pub finalized_bytes : ℕ
  pub min_gen : ℕ
  pub answers : List Bool

abbrev pub next_answer : List Bool → Bool × List Bool
next_answer [] = (true, [])
next_answer (a ∷ rest) = (a, rest)

-- The loop over the map: the segment with the lowest generation so far, and the segments left.
unfoldable pub oldest_from : Option SegMeta → List SegMeta → Option SegMeta
oldest_from best [] = best
oldest_from none (m ∷ metas) = oldest_from (some m) metas
oldest_from (some best) (m ∷ metas) =
    oldest_from (some (if ltb m.gen best.gen then m else best)) metas

unfoldable pub oldest_finalized : Buffer → Option SegMeta
unfolding oldest_from
oldest_finalized b = oldest_from none b.metas

unfoldable pub delete_meta : ℕ → List SegMeta → List SegMeta
delete_meta gen [] = []
delete_meta gen (m ∷ metas) =
    let rest = delete_meta gen metas in if m.gen == gen then rest else m ∷ rest

-- `metas[gen].size`, 0 for a generation that the map does not have.
unfoldable pub size_of : ℕ → List SegMeta → ℕ
size_of gen [] = 0
size_of gen (m ∷ metas) = let rest = size_of gen metas in if m.gen == gen then m.size else rest

-- The bookkeeping of removeSegment, once the file is gone.
unfoldable pub drop_segment : ℕ → Buffer → Buffer
unfolding size_of delete_meta
drop_segment gen b = record b {
  finalized_bytes = b.finalized_bytes - size_of gen b.metas;
  metas = delete_meta gen b.metas;
  min_gen = (gen + 1) % 2 ^ 32;
}

unfoldable pub remove_segment : ℕ → Buffer → Bool × Buffer
unfolding drop_segment
remove_segment gen b =
    let a = next_answer b.answers in
    let c = record b { answers = a.1 } in if a.0 then (true, drop_segment gen c) else (false, c)

-- One round of the loop of deleteExpired, with the oldest segment, where `later` is what the next rounds give.
unfoldable pub delete_next : ℤ → Option SegMeta → Buffer → (Buffer → ℕ × Buffer) → ℕ × Buffer
unfolding remove_segment
delete_next cutoff none b later = (0, b)
delete_next cutoff (some m) b later =
    let r = remove_segment m.gen b in
    let rest = later r.1 in
    if ltb_ℤ m.t_max cutoff then if r.0 then (m.size + rest.0, rest.1) else (0, r.1) else (0, b)

-- The loop, on fuel.
unfoldable pub delete_from : ℕ → ℤ → Buffer → ℕ × Buffer
unfolding delete_next oldest_finalized
delete_from zero cutoff b = (0, b)
delete_from (suc n) cutoff b = delete_next cutoff (oldest_finalized b) b (delete_from n cutoff)

unfoldable pub delete_expired : ℤ → Buffer → ℕ × Buffer
unfolding delete_from
delete_expired cutoff b = delete_from (length b.metas + 1) cutoff b

unfoldable pub disk_bytes : Buffer → ℕ
disk_bytes b = b.finalized_bytes + b.w.size

unfoldable pub oldest_finalized_t_max : Buffer → Option ℤ
unfolding oldest_finalized
oldest_finalized_t_max b = elim (oldest_finalized b) [ none ↦ none | some m ↦ some m.t_max ]

-- What ExpireOldest does with the oldest segment.
unfoldable pub expire_first : Option SegMeta → Buffer → Option ℕ × Buffer
unfolding remove_segment
expire_first none b = (none, b)
expire_first (some m) b =
    let r = remove_segment m.gen b in if r.0 then (some m.size, r.1) else (none, r.1)

unfoldable pub expire_oldest : Buffer → Option ℕ × Buffer
unfolding expire_first oldest_finalized
expire_oldest b = expire_first (oldest_finalized b) b

module _ (checksum : Bytes → ℕ) (file : List Bool → BufWriter) where
  -- The last part of roll: the handle on the old active segment is closed, and a file created, of which the
  -- writer is `file` of the answers that are left.
  unfoldable pub start_segment : Buffer → Bool × Buffer
  start_segment b =
      let a = next_answer b.answers in
      let c = record b { answers = a.1; has_active_reader = false } in
      elim (new_segment_writer ((b.w.gen + 1) % 2 ^ 32) (if a.0 then some (file a.1) else none)) [
        | none ↦ (false, c)
        | some w ↦ (true, record c { w = w })
      ]

  unfoldable pub close_reader : Buffer → Bool × Buffer
  unfolding start_segment
  close_reader b =
      let a = next_answer b.answers in
      if b.has_active_reader
      then if a.0
        then start_segment (record b { answers = a.1 })
        else (false, record b { answers = a.1 })
      else start_segment b

  -- The finalized segment is opened, and its size read.
  unfoldable pub keep_segment : Buffer → Bool × Buffer
  unfolding close_reader delete_meta
  keep_segment b =
      let opened = next_answer b.answers in
      let sized = next_answer opened.1 in
      let size = length b.w.w.bytes in
      let meta : SegMeta = record {
        gen = b.w.gen;
        t_min = b.w.t_min;
        t_max = b.w.t_max;
        size = size;
        entries = [];
      } in
      if opened.0
      then if sized.0
        then close_reader (record b {
          answers = sized.1;
          metas = delete_meta b.w.gen b.metas ++ (meta ∷ []);
          finalized_bytes = b.finalized_bytes + size;
        })
        else (false, record b { answers = sized.1 })
      else (false, record b { answers = opened.1 })

  unfoldable pub roll : Buffer → Bool × Buffer
  unfolding keep_segment
  roll b =
      let f = finalize checksum b.w in
      let c = record b { w = f.1 } in
      elim (f.0) [ none ↦ (false, c) | some entries ↦ keep_segment c ]

  -- The record is written to the active segment, and noted in the index.
  unfoldable pub store : Bytes → Bytes → ℤ → Buffer → Bool × Buffer
  store id frag now b =
      let r = append checksum b.w id frag now in
      let c = record b { w = r.1 } in
      elim (r.0) [
        | none ↦ (false, c)
        | some off ↦ (
          true,
          record c {
            idx =
                put id
                  (record { gen = b.w.gen; off = off; len = len_u32 (length frag); next = none })
                  b.idx;
          },
        )
      ]

  unfoldable pub append_frag : ℕ → Bytes → Bytes → ℤ → Buffer → Bool × Buffer
  unfolding roll store
  append_frag segment_size id frag now b =
      let fits = b.w.size + rec_header_len + length frag in
      let r = if ltb 0 b.w.size && ltb segment_size fits then roll b else (true, b) in
      if ltb max_record_len (length frag)
      then (false, b)
      else if r.0
      then store id frag now r.1
      else (false, r.1)

  unfoldable pub roll_stale : ℤ → Buffer → Buffer
  unfolding roll
  roll_stale cutoff b = if ltb 0 b.w.size && ltb_ℤ b.w.t_max cutoff then (roll b).1 else b

  -- `capacity` is that of the index's arena.
  unfoldable pub expire : ℕ → ℕ → ℤ → ℤ → Buffer → ℕ × Buffer
  unfolding delete_expired roll_stale
  expire capacity sweep_chunk window now b =
      let cutoff = now -ℤ window in
      let r = delete_expired cutoff b in
      let c = roll_stale cutoff r.1 in
      (r.0, record c { idx = sweep capacity sweep_chunk c.min_gen c.idx })
