-- ===== src/Shards/Worker/Ticked.antt =====
-- internal/shards/worker.go over internal/buffer/buffer.go: a tick, from the segments to the causes.
use mathlib.Core.Path.{subst}
use retrosampler.Prelude.{
  ℕ, ◌+◌, ◌%◌, ◌^◌, ◌≤◌, ◌<◌, ◌≡◌, refl, sym, ap, ◌∙◌, arith, Bool, true, false, ◌++◌, List, [],
  ◌∷◌, Option,
}
use retrosampler.Prelude.{◌⊎◌, inl, inr, length, All}
use retrosampler.Prelude.Bytes.{Bytes}
use retrosampler.Prelude.Ints.{ℤ, ltb_ℤ, ◌-ℤ◌}
use retrosampler.Buffer.Segment.Writer.{BufWriter}
use retrosampler.Buffer.Segment.Reader.{SegMeta}
use retrosampler.Buffer.Index.Defs.{Loc, places}
use retrosampler.Buffer.Index.Invariant.{IsIndex}
use retrosampler.Buffer.Index.Sweeps.{IsSmall}
use retrosampler.Buffer.Store.Defs.{Buffer, next_answer, expire}
use retrosampler.Buffer.Store.Expiry.{IsYoung, after_calls}
use retrosampler.Buffer.Store.Ascending.{IsSegments}
use retrosampler.Buffer.Store.Rolls.{IsNext, sealed}
use retrosampler.Buffer.Store.Kept.{IsOrdered, live_from, expire-IsExpired}
use retrosampler.Shards.Worker.Defs.{Disk, Node}
use retrosampler.Shards.Worker.Tick.{expire_all, report_disk, tick}
use retrosampler.Shards.Worker.Floor.{Because, Removed, IsBlocked, tick_blocked_lem}
use retrosampler.Shards.Queues.Defs.{FloorCause, floor_clear, floor_protected, nothing_reclaimable}
use retrosampler.Shards.Worker.OverBuffer.{buffer_disk, buffer_disk-HasSegments}
use retrosampler.Shards.Worker.Taken.{
  IsTaken, Removed-IsTaken, oldest_segment, no_oldest, Failing-answer,
}

-- What is live from a later generation on is live from an earlier one on.
live_from-later : (g h : ℕ) (ps : List Loc) → g ≤ h → live_from h (live_from g ps) ≡ live_from h ps
unfolding live_from
live_from-later g h [] le = refl
live_from-later g h (l ∷ ps) le = ground (arith, le, live_from-later g h ps le)

live_from-same :
    (g h : ℕ) (ps qs : List Loc)
    → g ≤ h
    → live_from g ps ≡ live_from g qs
    → live_from h ps ≡ live_from h qs
live_from-same g h ps qs le e =
    sym (live_from-later g h ps le) ∙ ap (live_from h) e ∙ live_from-later g h qs le

module _ (checksum : Bytes → ℕ) (file : List Bool → BufWriter) (read : ℕ → ℕ → ℕ → Option Bytes)
    (segment_size capacity sweep_chunk : ℕ) (window : ℤ) where
  abbrev disk : Disk Buffer
  disk = buffer_disk checksum file read segment_size capacity sweep_chunk window

  -- Why the disk is above the limit, or that it is not, after the removal of `taken` segments from the buffer `b`: the
  -- oldest is not older than the floor; or there is none, or the system refused to remove it.
  abbrev pub IsCause : ℤ → ℤ → Buffer → List SegMeta → Node Buffer → FloorCause → Type 0
  IsCause limit cutoff b taken m floor_clear = ltb_ℤ limit m.disk_total ≡ false
  IsCause limit cutoff b taken m floor_protected =
      (ltb_ℤ limit m.disk_total ≡ true)
      × ((s : SegMeta) × (rest : List SegMeta) × (m.buf.metas ≡ s ∷ rest)
          × (ltb_ℤ s.t_max cutoff ≡ false))
  IsCause limit cutoff b taken m nothing_reclaimable =
      (ltb_ℤ limit m.disk_total ≡ true)
      × ((m.buf.metas ≡ [])
          ⊎ (((s : SegMeta) × (rest : List SegMeta) × (m.buf.metas ≡ s ∷ rest)
                × (ltb_ℤ s.t_max cutoff ≡ true))
              × ((next_answer (after_calls (length taken) b.answers)).0 ≡ false)))

  Because-IsCause :
      (limit cutoff : ℤ) (b : Buffer) (taken : List SegMeta) (m : Node Buffer) (cause : FloorCause)
      → IsSegments b
      → IsSegments m.buf
      → Because disk limit cutoff cause m
      → IsBlocked disk cutoff cause b (length taken) m.buf
      → IsCause limit cutoff b taken m cause
  Because-IsCause limit cutoff b taken m floor_clear good good_m why blocked = why
  Because-IsCause limit cutoff b taken m floor_protected good good_m (full, (t, there, young))
        blocked =
      let (s, rest, e, same) =
        oldest_segment checksum file read segment_size capacity sweep_chunk window m.buf t good_m
          there in
      (full, (s, rest, e, subst (λ u. ltb_ℤ u cutoff ≡ false) (sym same) young))
  Because-IsCause limit cutoff b taken m nothing_reclaimable good good_m (full, why) (inl nothing) =
      (
        full,
        inl (
            no_oldest checksum file read segment_size capacity sweep_chunk window m.buf good_m
              nothing),
      )
  Because-IsCause limit cutoff b taken m nothing_reclaimable good good_m (full, why) (inr fails) = (
    full,
    inr (
        Failing-answer checksum file read segment_size capacity sweep_chunk window cutoff b m.buf
          (length taken) good fails),
  )

  -- A shard after a tick: `expired` are the finalized segments that Expire has removed, `left` the others, after which
  -- there may be the active one of before, and `taken` those that the loop on the watermark has.
  pub record IsTicked (window_floor limit now : ℤ) (n m : Node Buffer) : Type 0 where
    pub expired : List SegMeta
    pub past_window : All (λ s. ltb_ℤ s.t_max (now -ℤ window) ≡ true) expired
    pub left : List SegMeta
    pub split : n.buf.metas ≡ expired ++ left
    pub ends :
        IsYoung (now -ℤ window) left
        ⊎ ((next_answer (after_calls (length expired) n.buf.answers)).0 ≡ false)
    pub taken : List SegMeta
    pub rolled :
        (taken ++ m.buf.metas ≡ left)
        ⊎ ((size : ℕ) × (taken ++ m.buf.metas ≡ left ++ (sealed n.buf.w size ∷ []))
            × (0 < n.buf.w.size)
            × (ltb_ℤ n.buf.w.t_max (now -ℤ window) ≡ true))
    pub past_floor : All (λ s. ltb_ℤ s.t_max (now -ℤ window_floor) ≡ true) taken
    pub counted : m.early_expired ≡ (n.early_expired + length taken) % 2 ^ 64
    pub because :
        IsCause limit
          (now -ℤ window_floor)
          (expire checksum file capacity sweep_chunk window now n.buf).1
          taken
          m
          m.at_floor
    pub segments : IsSegments m.buf
    pub index : IsIndex m.buf.idx
    pub fragments :
        (id : Bytes)
        → live_from m.buf.min_gen (places m.buf.idx id)
          ≡ live_from m.buf.min_gen (places n.buf.idx id)

  expired_buf :
      (now fallback : ℤ) (n : Node Buffer)
      → (expire_all disk now fallback n).buf
        ≡ (expire checksum file capacity sweep_chunk window now n.buf).1
  unfolding expire_all report_disk
  expired_buf now fallback n = refl

  -- A tick of a shard whose buffer has finalized segments of ascending generations below the active one, fewer
  -- than 2 ^ 32 generations, and a well-formed index of at most 2 ^ 31 locs with no fragment of a trace newer than
  -- its last; the counter is a uint64. Expire removes finalized segments from the oldest on, each older than the
  -- window, until one is not or the system does not remove it, and may finalize an active segment that is. Of those
  -- that are left, the loop on the watermark, which ends, removes segments that are older than the floor,
  -- from the oldest on, and counts these. After it the disk is not above the watermark, or the cause that is
  -- stored says why not: the oldest segment is not older than the floor, there is none, or the system refused to
  -- remove it. Segments and index stay well formed, and each trace keeps the fragments that stand in the
  -- generations from minGen on.
  pub tick-IsTicked :
      (window_floor limit now fallback : ℤ) (n : Node Buffer)
      → IsSegments n.buf
      → IsNext n.buf
      → n.buf.w.gen + 1 < 2 ^ 32
      → IsIndex n.buf.idx
      → IsSmall n.buf.idx
      → ((id : Bytes) → IsOrdered (places n.buf.idx id))
      → n.early_expired < 2 ^ 64
      → IsTicked window_floor limit now n (tick disk window window_floor limit now fallback n)
  tick-IsTicked window_floor limit now fallback n good next small index few ordered fits =
      let x =
        expire-IsExpired checksum file capacity sweep_chunk window now n.buf good next small index
          few ordered in
      let cutoff = now -ℤ window_floor in
      let b = (expire checksum file capacity sweep_chunk window now n.buf).1 in
      let m = tick disk window window_floor limit now fallback n in
      let (because, (k, way, counted, blocked)) =
        tick_blocked_lem disk window window_floor limit now fallback n
          (buffer_disk-HasSegments checksum file read segment_size capacity sweep_chunk window)
          fits in
      let t : IsTaken (now -ℤ window_floor) b k m.buf =
        Removed-IsTaken checksum file read segment_size capacity sweep_chunk window
          (now -ℤ window_floor) b m.buf k x.segments
          (subst (λ c. Removed disk (now -ℤ window_floor) c k m.buf) (expired_buf now fallback n)
            way) in
      record {
        expired = x.gone;
        past_window = x.expired;
        left = x.left;
        split = x.split;
        ends = x.ends;
        taken = t.taken;
        rolled = elim (x.rolled) [
          | inl (same, _) ↦ inl (sym t.split ∙ same)
          | inr (size, more, filled, stale) ↦ inr (size, sym t.split ∙ more, filled, stale)
        ];
        past_floor = t.old;
        counted = ground (arith, counted, t.count);
        because =
            Because-IsCause limit cutoff b t.taken m m.at_floor x.segments t.segments because (
              subst (λ k. IsBlocked disk cutoff m.at_floor b k m.buf) (sym t.count)
                (subst (λ c. IsBlocked disk cutoff m.at_floor c k m.buf)
                  (expired_buf now fallback n) blocked));
        segments = t.segments;
        index = subst IsIndex (sym t.same_idx) x.index;
        fragments = λ id.
            ap (λ i. live_from m.buf.min_gen (places i id)) t.same_idx
            ∙ live_from-same b.min_gen m.buf.min_gen (places b.idx id) (places n.buf.idx id) t.floor
                (x.fragments id);
      }
