-- ===== src/Shards/Worker/OverBuffer.antt =====
-- internal/shards/worker.go over internal/buffer/buffer.go: the worker's buffer is a Buffer. The interface has no
-- state after Collect, so what Collect does to the buffer's handles is left out here.
use mathlib.Core.Option.{none-ne-some, some-injective}
use retrosampler.Prelude.{
  ℕ, ◌≤◌, ◌<◌, ◌≡◌, refl, sym, ap, arith, Bool, List, [], ◌∷◌, Option, none, some, ◌⊎◌,
}
use retrosampler.Prelude.{Bool-cases, Option-cases, inl, inr, ltb, if◌then◌else◌, length}
use retrosampler.Prelude.Bytes.{Bytes}
use retrosampler.Prelude.Ints.{ℤ, pos}
use retrosampler.Buffer.Segment.Writer.{BufWriter}
use retrosampler.Buffer.Segment.Reader.{SegMeta}
use retrosampler.Buffer.Store.Defs.{
  Buffer, next_answer, oldest_from, oldest_finalized, oldest_finalized_t_max, delete_meta,
  drop_segment, remove_segment, expire_first, expire_oldest, disk_bytes, append_frag, expire,
}
use retrosampler.Buffer.Store.Expiry.{oldest_none}
use retrosampler.Buffer.Store.Collect.{collect}
use retrosampler.Shards.Worker.Defs.{Disk}
use retrosampler.Shards.Worker.Floor.{HasSegments}

abbrev pub freed_bytes : Option ℕ → Option ℤ
freed_bytes none = none
freed_bytes (some n) = some (pos n)

delete_meta_le : (gen : ℕ) (metas : List SegMeta) → length (delete_meta gen metas) ≤ length metas
unfolding delete_meta
delete_meta_le gen [] = omega arith
delete_meta_le gen (m ∷ metas) = ground (arith, delete_meta_le gen metas)

-- Deleting a generation that the list has, at its head or later, leaves a shorter list.
delete_head :
    (m h : SegMeta) (metas : List SegMeta)
    → some h ≡ some m
    → length (delete_meta m.gen (h ∷ metas)) < length (h ∷ metas)
unfolding delete_meta
delete_head m h metas e =
    let gen : h.gen ≡ m.gen = ap (λ s. s.gen) (some-injective h m e) in
    ground (arith, gen, delete_meta_le m.gen metas)

delete_tail :
    (gen : ℕ) (h : SegMeta) (metas : List SegMeta)
    → length (delete_meta gen metas) < length metas
    → length (delete_meta gen (h ∷ metas)) < length (h ∷ metas)
unfolding delete_meta
delete_tail gen h metas fewer = ground (arith, fewer)

-- The oldest is the one that the loop began with, or the list has its generation.
oldest_from-delete_meta :
    (best : Option SegMeta) (metas : List SegMeta) (m : SegMeta)
    → oldest_from best metas ≡ some m
    → (best ≡ some m) ⊎ (length (delete_meta m.gen metas) < length metas)
unfolding oldest_from
oldest_from-delete_meta best [] m e = inl e
oldest_from-delete_meta none (h ∷ metas) m e = elim (oldest_from-delete_meta (some h) metas m e) [
  | inl same ↦ inr (delete_head m h metas same)
  | inr fewer ↦ inr (delete_tail m.gen h metas fewer)
]
oldest_from-delete_meta (some best) (h ∷ metas) m e =
    elim (oldest_from-delete_meta (some (if ltb h.gen best.gen then h else best)) metas m e) [
      | inr fewer ↦ inr (delete_tail m.gen h metas fewer)
      | inl same ↦ elim (Bool-cases (ltb h.gen best.gen)) [
        | inl older ↦ inr (delete_head m h metas (rw older at same))
        | inr newer ↦ inl (rw newer at same)
      ]
    ]

-- A removal of the oldest that succeeds leaves fewer segments.
expire_oldest_fewer :
    (b c : Buffer) (freed : ℕ) → expire_oldest b ≡ (some freed, c) → length c.metas < length b.metas
unfolding expire_oldest expire_first oldest_finalized remove_segment drop_segment
expire_oldest_fewer b c freed e = elim (Option-cases (oldest_from none b.metas)) [
  | inl nothing ↦ cc (rw nothing at e)
  | inr (m, there) ↦ elim (Bool-cases (next_answer b.answers).0) [
    | inr bad ↦ cc (rw (there, bad) at e)
    | inl ok ↦ elim (oldest_from-delete_meta none b.metas m there) [
      | inl absent ↦ absurd (none-ne-some m absent)
      | inr fewer ↦
          let left : c.metas ≡ delete_meta m.gen b.metas =
            sym (ap (λ r. r.1.metas) (rw (there, ok) at e)) in
          omega (arith, fewer, ap length left)
    ]
  ]
]

no_segments : (metas : List SegMeta) → length metas ≡ 0 → metas ≡ []
no_segments [] e = refl
no_segments (m ∷ metas) e = absurd (omega (arith, e))

module _ (checksum : Bytes → ℕ) (file : List Bool → BufWriter) (read : ℕ → ℕ → ℕ → Option Bytes)
    (segment_size capacity sweep_chunk : ℕ) (window : ℤ) where
  abbrev pub buffer_disk : Disk Buffer
  buffer_disk = record {
    append = append_frag checksum file segment_size;
    collect = λ b id.
        let c = (collect checksum read id b).0 in
        record { skipped = c.skipped; frags = if c.failed then none else some c.visited };
    expire =
        λ now b. let r = expire checksum file capacity sweep_chunk window now b in (pos r.0, r.1);
    oldest = oldest_finalized_t_max;
    expire_oldest = λ b. let r = expire_oldest b in (freed_bytes r.0, r.1);
    disk_bytes = λ b. pos (disk_bytes b);
    segments = λ b. length b.metas;
  }

  unfoldable pub time_of : Option SegMeta → Option ℤ
  time_of o = elim o [ none ↦ none | some m ↦ some m.t_max ]

  pub oldest_of :
      (b : Buffer) (o : Option SegMeta) → oldest_finalized b ≡ o → buffer_disk.oldest b ≡ time_of o
  unfolding oldest_finalized_t_max time_of
  oldest_of b o e = ap (λ (o : Option SegMeta). elim o [ none ↦ none | some m ↦ some m.t_max ]) e

  pub buffer_disk-HasSegments : HasSegments buffer_disk
  unfolding time_of
  buffer_disk-HasSegments = record {
    none_left = λ b e. oldest_of b none (oldest_none b (no_segments b.metas e));
    one_less = λ b c freed e. elim (Option-cases (expire_oldest b).0) [
      | inl bad ↦ cc (rw bad at e)
      | inr (n, ok) ↦
          let left : (expire_oldest b).1 ≡ c = ap (λ r. r.1) e in
          omega (
            arith,
            expire_oldest_fewer b (expire_oldest b).1 n (ap (λ o. (o, (expire_oldest b).1)) ok),
            ap (λ d. length d.metas) left,
          )
    ];
  }
