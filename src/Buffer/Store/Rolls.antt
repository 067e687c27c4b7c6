-- ===== src/Buffer/Store/Rolls.antt =====
-- internal/buffer/buffer.go: what roll keeps.
use mathlib.Core.Path.{subst}
use retrosampler.Prelude.{
  ℕ, ◌+◌, ◌-◌, ◌%◌, ◌^◌, ◌≤◌, ◌<◌, ◌≡◌, refl, sym, ap, ◌∙◌, arith, Bool, true, false, List, [], ◌∷◌,
  ◌++◌,
}
use retrosampler.Prelude.Ints.{pos}
use retrosampler.Prelude.{◌⊎◌, Bool-cases, Option-cases, inl, inr, length}
use retrosampler.Prelude.Bytes.{Bytes}
use retrosampler.Buffer.Segment.Writer.{
  BufWriter, SegmentWriter, max_int64, new_segment_writer, finalize,
}
use retrosampler.Buffer.Segment.Reader.{SegMeta}
use retrosampler.Buffer.Store.Defs.{
  Buffer, next_answer, delete_meta, start_segment, close_reader, keep_segment, roll,
}
use retrosampler.Buffer.Store.Ascending.{IsSegments, IsAscending, IsAscending_le, total}

-- The active segment's generation comes after those of the finalized ones.
abbrev pub IsNext : Buffer → Type 0
IsNext b = IsAscending b.min_gen b.w.gen b.metas

pub delete_meta-above :
    (gen g : ℕ) (metas : List SegMeta) → IsAscending g gen metas → delete_meta gen metas ≡ metas
unfolding delete_meta
delete_meta-above gen g [] row = refl
delete_meta-above gen g (m ∷ metas) (le, row) =
    ground
      (arith, IsAscending_le (m.gen + 1) gen metas row, delete_meta-above gen (m.gen + 1) metas row)

-- A segment of the generation `m.gen`, or of a later one, comes last.
pub IsAscending-append :
    (g e f : ℕ) (metas : List SegMeta) (m : SegMeta)
    → IsAscending g e metas
    → e ≤ m.gen
    → m.gen < f
    → IsAscending g f (metas ++ (m ∷ []))
IsAscending-append g e f [] m row le lt = (omega (arith, row, le), omega (arith, lt))
IsAscending-append g e f (n ∷ metas) m (here, row) le lt =
    (here, IsAscending-append (n.gen + 1) e f metas m row le lt)

pub total-append :
    (metas : List SegMeta) (m : SegMeta) → total (metas ++ (m ∷ [])) ≡ total metas + m.size
total-append [] m = omega arith
total-append (n ∷ metas) m = omega (arith, total-append metas m)

-- A segment that was just created.
abbrev pub started : ℕ → BufWriter → SegmentWriter
started gen w = record {
  w = w;
  gen = gen;
  size = 0;
  t_min = pos max_int64;
  t_max = pos 0;
  dir = [];
}

-- The writer's segment, as a finalized one of this size.
abbrev pub sealed : SegmentWriter → ℕ → SegMeta
sealed w size = record { gen = w.gen; t_min = w.t_min; t_max = w.t_max; size = size; entries = [] }

-- The finalized segments are those from before, after a failure, or also the active one from before, the last of them.
abbrev pub IsSealed : Buffer → Bool × Buffer → Type 0
IsSealed b r =
    ((r.1.metas ≡ b.metas) × (r.0 ≡ false))
    ⊎ ((size : ℕ) × (r.1.metas ≡ b.metas ++ (sealed b.w size ∷ [])))

pub IsSegments-same :
    (b c : Buffer)
    → c.min_gen ≡ b.min_gen
    → c.metas ≡ b.metas
    → c.finalized_bytes ≡ b.finalized_bytes
    → IsSegments b
    → IsSegments c
IsSegments-same b c g m f t = record {
  row =
      subst (λ n. IsAscending n (2 ^ 32 - 1) c.metas) (sym g)
        (subst (IsAscending b.min_gen (2 ^ 32 - 1)) (sym m) t.row);
  bytes = f ∙ t.bytes ∙ ap total (sym m);
}

pub IsAscending-same :
    {g h e f : ℕ} {metas ms : List SegMeta}
    → g ≡ h
    → e ≡ f
    → metas ≡ ms
    → IsAscending g e metas
    → IsAscending h f ms
IsAscending-same {g} {h} {e} {f} {metas} p q r row =
    subst (IsAscending h f) r
      (subst (λ n. IsAscending n f metas) p (subst (λ n. IsAscending g n metas) q row))

abbrev with_finalized : Buffer → List Bool → Buffer
unfolding delete_meta
with_finalized b answers = record b {
  answers = answers;
  metas = delete_meta b.w.gen b.metas ++ (sealed b.w (length b.w.w.bytes) ∷ []);
  finalized_bytes = b.finalized_bytes + length b.w.w.bytes;
}

with_finalized-IsSegments :
    (b : Buffer) (answers : List Bool)
    → IsSegments b
    → IsNext b
    → b.w.gen + 1 < 2 ^ 32
    → IsSegments (with_finalized b answers)
      × ((with_finalized b answers).metas ≡ b.metas ++ (sealed b.w (length b.w.w.bytes) ∷ []))
      × IsAscending b.min_gen (b.w.gen + 1) (with_finalized b answers).metas
unfolding with_finalized
with_finalized-IsSegments b answers t next small =
    let meta = sealed b.w (length b.w.w.bytes) in
    let kept : (with_finalized b answers).metas ≡ b.metas ++ (meta ∷ []) =
      ap (λ r. r ++ (meta ∷ [])) (delete_meta-above b.w.gen b.min_gen b.metas next) in
    let row = λ (f : ℕ) (lt : b.w.gen < f).
      subst (IsAscending b.min_gen f) (sym kept)
        (IsAscending-append b.min_gen b.w.gen f b.metas meta next (omega arith) lt) in
    (
      record {
        row = row (2 ^ 32 - 1) (omega (arith, small));
        bytes = omega (arith, t.bytes, total-append b.metas meta, ap total kept);
      },
      kept,
      row (b.w.gen + 1) (omega arith),
    )

module _ (checksum : Bytes → ℕ) (file : List Bool → BufWriter) where
  -- On success the active segment is a new one, of the next generation.
  abbrev IsStarted : Buffer → Bool × Buffer → Type 0
  IsStarted b r = r.0 ≡ true → r.1.w ≡ started ((b.w.gen + 1) % 2 ^ 32) (file r.1.answers)

  -- The segments are the same, but for a writer and what is left of the answers.
  abbrev Beside : Buffer → Bool × Buffer → Type 0
  Beside b r =
      (r.1.idx ≡ b.idx)
      × (r.1.min_gen ≡ b.min_gen)
      × (r.1.metas ≡ b.metas)
      × (r.1.finalized_bytes ≡ b.finalized_bytes)
      × IsStarted b r

  -- What roll gives: the index and minGen are as they were, the finalized segments are as they should be, with at
  -- most the active one added, and where it succeeds so is the new active one.
  abbrev pub IsRolled : Buffer → Bool × Buffer → Type 0
  IsRolled b r =
      (r.1.idx ≡ b.idx)
      × (r.1.min_gen ≡ b.min_gen)
      × IsSegments r.1
      × (r.0 ≡ true → IsNext r.1)
      × IsSealed b r
      × IsStarted b r

  start_segment-Beside : (b : Buffer) → Beside b (start_segment checksum file b)
  unfolding start_segment new_segment_writer
  start_segment-Beside b = elim (Bool-cases (next_answer b.answers).0) [
    | inl ok ↦ rw (start_segment, ok) (refl, refl, refl, refl, λ e. refl)
    | inr failed ↦ rw (start_segment, failed) (refl, refl, refl, refl, λ e. cc)
  ]

  close_reader-Beside : (b : Buffer) → Beside b (close_reader checksum file b)
  unfolding close_reader
  close_reader-Beside b = elim (Bool-cases b.has_active_reader) [
    | inr closed ↦ rw (close_reader, closed) (start_segment-Beside b)
    | inl open_now ↦ elim (Bool-cases (next_answer b.answers).0) [
      | inl ok ↦
          rw (close_reader, open_now, ok)
            (start_segment-Beside (record b { answers = (next_answer b.answers).1 }))
      | inr failed ↦ rw (close_reader, open_now, failed) (refl, refl, refl, refl, λ e. cc)
    ]
  ]

  keep_segment-IsRolled :
      (b : Buffer)
      → IsSegments b
      → IsNext b
      → b.w.gen + 1 < 2 ^ 32
      → IsRolled b (keep_segment checksum file b)
  unfolding keep_segment with_finalized
  keep_segment-IsRolled b t next small =
      let opened = next_answer b.answers in
      let sized = next_answer opened.1 in
      let c = with_finalized b sized.1 in
      let last = (close_reader checksum file c).1 in
      let (t_c, kept, next_c) = with_finalized-IsSegments b sized.1 t next small in
      let (idx, min_gen, metas, bytes, gen) = close_reader-Beside c in
      elim (Bool-cases opened.0) [
        | inr failed ↦
            rw (keep_segment, failed)
              (
                refl,
                refl,
                record { row = t.row; bytes = t.bytes },
                λ e. cc,
                inl (refl, refl),
                λ e. cc,
              )
        | inl ok ↦ elim (Bool-cases sized.0) [
          | inr failed ↦
              rw (keep_segment, ok, failed)
                (
                  refl,
                  refl,
                  record { row = t.row; bytes = t.bytes },
                  λ e. cc,
                  inl (refl, refl),
                  λ e. cc,
                )
          | inl fine ↦
              rw (keep_segment, ok, fine)
                (
                  idx,
                  min_gen,
                  IsSegments-same c last min_gen metas bytes t_c,
                  λ e.
                      IsAscending-same (sym min_gen) (omega (arith, ap (λ w. w.gen) (gen e), small))
                        (sym metas) next_c,
                  inr (length b.w.w.bytes, metas ∙ kept),
                  gen,
                )
        ]
      ]

  -- With generations left, roll keeps the index, minGen and the count of the finalized segments' bytes, also where
  -- the system fails halfway.
  pub roll-IsRolled :
      (b : Buffer)
      → IsSegments b
      → IsNext b
      → b.w.gen + 1 < 2 ^ 32
      → IsRolled b (roll checksum file b)
  unfolding roll finalize
  roll-IsRolled b t next small =
      let f = finalize checksum b.w in
      let c = record b { w = f.1 } in
      let t_c = IsSegments-same b c refl refl refl t in
      elim (Option-cases (f.0)) [
        | inl failed ↦ rw (roll, failed) (refl, refl, t_c, λ e. cc, inl (refl, refl), λ e. cc)
        | inr (entries, ok) ↦ rw (roll, ok) (keep_segment-IsRolled c t_c next small)
      ]
