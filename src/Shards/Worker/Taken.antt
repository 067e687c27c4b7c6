-- ===== src/Shards/Worker/Taken.antt =====
-- internal/shards/worker.go over internal/buffer/buffer.go: which segments a tick removes.
use mathlib.Core.Path.{subst}
use mathlib.Core.Option.{none-ne-some, some-injective}
use retrosampler.Prelude.{
  ℕ, suc, ◌≤◌, ◌≡◌, refl, sym, ap, ◌∙◌, arith, Bool, true, false, List, [], ◌∷◌, ◌++◌, Option, none,
  some, ◌⊎◌,
}
use retrosampler.Prelude.{Bool-cases, inl, inr, length, All}
use retrosampler.Prelude.Bytes.{Bytes}
use retrosampler.Prelude.Ints.{ℤ, ltb_ℤ}
use retrosampler.Buffer.Segment.Writer.{BufWriter}
use retrosampler.Buffer.Segment.Reader.{SegMeta}
use retrosampler.Buffer.Store.Defs.{Buffer, next_answer, expire_first, expire_oldest}
use retrosampler.Buffer.Store.Ascending.{IsSegments}
use retrosampler.Buffer.Store.Expiry.{
  after_calls, first, without, oldest_none, oldest_first, remove_first, remove_fails,
  without-IsSegments,
}
use retrosampler.Shards.Worker.Defs.{Disk}
use retrosampler.Shards.Worker.OverBuffer.{freed_bytes, time_of, oldest_of, buffer_disk}
use retrosampler.Shards.Worker.Floor.{Removed, kept, failed, gone, Failing, fails_now, fails_later}

-- What a run of removals takes off a well-formed buffer.
pub record IsTaken (cutoff : ℤ) (b : Buffer) (k : ℕ) (c : Buffer) : Type 0 where
  pub taken : List SegMeta
  pub split : b.metas ≡ taken ++ c.metas
  pub old : All (λ m. ltb_ℤ m.t_max cutoff ≡ true) taken
  pub count : length taken ≡ k
  pub segments : IsSegments c
  pub same_idx : c.idx ≡ b.idx
  pub floor : b.min_gen ≤ c.min_gen

IsTaken-kept :
    (cutoff : ℤ) (b : Buffer) (answers : List Bool)
    → IsSegments b
    → IsTaken cutoff b 0 (record b { answers = answers })
IsTaken-kept cutoff b answers t = record {
  taken = [];
  split = refl;
  old = tt;
  count = refl;
  segments = record { row = t.row; bytes = t.bytes };
  same_idx = refl;
  floor = omega arith;
}

IsTaken-cons :
    (cutoff : ℤ) (b : Buffer) (m : SegMeta) (rest : List SegMeta) (answers : List Bool) (k : ℕ)
    (c : Buffer)
    → b.metas ≡ m ∷ rest
    → b.min_gen ≤ m.gen
    → ltb_ℤ m.t_max cutoff ≡ true
    → IsTaken cutoff (without b m rest answers) k c
    → IsTaken cutoff b (suc k) c
IsTaken-cons cutoff b m rest answers k c e le old d = record {
  taken = m ∷ d.taken;
  split = e ∙ ap (λ r. m ∷ r) d.split;
  old = (old, d.old);
  count = omega (arith, d.count);
  segments = d.segments;
  same_idx = d.same_idx;
  floor = omega (arith, le, d.floor);
}

segments_cases :
    (metas : List SegMeta)
    → (metas ≡ []) ⊎ ((m : SegMeta) × (rest : List SegMeta) × (metas ≡ m ∷ rest))
segments_cases [] = inl refl
segments_cases (m ∷ rest) = inr (m, rest, refl)

-- What ExpireOldest does to a well-formed buffer.
expire_oldest-none : (b : Buffer) → b.metas ≡ [] → expire_oldest b ≡ (none, b)
unfolding expire_oldest expire_first
expire_oldest-none b e = rw (oldest_none b e) refl

expire_oldest-first :
    (b : Buffer) (m : SegMeta) (rest : List SegMeta) (e : b.metas ≡ m ∷ rest) (t : IsSegments b)
    → (next_answer b.answers).0 ≡ true
    → expire_oldest b ≡ (some m.size, without b m rest (next_answer b.answers).1)
unfolding expire_oldest expire_first
expire_oldest-first b m rest e t ok =
    rw (oldest_first b m rest e t, remove_first b m rest e t ok) refl

expire_oldest-fails :
    (b : Buffer) (m : SegMeta) (rest : List SegMeta) (e : b.metas ≡ m ∷ rest) (t : IsSegments b)
    → (next_answer b.answers).0 ≡ false
    → expire_oldest b ≡ (none, record b { answers = (next_answer b.answers).1 })
unfolding expire_oldest expire_first
expire_oldest-fails b m rest e t bad =
    rw (oldest_first b m rest e t, remove_fails b m rest e t bad) refl

module _ (checksum : Bytes → ℕ) (file : List Bool → BufWriter) (read : ℕ → ℕ → ℕ → Option Bytes)
    (segment_size capacity sweep_chunk : ℕ) (window : ℤ) where
  abbrev disk : Disk Buffer
  disk = buffer_disk checksum file read segment_size capacity sweep_chunk window

  oldest_time :
      (b : Buffer) (m : SegMeta) (rest : List SegMeta) (t : ℤ)
      → b.metas ≡ m ∷ rest
      → IsSegments b
      → disk.oldest b ≡ some t
      → m.t_max ≡ t
  unfolding time_of
  oldest_time b m rest t e good there = some-injective m.t_max t (
      sym (
        oldest_of checksum file read segment_size capacity sweep_chunk window b (some m)
          (oldest_first b m rest e good))
      ∙ there)

  -- The oldest time is that of the first segment; without one there is no segment.
  pub oldest_segment :
      (b : Buffer) (t : ℤ)
      → IsSegments b
      → disk.oldest b ≡ some t
      → (m : SegMeta) × (rest : List SegMeta) × (b.metas ≡ m ∷ rest) × (m.t_max ≡ t)
  unfolding time_of
  oldest_segment b t good there = elim (segments_cases b.metas) [
    | inl e ↦ absurd (
        none-ne-some t (
          sym (
            oldest_of checksum file read segment_size capacity sweep_chunk window b none
              (oldest_none b e))
          ∙ there))
    | inr (m, rest, e) ↦ (m, rest, e, oldest_time b m rest t e good there)
  ]

  pub no_oldest : (b : Buffer) → IsSegments b → disk.oldest b ≡ none → b.metas ≡ []
  unfolding time_of
  no_oldest b good nothing = elim (segments_cases b.metas) [
    | inl e ↦ e
    | inr (m, rest, e) ↦ absurd (
        none-ne-some m.t_max (
          sym nothing
          ∙ oldest_of checksum file read segment_size capacity sweep_chunk window b (some m)
              (oldest_first b m rest e good)))
  ]

  -- The removals of the loop on the watermark take the oldest segments off, each older than the cutoff.
  pub Removed-IsTaken :
      (cutoff : ℤ) (b c : Buffer) (k : ℕ)
      → IsSegments b
      → Removed disk cutoff b k c
      → IsTaken cutoff b k c
  Removed-IsTaken cutoff b c k good kept = IsTaken-kept cutoff b b.answers good
  Removed-IsTaken cutoff b c k good (failed {t = t} there old r) =
      let left : (expire_oldest b).1 ≡ c = ap (λ x. x.1) r in
      let answer : freed_bytes (expire_oldest b).0 ≡ none = ap (λ x. x.0) r in
      elim (segments_cases b.metas) [
        | inl e ↦
            subst (IsTaken cutoff b 0) (sym (ap (λ x. x.1) (expire_oldest-none b e)) ∙ left)
              (IsTaken-kept cutoff b b.answers good)
        | inr (m, rest, e) ↦ elim (Bool-cases (next_answer b.answers).0) [
          | inl ok ↦ cc (rw (expire_oldest-first b m rest e good ok) at answer)
          | inr bad ↦
              subst (IsTaken cutoff b 0)
                (sym (ap (λ x. x.1) (expire_oldest-fails b m rest e good bad)) ∙ left)
                (IsTaken-kept cutoff b (next_answer b.answers).1 good)
        ]
      ]
  Removed-IsTaken cutoff b d k good
        (gone {c = c} {k = n} {t = t} {freed = freed} there old r later) =
      let left : (expire_oldest b).1 ≡ c = ap (λ x. x.1) r in
      let answer : freed_bytes (expire_oldest b).0 ≡ some freed = ap (λ x. x.0) r in
      elim (segments_cases b.metas) [
        | inl e ↦ cc (rw (expire_oldest-none b e) at answer)
        | inr (m, rest, e) ↦ elim (Bool-cases (next_answer b.answers).0) [
          | inr bad ↦ cc (rw (expire_oldest-fails b m rest e good bad) at answer)
          | inl ok ↦
              let c0 = without b m rest (next_answer b.answers).1 in
              let same : c ≡ c0 =
                sym left ∙ ap (λ x. x.1) (expire_oldest-first b m rest e good ok) in
              let good_c =
                subst IsSegments (sym same)
                  (without-IsSegments b m rest e good (next_answer b.answers).1) in
              IsTaken-cons cutoff b m rest (next_answer b.answers).1 n d e (first b m rest e good).0
                (subst (λ u. ltb_ℤ u cutoff ≡ true) (sym (oldest_time b m rest t e good there)) old)
                (subst (λ x. IsTaken cutoff x n d) same (Removed-IsTaken cutoff c d n good_c later))
        ]
      ]

  -- The run of removals ended at one that the system refused, of a segment older than the cutoff.
  pub Failing-answer :
      (cutoff : ℤ) (b c : Buffer) (k : ℕ)
      → IsSegments b
      → Failing disk cutoff b k c
      → ((m : SegMeta) × (rest : List SegMeta) × (c.metas ≡ m ∷ rest)
          × (ltb_ℤ m.t_max cutoff ≡ true))
        × ((next_answer (after_calls k b.answers)).0 ≡ false)
  Failing-answer cutoff b c k good (fails_now {t = t} there old r) =
      let left : (expire_oldest b).1 ≡ c = ap (λ x. x.1) r in
      let answer : freed_bytes (expire_oldest b).0 ≡ none = ap (λ x. x.0) r in
      let (m, rest, e, same) = oldest_segment b t good there in
      elim (Bool-cases (next_answer b.answers).0) [
        | inl ok ↦ cc (rw (expire_oldest-first b m rest e good ok) at answer)
        | inr bad ↦
            let after : (expire_oldest b).1.metas ≡ b.metas =
              ap (λ x. x.1.metas) (expire_oldest-fails b m rest e good bad) in
            (
              (
                m,
                rest,
                ap (λ x. x.metas) (sym left) ∙ after ∙ e,
                subst (λ u. ltb_ℤ u cutoff ≡ true) (sym same) old,
              ),
              bad,
            )
      ]
  Failing-answer cutoff b d k good
        (fails_later {c = c} {k = n} {t = t} {freed = freed} there old r later) =
      let left : (expire_oldest b).1 ≡ c = ap (λ x. x.1) r in
      let answer : freed_bytes (expire_oldest b).0 ≡ some freed = ap (λ x. x.0) r in
      let (m, rest, e, _) = oldest_segment b t good there in
      elim (Bool-cases (next_answer b.answers).0) [
        | inr bad ↦ cc (rw (expire_oldest-fails b m rest e good bad) at answer)
        | inl ok ↦
            let answers = (next_answer b.answers).1 in
            let same : c ≡ without b m rest answers =
              sym left ∙ ap (λ x. x.1) (expire_oldest-first b m rest e good ok) in
            let good_c = subst IsSegments (sym same) (without-IsSegments b m rest e good answers) in
            let (last, refused) = Failing-answer cutoff c d n good_c later in
            (last, subst (λ x. (next_answer (after_calls n x.answers)).0 ≡ false) same refused)
      ]
