-- ===== src/Buffer/Store/Expiry.antt =====
-- internal/buffer/buffer.go: the segments that Expire and ExpireOldest remove.
use mathlib.Core.Path.{subst}
use retrosampler.Prelude.{
  ℕ, zero, suc, ◌+◌, ◌-◌, ◌%◌, ◌^◌, ◌<◌, ◌≡◌, refl, sym, ap, ◌∙◌, arith, Bool, true, false, List,
  [], ◌∷◌, ◌++◌, none, some,
}
use retrosampler.Prelude.{◌⊎◌, Bool-cases, inl, inr, if◌then◌else◌, length, All}
use retrosampler.Prelude.Ints.{ℤ, ltb_ℤ}
use retrosampler.Buffer.Segment.Reader.{SegMeta}
use retrosampler.Buffer.Store.Defs.{
  Buffer, next_answer, oldest_from, oldest_finalized, delete_meta, size_of, drop_segment,
  remove_segment, delete_next, delete_from, delete_expired,
}
use retrosampler.Buffer.Store.Ascending.{
  IsAscending, floor_after, IsAscending_le, total, IsSegments, oldest_from-IsAscending,
  delete_meta-IsAscending,
}

pub oldest_none : (b : Buffer) → b.metas ≡ [] → oldest_finalized b ≡ none
unfolding oldest_finalized oldest_from
oldest_none b e = ap (oldest_from none) e

-- The buffer without its first segment.
abbrev pub without : Buffer → SegMeta → List SegMeta → List Bool → Buffer
without b m rest answers = record b {
  answers = answers;
  finalized_bytes = b.finalized_bytes - m.size;
  metas = rest;
  min_gen = m.gen + 1;
}

module _ (b : Buffer) (m : SegMeta) (rest : List SegMeta) (e : b.metas ≡ m ∷ rest)
    (t : IsSegments b) where
  pub first : IsAscending b.min_gen (2 ^ 32 - 1) (m ∷ rest)
  first = subst (IsAscending b.min_gen (2 ^ 32 - 1)) e t.row

  pub oldest_first : oldest_finalized b ≡ some m
  unfolding oldest_finalized oldest_from
  oldest_first =
      ap (oldest_from none) e
      ∙ oldest_from-IsAscending m (m.gen + 1) (2 ^ 32 - 1) rest (omega arith) (first).1

  -- Where the system removes the file, the first segment goes.
  drop_first :
      (answers : List Bool)
      → drop_segment m.gen (record b { answers = answers }) ≡ without b m rest answers
  unfolding drop_segment size_of delete_meta
  drop_first answers =
      let below = IsAscending_le (m.gen + 1) (2 ^ 32 - 1) rest (first).1 in
      let size : size_of m.gen b.metas ≡ m.size = ap (size_of m.gen) e ∙ ground (arith) in
      let left : delete_meta m.gen b.metas ≡ rest =
        ap (delete_meta m.gen) e
        ∙ ground (
          arith,
          delete_meta-IsAscending m.gen (m.gen + 1) (2 ^ 32 - 1) rest (omega arith) (first).1,
        ) in
      let floor : (m.gen + 1) % 2 ^ 32 ≡ m.gen + 1 = omega (arith, below) in
      ap
        (λ (s : ℕ). record b {
          answers = answers;
          finalized_bytes = b.finalized_bytes - s;
          metas = delete_meta m.gen b.metas;
          min_gen = (m.gen + 1) % 2 ^ 32;
        })
        size
      ∙ ap
          (λ (l : List SegMeta). record b {
            answers = answers;
            finalized_bytes = b.finalized_bytes - m.size;
            metas = l;
            min_gen = (m.gen + 1) % 2 ^ 32;
          })
          left
      ∙ ap
          (λ (g : ℕ). record b {
            answers = answers;
            finalized_bytes = b.finalized_bytes - m.size;
            metas = rest;
            min_gen = g;
          })
          floor

  pub remove_first :
      (next_answer b.answers).0 ≡ true
      → remove_segment m.gen b ≡ (true, without b m rest (next_answer b.answers).1)
  unfolding remove_segment
  remove_first ok =
      ap
        (λ (t : Bool).
          if t
          then (true, drop_segment m.gen (record b { answers = (next_answer b.answers).1 }))
          else (false, record b { answers = (next_answer b.answers).1 }))
        ok
      ∙ ap (λ c. (true, c)) (drop_first (next_answer b.answers).1)

  pub remove_fails :
      (next_answer b.answers).0 ≡ false
      → remove_segment m.gen b ≡ (false, record b { answers = (next_answer b.answers).1 })
  unfolding remove_segment
  remove_fails failed =
      ap
        (λ (t : Bool).
          if t
          then (true, drop_segment m.gen (record b { answers = (next_answer b.answers).1 }))
          else (false, record b { answers = (next_answer b.answers).1 }))
        failed

  pub without-IsSegments : (answers : List Bool) → IsSegments (without b m rest answers)
  without-IsSegments answers = record {
    row = (first).1;
    bytes = omega (arith, t.bytes, ap total e);
  }

-- The answers that are left after `n` calls.
abbrev pub after_calls : ℕ → List Bool → List Bool
after_calls zero answers = answers
after_calls (suc n) answers = after_calls n (next_answer answers).1

-- The first segment, if there is one, is not older than the cutoff.
abbrev pub IsYoung : ℤ → List SegMeta → Type 0
IsYoung cutoff [] = Unit {0}
IsYoung cutoff (m ∷ metas) = ltb_ℤ m.t_max cutoff ≡ false

-- What deleteExpired frees and leaves: segments that are older than the cutoff, from the first on.
pub record IsDeleted (cutoff : ℤ) (b : Buffer) (freed : ℕ) (c : Buffer) : Type 0 where
  pub gone : List SegMeta
  pub split : b.metas ≡ gone ++ c.metas
  pub expired : All (λ m. ltb_ℤ m.t_max cutoff ≡ true) gone
  pub sizes : freed ≡ total gone
  pub bytes : c.finalized_bytes + freed ≡ b.finalized_bytes
  pub floor : c.min_gen ≡ floor_after b.min_gen gone
  pub kept : IsSegments c
  pub same_idx : c.idx ≡ b.idx
  pub same_w : c.w ≡ b.w
  pub ends :
      IsYoung cutoff c.metas ⊎ ((next_answer (after_calls (length gone) b.answers)).0 ≡ false)

IsDeleted-none :
    (cutoff : ℤ) (b : Buffer) (answers : List Bool)
    → IsSegments b
    → IsYoung cutoff b.metas ⊎ ((next_answer b.answers).0 ≡ false)
    → IsDeleted cutoff b 0 (record b { answers = answers })
IsDeleted-none cutoff b answers t h = record {
  gone = [];
  split = refl;
  expired = tt;
  sizes = refl;
  bytes = omega arith;
  floor = refl;
  kept = record { row = t.row; bytes = t.bytes };
  same_idx = refl;
  same_w = refl;
  ends = h;
}

IsDeleted-cons :
    (cutoff : ℤ) (b : Buffer) (m : SegMeta) (rest : List SegMeta) (freed : ℕ) (c : Buffer)
    → b.metas ≡ m ∷ rest
    → IsSegments b
    → ltb_ℤ m.t_max cutoff ≡ true
    → IsDeleted cutoff (without b m rest (next_answer b.answers).1) freed c
    → IsDeleted cutoff b (m.size + freed) c
IsDeleted-cons cutoff b m rest freed c e t old d = record {
  gone = m ∷ d.gone;
  split = e ∙ ap (λ r. m ∷ r) d.split;
  expired = (old, d.expired);
  sizes = omega (arith, d.sizes);
  bytes = omega (arith, d.bytes, t.bytes, ap total e);
  floor = d.floor;
  kept = d.kept;
  same_idx = d.same_idx;
  same_w = d.same_w;
  ends = d.ends;
}

pub no_answers :
    (answers : List Bool)
    → answers ≡ []
    → ((next_answer answers).0 ≡ true) × ((next_answer answers).1 ≡ [])
no_answers [] e = (refl, refl)
no_answers (a ∷ rest) e = cc

delete_from-IsDeleted :
    (n : ℕ) (metas : List SegMeta) (cutoff : ℤ) (b : Buffer)
    → b.metas ≡ metas
    → IsSegments b
    → length metas < n
    → IsDeleted cutoff b (delete_from n cutoff b).0 (delete_from n cutoff b).1
unfolding delete_from delete_next remove_segment
delete_from-IsDeleted zero metas cutoff b e t h = absurd (omega (arith, h))
delete_from-IsDeleted (suc n) [] cutoff b e t h =
    let nothing : oldest_finalized b ≡ none = oldest_none b e in
    rw nothing (IsDeleted-none cutoff b b.answers t (inl (subst (IsYoung cutoff) (sym e) tt)))
delete_from-IsDeleted (suc n) (m ∷ rest) cutoff b e t h =
    let old_first = oldest_first b m rest e t in
    let next = next_answer b.answers in
    elim (Bool-cases (ltb_ℤ m.t_max cutoff)) [
      | inr young ↦
          rw (old_first, young)
            (IsDeleted-none cutoff b b.answers t (inl (subst (IsYoung cutoff) (sym e) young)))
      | inl old ↦ elim (Bool-cases next.0) [
        | inr failed ↦
            rw (old_first, old, remove_fails b m rest e t failed)
              (IsDeleted-none cutoff b next.1 t (inr failed))
        | inl ok ↦
            let c = without b m rest next.1 in
            rw (old_first, old, remove_first b m rest e t ok)
              (IsDeleted-cons cutoff b m rest (delete_from n cutoff c).0 (delete_from n cutoff c).1
                e t old
                (delete_from-IsDeleted n rest cutoff c refl (without-IsSegments b m rest e t next.1)
                  (omega (arith, h))))
      ]
    ]

-- deleteExpired removes a run of segments that are older than the cutoff, from the oldest on, and counts what it
-- frees; the oldest that is left is not older than the cutoff, unless the system did not remove it.
pub delete_expired-IsDeleted :
    (cutoff : ℤ) (b : Buffer)
    → IsSegments b
    → IsDeleted cutoff b (delete_expired cutoff b).0 (delete_expired cutoff b).1
unfolding delete_expired
delete_expired-IsDeleted cutoff b t =
    delete_from-IsDeleted (length b.metas + 1) b.metas cutoff b refl t (omega arith)
