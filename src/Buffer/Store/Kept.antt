-- ===== src/Buffer/Store/Kept.antt =====
-- internal/buffer/buffer.go: Expire loses no fragment of a segment that is left.
use mathlib.Core.Path.{subst}
use retrosampler.Prelude.{
  ℕ, ◌+◌, ◌^◌, ◌≤◌, ◌<◌, ◌≡◌, refl, sym, ap, ◌∙◌, arith, Bool, true, false, ◌&&◌, ◌++◌, ◌⊎◌, List,
  [], ◌∷◌,
}
use retrosampler.Prelude.{length, Bool-cases, inl, inr, ltb, leb, if◌then◌else◌, All}
use retrosampler.Prelude.Bytes.{Bytes}
use retrosampler.Prelude.Ints.{ℤ, ltb_ℤ, ◌-ℤ◌}
use retrosampler.Buffer.Segment.Writer.{BufWriter, SegmentWriter}
use retrosampler.Buffer.Segment.Reader.{SegMeta}
use retrosampler.Buffer.Index.Defs.{Loc, places}
use retrosampler.Buffer.Index.Invariant.{IsIndex}
use retrosampler.Buffer.Index.Swept.{newest, survivors, survivors-young, survivors-old}
use retrosampler.Buffer.Index.Sweeps.{IsSmall, sweep-Sweeps}
use retrosampler.Buffer.Store.Defs.{Buffer, next_answer, delete_expired, roll, roll_stale, expire}
use retrosampler.Buffer.Store.Ascending.{
  IsSegments, IsAscending, IsAscending-after, floor_after, total,
}
use retrosampler.Buffer.Store.Expiry.{IsYoung, after_calls, delete_expired-IsDeleted}
use retrosampler.Buffer.Store.Rolls.{IsNext, IsAscending-same, sealed, roll-IsRolled}

-- The fragments of the generations from `g` on.
unfoldable pub live_from : ℕ → List Loc → List Loc
live_from g [] = []
live_from g (l ∷ ps) = let rest = live_from g ps in if leb g l.gen then l ∷ rest else rest

-- No fragment is of a later generation than the last.
abbrev pub IsOrdered : List Loc → Type 0
IsOrdered ps = All (λ l. l.gen ≤ newest ps) ps

live_from-dead :
    (g n : ℕ) (ps : List Loc) → n < g → All (λ (l : Loc). l.gen ≤ n) ps → live_from g ps ≡ []
unfolding live_from
live_from-dead g n [] lt all = refl
live_from-dead g n (l ∷ ps) lt (le, all) = ground (arith, le, lt, live_from-dead g n ps lt all)

live_from-survivors :
    (g : ℕ) (ps : List Loc) → IsOrdered ps → live_from g (survivors g ps) ≡ live_from g ps
unfolding live_from
live_from-survivors g ps ordered = elim (Bool-cases (ltb (newest ps) g)) [
  | inl old ↦
      ap (live_from g) (survivors-old g ps old)
      ∙ sym (live_from-dead g (newest ps) ps (ground (arith, old)) ordered)
  | inr young ↦ ap (live_from g) (survivors-young g ps young)
]

-- The segments after roll_stale: those before it, where the active segment has no records, is not older than the
-- cutoff, or was not rolled, and else the active one, too; `rolls` says whether a roll succeeds.
abbrev IsStale : ℤ → Bool → SegmentWriter → List SegMeta → List SegMeta → Type 0
IsStale cutoff rolls w left metas =
    ((metas ≡ left) × (((ltb 0 w.size && ltb_ℤ w.t_max cutoff) ≡ false) ⊎ (rolls ≡ false)))
    ⊎ ((size : ℕ) × (metas ≡ left ++ (sealed w size ∷ []))
        × (0 < w.size)
        × (ltb_ℤ w.t_max cutoff ≡ true))

-- The buffer after Expire: `gone` are the finalized segments that it has removed, and `left` the others, after which
-- there may be the active segment of before, where it has records and is older than the window.
pub record IsExpired (cutoff : ℤ) (rolls : Bool) (b : Buffer) (freed : ℕ) (c : Buffer)
    : Type 0 where
  pub gone : List SegMeta
  pub expired : All (λ m. ltb_ℤ m.t_max cutoff ≡ true) gone
  pub left : List SegMeta
  pub split : b.metas ≡ gone ++ left
  pub ends : IsYoung cutoff left ⊎ ((next_answer (after_calls (length gone) b.answers)).0 ≡ false)
  pub rolled : IsStale cutoff rolls b.w left c.metas
  pub sizes : freed ≡ total gone
  pub floor : c.min_gen ≡ floor_after b.min_gen gone
  pub segments : IsSegments c
  pub index : IsIndex c.idx
  pub fragments :
      (id : Bytes) → live_from c.min_gen (places c.idx id) ≡ live_from c.min_gen (places b.idx id)

and_cases : (s t : Bool) → (s && t) ≡ true → (s ≡ true) × (t ≡ true)
and_cases true true e = (refl, refl)
and_cases true false e = cc
and_cases false t e = cc

module _ (checksum : Bytes → ℕ) (file : List Bool → BufWriter) where
  roll_stale-keeps :
      (cutoff : ℤ) (b : Buffer)
      → IsSegments b
      → IsNext b
      → b.w.gen + 1 < 2 ^ 32
      → let c = roll_stale checksum file cutoff b in
        (c.idx ≡ b.idx)
        × (c.min_gen ≡ b.min_gen)
        × IsSegments c
        × IsStale cutoff (roll checksum file b).0 b.w b.metas c.metas
  unfolding roll_stale
  roll_stale-keeps cutoff b t next small =
      let (idx, min_gen, t1, _, metas, _) = roll-IsRolled checksum file b t next small in
      elim (Bool-cases (ltb 0 b.w.size && ltb_ℤ b.w.t_max cutoff)) [
        | inl stale ↦
            let (filled, old) = and_cases (ltb 0 b.w.size) (ltb_ℤ b.w.t_max cutoff) stale in
            rw (roll_stale, stale)
              (
                idx,
                min_gen,
                t1,
                elim metas [
                  | inl (same, failed) ↦ inl (same, inr failed)
                  | inr (size, more) ↦ inr (size, more, ground (arith, filled), old)
                ],
              )
        | inr fresh ↦ rw (roll_stale, fresh) (refl, refl, t, inl (refl, inl refl))
      ]

  -- In a buffer whose finalized segments are of ascending generations, below the active one, with fewer
  -- than 2 ^ 32 generations, a well-formed index of at most 2 ^ 31 locs, and no fragment of a trace newer
  -- than its last: Expire removes segments from the oldest on, each of them older than the window, and
  -- answers their sizes; the first that is left is not older, unless the system did not remove it. The others
  -- stay, with the active segment after them where it has records and is older than the window, unless roll failed.
  -- minGen goes past the last that was removed, segments and index stay well formed, and each trace keeps the
  -- fragments that stand in the generations from minGen on.
  pub expire-IsExpired :
      (capacity sweep_chunk : ℕ) (window now : ℤ) (b : Buffer)
      → IsSegments b
      → IsNext b
      → b.w.gen + 1 < 2 ^ 32
      → IsIndex b.idx
      → IsSmall b.idx
      → ((id : Bytes) → IsOrdered (places b.idx id))
      → let r = expire checksum file capacity sweep_chunk window now b in
        IsExpired
          (now -ℤ window)
          (roll checksum file (delete_expired (now -ℤ window) b).1).0
          b
          r.0
          r.1
  unfolding expire
  expire-IsExpired capacity sweep_chunk window now b t next small ti smalli ordered =
      let cutoff = now -ℤ window in
      let d = delete_expired-IsDeleted cutoff b t in
      let b1 = (delete_expired cutoff b).1 in
      let gen : b1.w.gen ≡ b.w.gen = ap (λ w. w.gen) d.same_w in
      let next1 : IsNext b1 = IsAscending-same (sym d.floor) (sym gen) refl (
        IsAscending-after b.min_gen b.w.gen d.gone b1.metas
          (subst (IsAscending b.min_gen b.w.gen) d.split next)) in
      let (idx, min_gen, t2, stale) =
        roll_stale-keeps cutoff b1 d.kept next1 (omega (arith, gen, small)) in
      let c = roll_stale checksum file cutoff b1 in
      let same : c.idx ≡ b.idx = idx ∙ d.same_idx in
      let (t3, each, _, _) =
        sweep-Sweeps capacity sweep_chunk c.min_gen c.idx (subst IsIndex (sym same) ti)
          (subst IsSmall (sym same) smalli) in
      record {
        gone = d.gone;
        expired = d.expired;
        left = b1.metas;
        split = d.split;
        ends = d.ends;
        rolled =
            subst (λ w. IsStale cutoff (roll checksum file b1).0 w b1.metas c.metas) d.same_w stale;
        sizes = d.sizes;
        floor = min_gen ∙ d.floor;
        segments = record { row = t2.row; bytes = t2.bytes };
        index = t3;
        fragments = λ id. elim (each id) [
          | inl kept ↦ ap (live_from c.min_gen) (kept ∙ ap (λ x. places x id) same)
          | inr swept ↦
              ap (live_from c.min_gen) (swept ∙ ap (λ x. survivors c.min_gen (places x id)) same)
              ∙ live_from-survivors c.min_gen (places b.idx id) (ordered id)
        ];
      }
