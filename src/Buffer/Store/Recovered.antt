-- ===== src/Buffer/Store/Recovered.antt =====
-- internal/buffer/buffer.go: what recover reads back, a segment at a time.
use mathlib.Core.Path.{subst}
use retrosampler.Prelude.{
  ℕ, suc, ◌+◌, ◌-◌, ◌^◌, ◌≤◌, ◌≡◌, refl, sym, ap, ◌∙◌, arith, Bool, true, false, ◌&&◌, List, [],
  ◌∷◌, ◌++◌, append-nil, Option, none, some, ◌⊎◌,
}
use retrosampler.Prelude.{inl, if◌then◌else◌, length}
use retrosampler.Prelude.Bytes.{Bytes}
use retrosampler.Prelude.Ints.{ℤ}
use retrosampler.Prelude.Options.{◌>>=◌}
use retrosampler.Buffer.Segment.Writer.{DirEntry, BufWriter, SegmentWriter}
use retrosampler.Buffer.Segment.Reader.{SegMeta, scan_records, read_footer}
use retrosampler.Buffer.Index.Defs.{Loc, Index, places}
use retrosampler.Buffer.Index.Invariant.{IsIndex}
use retrosampler.Buffer.Store.Defs.{next_answer, delete_meta}
use retrosampler.Buffer.Store.Ascending.{IsAscending, total}
use retrosampler.Buffer.Store.Rolls.{IsAscending-append, delete_meta-above, total-append}
use retrosampler.Buffer.Store.Open.{
  Recovery, put_entries, recover_active, recover_finalized, recover_segment, ask, reopened,
}
use retrosampler.Buffer.Store.Replay.{
  fragments_in, AddsAll, put_entries-AddsAll, run_calls, ask-call,
}

-- The generations ascend from `g` on, and one is left after them.
abbrev pub IsRising : ℕ → List ℕ → Type 0
IsRising g [] = g ≤ 2 ^ 32 - 1
IsRising g (gen ∷ gens) = (g ≤ gen) × IsRising (gen + 1) gens

-- The finalized segments and the active one, if there is one, are below the generation `g`.
abbrev pub IsReady : ℕ → List SegMeta → Option SegmentWriter → Type 0
IsReady g metas none = IsAscending 1 g metas
IsReady g metas (some w) = (w.gen + 1 ≡ g) × IsAscending 1 w.gen metas

module _ (checksum : Bytes → ℕ) (file : List Bool → BufWriter) (content : ℕ → Bytes) where
  -- What a segment's file says of its records: its footer's directory, or a scan.
  unfoldable pub entries_of : ℕ → List DirEntry
  entries_of gen = elim (read_footer checksum (content gen)) [
    | none ↦ (scan_records checksum (content gen)).0
    | some footer ↦ footer.entries
  ]

  -- The fragments of a trace in the files of these segments, in their order.
  unfoldable pub on_disk : List ℕ → Bytes → List Loc
  unfolding fragments_in entries_of
  on_disk [] id = []
  on_disk (gen ∷ gens) id = fragments_in id gen (entries_of gen) ++ on_disk gens id

  unfoldable pub entry_count : List ℕ → ℕ
  unfolding entries_of
  entry_count [] = 0
  entry_count (gen ∷ gens) = length (entries_of gen) + entry_count gens

  unfoldable pub has_footer : ℕ → Bool
  has_footer gen = elim (read_footer checksum (content gen)) [ none ↦ false | some footer ↦ true ]

  -- Each segment but the newest has a footer.
  unfoldable pub older_have_footers : List ℕ → Bool
  unfolding has_footer
  older_have_footers [] = true
  older_have_footers (gen ∷ []) = true
  older_have_footers (gen ∷ g ∷ gens) =
      let rest = older_have_footers (g ∷ gens) in has_footer gen && rest

  -- The calls for a segment: open, stat and, with a footer, the open for reading; or seek, close, truncate and open.
  unfoldable pub segment_calls : ℕ → ℕ
  unfolding has_footer
  segment_calls gen = if has_footer gen then 3 else 6

  -- What recover's loop over these segments leaves of the answers.
  unfoldable pub after_recover : List ℕ → List Bool → Option (List Bool)
  unfolding segment_calls
  after_recover [] answers = some answers
  after_recover (gen ∷ gens) answers = run_calls (segment_calls gen) answers >>= after_recover gens

  -- The calls that create a segment: one, if the newest has a footer or there is none.
  unfoldable pub create_calls : List ℕ → ℕ
  unfolding has_footer
  create_calls [] = 1
  create_calls (gen ∷ []) = if has_footer gen then 1 else 0
  create_calls (gen ∷ g ∷ gens) = create_calls (g ∷ gens)

  abbrev pub missing : Option SegmentWriter → ℕ
  missing none = 1
  missing (some w) = 0

  -- recover's loop from a state with the index `x`, over these generations: it fails where one of its calls does, or
  -- where a segment lacks a footer; or the index has the fragments that are on disk, and the segments are in order.
  abbrev pub Recovers :
      Option (List Bool) → Index → List ℕ → Bool → ℕ → ℕ → Option Recovery → Type 0
  Recovers after x gens fine c g none = (after ≡ none) ⊎ (fine ≡ false)
  Recovers after x gens fine c g (some o) =
      ((after ≡ some o.answers) × (fine ≡ true) × (missing o.w ≡ c))
      × AddsAll x o.idx (entry_count gens) (on_disk gens)
      × (o.finalized_bytes ≡ total o.metas)
      × IsReady g o.metas o.w

  -- The state at the head of the loop.
  pub record IsOpening (g : ℕ) (o : Recovery) : Type 0 where
    pub no_writer : o.w ≡ none
    pub row : IsAscending 1 g o.metas
    pub bytes : o.finalized_bytes ≡ total o.metas
    pub index : IsIndex o.idx

  on_disk_one :
      (gen : ℕ) (id : Bytes) → fragments_in id gen (entries_of gen) ≡ on_disk (gen ∷ []) id
  unfolding on_disk
  on_disk_one gen id = sym (append-nil (fragments_in id gen (entries_of gen)))

  put_entries-one :
      (gen : ℕ) (entries : List DirEntry) (x : Index)
      → entries_of gen ≡ entries
      → IsIndex x
      → length x.arena + entry_count (gen ∷ []) ≤ 2 ^ 31
      → AddsAll x (put_entries gen entries x) (entry_count (gen ∷ [])) (on_disk (gen ∷ []))
  unfolding entry_count
  put_entries-one gen entries x e t few =
      let len = ap length e in
      let (t1, all, locs) = put_entries-AddsAll gen entries x t (omega (arith, few, len)) in
      (
        t1,
        λ id.
            all id
            ∙ ap (λ r. places x id ++ r) (ap (fragments_in id gen) (sym e) ∙ on_disk_one gen id),
        omega (arith, locs, len),
      )

  pub recover_active-Recovers :
      (gen : ℕ) (now : ℤ) (o : Recovery)
      → read_footer checksum (content gen) ≡ none
      → IsOpening gen o
      → length o.idx.arena + entry_count (gen ∷ []) ≤ 2 ^ 31
      → Recovers
          (run_calls 4 o.answers)
          o.idx
          (gen ∷ [])
          true
          0
          (gen + 1)
          (recover_active checksum file content gen now o)
  unfolding recover_active entries_of
  recover_active-Recovers gen now o footerless t few =
      let P = λ (after : Option (List Bool)) (r : Option Recovery).
        Recovers after o.idx (gen ∷ []) true 0 (gen + 1) r in
      let scanned = (scan_records checksum (content gen)).0 in
      let next = λ (o : Recovery). record o { answers = (next_answer o.answers).1 } in
      let found : entries_of gen ≡ scanned = rw (entries_of, footerless) refl in
      let added = put_entries-one gen scanned o.idx found t.index few in
      let o1 = next o in
      let o2 = next o1 in
      let o3 = next o2 in
      let last : Recovery → Option Recovery = λ o4. some (record o4 {
        w = some (
            reopened checksum file content gen (scan_records checksum (content gen)).1 now scanned
              o4.answers);
        idx = put_entries gen scanned o4.idx;
      }) in
      let after_close : Recovery → Option Recovery = λ o3. ask o3 last in
      let after_seek : Recovery → Option Recovery = λ o2. ask o2 after_close in
      ask-call P o (run_calls 3) (λ o1. ask o1 after_seek) (inl refl)
        (ask-call P o1 (run_calls 2) after_seek (inl refl) (
          ask-call P o2 (run_calls 1) after_close (inl refl) (
            ask-call P o3 (run_calls 0) last (inl refl)
              ((refl, refl, refl), added, t.bytes, (refl, t.row)))))

  -- What a segment with a footer adds: the loop goes on without a writer.
  abbrev pub Finalizes : Option (List Bool) → Index → ℕ → Option Recovery → Type 0
  Finalizes after x gen none = after ≡ none
  Finalizes after x gen (some o) =
      (after ≡ some o.answers)
      × AddsAll x o.idx (entry_count (gen ∷ [])) (on_disk (gen ∷ []))
      × IsOpening (gen + 1) o

  pub recover_finalized-Finalizes :
      (gen : ℕ) (footer : SegMeta) (o : Recovery)
      → read_footer checksum (content gen) ≡ some footer
      → IsOpening gen o
      → length o.idx.arena + entry_count (gen ∷ []) ≤ 2 ^ 31
      → Finalizes
          (run_calls 1 o.answers)
          o.idx
          gen
          (recover_finalized checksum file content gen footer o)
  unfolding recover_finalized entries_of
  recover_finalized-Finalizes gen footer o footed t few =
      let size = length (content gen) in
      let meta : SegMeta = record {
        gen = gen;
        t_min = footer.t_min;
        t_max = footer.t_max;
        size = size;
        entries = [];
      } in
      let found : entries_of gen ≡ footer.entries = rw (entries_of, footed) refl in
      let added = put_entries-one gen footer.entries o.idx found t.index few in
      let kept : delete_meta gen o.metas ++ (meta ∷ []) ≡ o.metas ++ (meta ∷ []) =
        ap (λ r. r ++ (meta ∷ [])) (delete_meta-above gen 1 o.metas t.row) in
      let noted : Recovery → Option Recovery = λ o1. some (record o1 {
        metas = delete_meta gen o1.metas ++ (meta ∷ []);
        finalized_bytes = o1.finalized_bytes + size;
      }) in
      ask-call (λ after r. Finalizes after o.idx gen r)
        (record o { idx = put_entries gen footer.entries o.idx }) (run_calls 0) noted refl
        (
          refl,
          added,
          record {
            no_writer = t.no_writer;
            row =
                subst (IsAscending 1 (gen + 1)) (sym kept) (
                  IsAscending-append 1 gen (gen + 1) o.metas meta t.row (omega arith)
                    (omega arith));
            bytes = omega (arith, t.bytes, total-append o.metas meta, ap total kept);
            index = added.0;
          },
        )

  pub Finalizes-Recovers :
      (after : Option (List Bool)) (x : Index) (gen : ℕ) (r : Option Recovery)
      → Finalizes after x gen r
      → Recovers after x (gen ∷ []) true 1 (gen + 1) r
  Finalizes-Recovers after x gen none faulty = inl faulty
  Finalizes-Recovers after x gen (some o) (left, added, t) = (
    (left, refl, ap missing t.no_writer),
    added,
    t.bytes,
    subst (IsReady (gen + 1) o.metas) (sym t.no_writer) t.row,
  )

  -- The open and the stat come first.
  module _ (P : Option (List Bool) → Option Recovery → Type 0) (gen : ℕ) (is_newest : Bool)
      (now : ℤ) (o : Recovery) where
    abbrev pub opened : Recovery
    opened = record o { answers = (next_answer (next_answer o.answers).1).1 }

    pub recover_segment-calls :
        (n : ℕ)
        → P none none
        → P (run_calls n opened.answers) (elim (read_footer checksum (content gen)) [
          | some footer ↦ recover_finalized checksum file content gen footer opened
          | none ↦ if is_newest then recover_active checksum file content gen now opened else none
        ])
        → P
            (run_calls (suc (suc n)) o.answers)
            (recover_segment checksum file content gen is_newest now o)
    unfolding recover_segment
    recover_segment-calls n faulty p =
        let after_stat : Recovery → Option Recovery = λ o2.
          elim (read_footer checksum (content gen)) [
            | some footer ↦ recover_finalized checksum file content gen footer o2
            | none ↦ if is_newest then recover_active checksum file content gen now o2 else none
          ] in
        ask-call P o (run_calls (suc n)) (λ o1. ask o1 after_stat) faulty
          (ask-call P (record o { answers = (next_answer o.answers).1 }) (run_calls n) after_stat
            faulty p)
