-- ===== src/Buffer/Store/Crash.antt =====
-- internal/buffer: a restart after a crash, from what was written.
use mathlib.Core.Path.{subst}
use mathlib.Core.Option.{none-ne-some}
use retrosampler.Prelude.{
  ℕ, ◌+◌, ◌-◌, ◌^◌, ◌≤◌, ◌<◌, ◌≡◌, refl, sym, ap, ◌∙◌, arith, Bool, true, List, [], ◌∷◌, ◌++◌,
  append-nil, append_assoc, Option, none, some,
}
use retrosampler.Prelude.{inl, inr, length, take, All}
use retrosampler.Prelude.Bytes.{Bytes}
use retrosampler.Prelude.Ints.{ℤ}
use retrosampler.Prelude.Options.{◌>>=◌}
use retrosampler.Buffer.Segment.Writer.{BufWriter}
use retrosampler.Buffer.Segment.Records.{Rec, IsRec, rec_len, dir_from, whole, encode_recs}
use retrosampler.Buffer.Segment.Entries.{length-dir_from}
use retrosampler.Buffer.Segment.Reader.{SegMeta, read_footer, scan_records}
use retrosampler.Buffer.Segment.Scan.{scan_records-take}
use retrosampler.Buffer.Index.Defs.{Loc, places}
use retrosampler.Buffer.Index.Invariant.{IsIndex}
use retrosampler.Buffer.Store.Defs.{Buffer}
use retrosampler.Buffer.Store.Ascending.{IsSegments}
use retrosampler.Buffer.Store.Rolls.{IsNext}
use retrosampler.Buffer.Store.Open.{
  Options, DirItem, segment_gens, sort_gens, checked_options, open_buffer,
}
use retrosampler.Buffer.Store.Replay.{fragments_in, run_calls, run_calls-nil}
use retrosampler.Buffer.Store.Recovered.{
  entries_of, on_disk, entry_count, has_footer, older_have_footers, segment_calls, after_recover,
  create_calls,
}
use retrosampler.Buffer.Store.Gens.{AreGens}
use retrosampler.Buffer.Store.Opened.{AreOptions, OpensWith, after_open, open_buffer-Opens}

-- Where the fragments of a trace are, in finalized segments that were written with these records.
unfoldable pub finalized_in : (ℕ → List Rec) → List ℕ → Bytes → List Loc
unfolding fragments_in dir_from
finalized_in written [] id = []
finalized_in written (gen ∷ gens) id =
    fragments_in id gen (dir_from 0 (written gen)) ++ finalized_in written gens id

-- How many records they have.
abbrev pub record_count : (ℕ → List Rec) → List ℕ → ℕ
record_count written [] = 0
record_count written (gen ∷ gens) = length (written gen) + record_count written gens

length-whole_few : (n : ℕ) (rs : List Rec) → length (whole n rs) ≤ length rs
unfolding whole
length-whole_few n [] = omega arith
length-whole_few n (r ∷ rs) = ground (arith, length-whole_few (n - rec_len r) rs)

module _ (checksum : Bytes → ℕ) (file : List Bool → BufWriter) (content : ℕ → Bytes) where
  -- Past the end of the answers each call succeeds.
  after_recover-nil : (gens : List ℕ) → after_recover checksum file content gens [] ≡ some []
  unfolding after_recover
  after_recover-nil [] = refl
  after_recover-nil (gen ∷ gens) =
      ap (λ a. a >>= after_recover checksum file content gens)
        (run_calls-nil (segment_calls checksum file content gen))
      ∙ after_recover-nil gens

  after_open-nil : (gens : List ℕ) → after_open checksum file content gens [] ≡ some []
  unfolding after_open
  after_open-nil gens =
      let create = run_calls (create_calls checksum file content gens) in
      ap (λ a. a >>= after_recover checksum file content gens >>= create) (run_calls-nil 2)
      ∙ ap (λ a. a >>= create) (after_recover-nil gens)
      ∙ run_calls-nil (create_calls checksum file content gens)

  -- The file of the generation `gen` has a footer with the directory of these records.
  abbrev pub IsFinalized : (ℕ → List Rec) → ℕ → Type 0
  IsFinalized written gen =
      (footer : SegMeta) × (read_footer checksum (content gen) ≡ some footer)
      × (footer.entries ≡ dir_from 0 (written gen))

  module _ (written : ℕ → List Rec) where
    entries_of_finalized :
        (gen : ℕ)
        → IsFinalized written gen
        → entries_of checksum file content gen ≡ dir_from 0 (written gen)
    unfolding entries_of
    entries_of_finalized gen (footer, there, same) = rw (entries_of, there) same

    on_disk_lem :
        (older : List ℕ) (gen : ℕ) (id : Bytes)
        → All (IsFinalized written) older
        → on_disk checksum file content (older ++ (gen ∷ [])) id
          ≡ finalized_in written older id
            ++ fragments_in id gen (entries_of checksum file content gen)
    unfolding on_disk finalized_in
    on_disk_lem [] gen id all =
        append-nil (fragments_in id gen (entries_of checksum file content gen))
    on_disk_lem (g ∷ older) gen id (first, all) =
        rw (entries_of_finalized g first, on_disk_lem older gen id all)
          (sym (
            append_assoc (fragments_in id g (dir_from 0 (written g)))
              (finalized_in written older id)
              (fragments_in id gen (entries_of checksum file content gen))))

    entry_count_lem :
        (older : List ℕ) (gen : ℕ)
        → All (IsFinalized written) older
        → entry_count checksum file content (older ++ (gen ∷ []))
          ≡ record_count written older + length (entries_of checksum file content gen)
    unfolding entry_count
    entry_count_lem [] gen all = omega arith
    entry_count_lem (g ∷ older) gen (first, all) = omega (
      arith,
      entry_count_lem older gen all,
      ap length (entries_of_finalized g first),
      length-dir_from (written g) 0,
    )

    older_have_footers_lem :
        (older : List ℕ) (gen : ℕ)
        → All (IsFinalized written) older
        → older_have_footers checksum file content (older ++ (gen ∷ [])) ≡ true
    unfolding older_have_footers has_footer
    older_have_footers_lem [] gen all = refl
    older_have_footers_lem (g ∷ []) gen ((footer, there, same), all) = rw (has_footer, there) refl
    older_have_footers_lem (g ∷ h ∷ older) gen ((footer, there, same), all) =
        rw (has_footer, there) (older_have_footers_lem (h ∷ older) gen all)

    pub torn_entries :
        (gen n : ℕ)
        → ((bs : Bytes) → checksum bs < 2 ^ 32)
        → All IsRec (written gen)
        → content gen ≡ take n (encode_recs checksum (written gen))
        → read_footer checksum (content gen) ≡ none
        → entries_of checksum file content gen ≡ dir_from 0 (whole n (written gen))
    unfolding entries_of
    torn_entries gen n is_u32 recs torn footless =
        rw (entries_of, footless)
          (ap (λ bs. (scan_records checksum bs).0) torn
            ∙ ap (λ r. r.0) (scan_records-take checksum is_u32 (written gen) n recs))

    -- What a restart finds.
    pub record IsRestarted (older : List ℕ) (gen n : ℕ) (opts : Options)
        (r : Option (Options × Buffer)) : Type 0 where
      pub opened : Options
      pub buffer : Buffer
      pub gives : r ≡ some (opened, buffer)
      pub limits : AreOptions opened
      pub segments : IsSegments buffer
      pub next : IsNext buffer
      pub index : IsIndex buffer.idx
      pub fragments :
          (id : Bytes)
          → places buffer.idx id
            ≡ finalized_in written older id
              ++ fragments_in id gen (dir_from 0 (whole n (written gen)))

    on_disk-torn :
        (older : List ℕ) (gen n : ℕ) (id : Bytes)
        → All (IsFinalized written) older
        → entries_of checksum file content gen ≡ dir_from 0 (whole n (written gen))
        → on_disk checksum file content (older ++ (gen ∷ [])) id
          ≡ finalized_in written older id
            ++ fragments_in id gen (dir_from 0 (whole n (written gen)))
    on_disk-torn older gen n id all found =
        on_disk_lem older gen id all
        ∙ ap (λ es. finalized_in written older id ++ fragments_in id gen es) found

    pub entry_count_few :
        (older : List ℕ) (gen n : ℕ)
        → All (IsFinalized written) older
        → entries_of checksum file content gen ≡ dir_from 0 (whole n (written gen))
        → record_count written older + length (written gen) ≤ 2 ^ 31
        → entry_count checksum file content (older ++ (gen ∷ [])) ≤ 2 ^ 31
    entry_count_few older gen n all found few = omega (
      arith,
      few,
      entry_count_lem older gen all,
      ap length found,
      length-dir_from (whole n (written gen)) 0,
      length-whole_few n (written gen),
    )

    OpensWith-IsRestarted :
        (older : List ℕ) (gen n : ℕ) (opts o : Options) (r : Option (Options × Buffer))
        → checked_options opts ≡ some o
        → All (IsFinalized written) older
        → entries_of checksum file content gen ≡ dir_from 0 (whole n (written gen))
        → OpensWith checksum file content opts
            (older ++ (gen ∷ []))
            (after_open checksum file content (older ++ (gen ∷ [])) [])
            r
        → IsRestarted older gen n opts r
    OpensWith-IsRestarted older gen n opts o none valid all found (inl refused) =
        absurd (none-ne-some o (sym refused ∙ valid))
    OpensWith-IsRestarted older gen n opts o none valid all found (inr (inl faulty)) =
        absurd (none-ne-some [] (sym faulty ∙ after_open-nil (older ++ (gen ∷ []))))
    OpensWith-IsRestarted older gen n opts o none valid all found (inr (inr lacking)) =
        cc (lacking, older_have_footers_lem older gen all)
    OpensWith-IsRestarted older gen n opts o (some (p, b)) valid all found (calls, limits, t) =
        record {
          opened = p;
          buffer = b;
          gives = refl;
          limits = limits;
          segments = t.segments;
          next = t.next;
          index = t.index;
          fragments = λ id. t.fragments id ∙ on_disk-torn older gen n id all found;
        }

    -- Where the directory names different generations, from 1 on and with one left after each, all but the newest
    -- of segments with a footer that has the directory of the records that they were written with; where the
    -- newest has no footer and the first `n` bytes of its records; with valid options, at most 2 ^ 31 records, and
    -- a system that fails at nothing: Open gives a buffer in which each trace has its fragments in the finalized
    -- segments, as they were written, and then those among the records of the newest that stand whole in
    -- the `n` bytes. Its options are in their limits, its segments and index well formed, and the active segment
    -- comes after the finalized ones.
    pub crash_lem :
        (older : List ℕ) (gen n : ℕ) (opts o : Options) (items : List DirItem) (now : ℤ)
        → ((bs : Bytes) → checksum bs < 2 ^ 32)
        → checked_options opts ≡ some o
        → AreGens (segment_gens items)
        → sort_gens (segment_gens items) ≡ older ++ (gen ∷ [])
        → All (IsFinalized written) older
        → All IsRec (written gen)
        → content gen ≡ take n (encode_recs checksum (written gen))
        → read_footer checksum (content gen) ≡ none
        → record_count written older + length (written gen) ≤ 2 ^ 31
        → IsRestarted older gen n opts (open_buffer checksum file content opts items now [])
    crash_lem older gen n opts o items now is_u32 valid are sorted all recs torn footless few =
        let found = torn_entries gen n is_u32 recs torn footless in
        let count = entry_count_few older gen n all found few in
        let opens = open_buffer checksum file content opts items now [] in
        OpensWith-IsRestarted older gen n opts o opens valid all found (
          subst
            (λ gens.
              OpensWith checksum file content opts gens (after_open checksum file content gens [])
                opens)
            sorted
            (open_buffer-Opens checksum file content opts items now [] are
              (subst (λ gens. entry_count checksum file content gens ≤ 2 ^ 31) (sym sorted) count)))
