-- ===== src/Buffer/Store/Opened.antt =====
-- internal/buffer/buffer.go: the buffer that Open gives.
use mathlib.Core.Path.{subst}
use mathlib.Core.Option.{none-ne-some, some-injective}
use retrosampler.Prelude.{
  ℕ, ◌+◌, ◌-◌, ◌*◌, ◌%◌, ◌^◌, ◌≤◌, ◌<◌, ◌≡◌, refl, sym, ap, ◌∙◌, arith, Bool, true, false, List, [],
  ◌∷◌, ◌++◌, Option, none, some, ◌⊎◌,
}
use retrosampler.Prelude.{Bool-cases, Option-cases, inl, inr, length}
use retrosampler.Prelude.Bytes.{Bytes}
use retrosampler.Prelude.Ints.{ℤ, pos, ltb_ℤ, ◌<ℤ◌, ◌≤ℤ◌}
use retrosampler.Prelude.Options.{◌>>=◌}
use retrosampler.Buffer.Segment.Writer.{BufWriter, SegmentWriter, new_segment_writer}
use retrosampler.Buffer.Index.Defs.{new_index, places}
use retrosampler.Buffer.Index.Invariant.{IsIndex}
use retrosampler.Buffer.Index.Put.{new_index-IsIndex}
use retrosampler.Buffer.Store.Defs.{Buffer, next_answer}
use retrosampler.Buffer.Store.Ascending.{IsAscending, IsSegments, total}
use retrosampler.Buffer.Store.Rolls.{IsNext}
use retrosampler.Buffer.Store.Open.{
  Options, DirItem, Recovery, sort_gens, segment_gens, checked_options, blank, positive_or,
  last_gen, recovered, with_writer, open_gens, open_buffer,
}
use retrosampler.Buffer.Store.Replay.{run_calls, call_ok, call_fails}
use retrosampler.Buffer.Store.Recovered.{
  IsRising, IsReady, IsOpening, entry_count, on_disk, older_have_footers, missing, after_recover,
  create_calls, Recovers,
}
use retrosampler.Buffer.Store.Reopened.{IsAscending-weaken, recover_from-Recovers}
use retrosampler.Buffer.Store.Gens.{AreGens, sort_gens-IsRising}

-- The limits that Open gives its options.
abbrev pub AreOptions : Options → Type 0
AreOptions o =
    (pos 0 <ℤ o.window)
    × (pos 0 <ℤ o.segment_size)
    × (o.segment_size ≤ℤ pos (2 ^ 30))
    × (pos 0 <ℤ o.sweep_chunk)

positive_or-positive : (v d : ℤ) → pos 0 <ℤ d → pos 0 <ℤ positive_or v d
positive_or-positive v d lt = elim (Bool-cases (ltb_ℤ (pos 0) v)) [
  | inl given ↦ rw given (ground (arith, given))
  | inr missing ↦ rw missing lt
]

checked_options-AreOptions : (o p : Options) → checked_options o ≡ some p → AreOptions p
unfolding checked_options
checked_options-AreOptions o p e =
    let size = positive_or o.segment_size (pos (32 * 2 ^ 20)) in
    let chunk = positive_or o.sweep_chunk (pos 4096) in
    let q = record o { segment_size = size; sweep_chunk = chunk } in
    elim (Bool-cases (ltb_ℤ (pos 0) o.window)) [
      | inr no_window ↦
          let refused : checked_options o ≡ none = rw (checked_options, no_window) refl in
          absurd (none-ne-some p (sym refused ∙ e))
      | inl given ↦ elim (Bool-cases (ltb_ℤ (pos (2 ^ 30)) size)) [
        | inl large ↦
            let refused : checked_options o ≡ none = rw (checked_options, given, large) refl in
            absurd (none-ne-some p (sym refused ∙ e))
        | inr small ↦
            let taken : checked_options o ≡ some q = rw (checked_options, given, small) refl in
            subst AreOptions (some-injective _ _ (sym taken ∙ e)) (
              ground (arith, given),
              positive_or-positive o.segment_size (pos (32 * 2 ^ 20)) (omega arith),
              ground (arith, small),
              positive_or-positive o.sweep_chunk (pos 4096) (omega arith),
            )
      ]
    ]

module _ (checksum : Bytes → ℕ) (file : List Bool → BufWriter) (content : ℕ → Bytes) where
  -- A buffer over these segments, whose index has what they have.
  pub record IsOpened (gens : List ℕ) (b : Buffer) : Type 0 where
    pub segments : IsSegments b
    pub next : IsNext b
    pub room : b.w.gen < 2 ^ 32
    pub index : IsIndex b.idx
    pub fragments : (id : Bytes) → places b.idx id ≡ on_disk checksum file content gens id
    pub locs : length b.idx.arena ≤ entry_count checksum file content gens

  -- What Open leaves of the answers: it makes and reads the directory, recovers what is there, and creates a segment
  -- where none goes on.
  unfoldable pub after_open : List ℕ → List Bool → Option (List Bool)
  after_open gens answers =
      run_calls 2 answers
      >>= after_recover checksum file content gens
      >>= run_calls (create_calls checksum file content gens)

  -- No buffer is given only where a call fails, or where an older segment lacks its footer.
  abbrev Opens : List ℕ → Option (List Bool) → Option Buffer → Type 0
  Opens gens after none = (after ≡ none) ⊎ (older_have_footers checksum file content gens ≡ false)
  Opens gens after (some b) =
      (after ≡ some b.answers)
      × (older_have_footers checksum file content gens ≡ true)
      × IsOpened gens b

  last_gen-IsRising :
      (g gen : ℕ) (gens : List ℕ)
      → IsRising g (gen ∷ gens)
      → last_gen checksum file content gen gens + 1 ≤ 2 ^ 32 - 1
  unfolding last_gen
  last_gen-IsRising g gen [] (le, rising) = rising
  last_gen-IsRising g gen (h ∷ gens) (le, rising) = last_gen-IsRising (gen + 1) h gens rising

  recovered-IsOpened :
      (gens : List ℕ) (w : SegmentWriter) (o : Recovery)
      → w.gen ≤ 2 ^ 32 - 1
      → IsAscending 1 w.gen o.metas
      → o.finalized_bytes ≡ total o.metas
      → IsIndex o.idx
      → ((id : Bytes) → places o.idx id ≡ on_disk checksum file content gens id)
      → length o.idx.arena ≤ entry_count checksum file content gens
      → IsOpened gens (recovered checksum file content w o)
  unfolding recovered
  recovered-IsOpened gens w o room row bytes t law locs = record {
    segments = record {
      row = IsAscending-weaken 1 w.gen (2 ^ 32 - 1) o.metas row room;
      bytes = bytes;
    };
    next = row;
    room = omega (arith, room);
    index = t;
    fragments = law;
    locs = locs;
  }

  with_writer-Opens :
      (gens : List ℕ) (g : ℕ) (o : Recovery)
      → g ≤ 2 ^ 32 - 1
      → older_have_footers checksum file content gens ≡ true
      → IsReady g o.metas o.w
      → o.finalized_bytes ≡ total o.metas
      → IsIndex o.idx
      → ((id : Bytes) → places o.idx id ≡ on_disk checksum file content gens id)
      → length o.idx.arena ≤ entry_count checksum file content gens
      → Opens gens
          (run_calls (missing checksum file content o.w) o.answers)
          (with_writer checksum file content g o)
  unfolding with_writer new_segment_writer recovered
  with_writer-Opens gens g o room fine ready bytes t law locs = elim (Option-cases o.w) [
    | inr (w, there) ↦
        let (gen, row) = subst (IsReady g o.metas) there ready in
        rw there
          (refl, fine, recovered-IsOpened gens w o (omega (arith, gen, room)) row bytes t law locs)
    | inl nothing ↦ elim (Bool-cases (next_answer o.answers).0) [
      | inr failed ↦ rw (nothing, failed, call_fails o.answers failed) (inl refl)
      | inl created ↦
          rw (nothing, created, call_ok o.answers created)
            (
              refl,
              fine,
              recovered-IsOpened gens _ (record o { answers = (next_answer o.answers).1 }) room
                  (subst (IsReady g o.metas) nothing ready) bytes t law locs,
            )
    ]
  ]

  after_recover-Opens :
      (gens : List ℕ) (c g : ℕ) (after : Option (List Bool)) (r : Option Recovery)
      → g ≤ 2 ^ 32 - 1
      → Recovers checksum file content after new_index gens
          (older_have_footers checksum file content gens)
          c
          g
          r
      → Opens gens (after >>= run_calls c) (r >>= with_writer checksum file content g)
  unfolding new_index
  after_recover-Opens gens c g after none room (inl faulty) =
      inl (ap (λ a. a >>= run_calls c) faulty)
  after_recover-Opens gens c g after none room (inr lacking) = inr lacking
  after_recover-Opens gens c g after (some o) room
        ((left, fine, creates), (t, law, locs), bytes, ready) =
      subst (λ a. Opens gens a (with_writer checksum file content g o))
        (ap (λ n. run_calls n o.answers) creates ∙ sym (ap (λ a. a >>= run_calls c) left))
        (with_writer-Opens gens g o room fine ready bytes t
          (λ id.
            law id ∙ ap (λ r. r ++ on_disk checksum file content gens id) (new_index-IsIndex.1 id))
          (omega (arith, locs)))

  blank-IsOpening :
      (g : ℕ) (answers : List Bool)
      → 1 ≤ g
      → IsOpening checksum file content g (blank checksum file content answers)
  blank-IsOpening g answers le = record {
    no_writer = refl;
    row = le;
    bytes = refl;
    index = new_index-IsIndex.0;
  }

  open_gens-Opens :
      (gens : List ℕ) (now : ℤ) (answers : List Bool)
      → IsRising 1 gens
      → entry_count checksum file content gens ≤ 2 ^ 31
      → Opens gens
          (after_recover checksum file content gens answers
            >>= run_calls (create_calls checksum file content gens))
          (open_gens checksum file content gens now answers)
  unfolding open_gens on_disk entry_count new_index after_recover create_calls older_have_footers
  open_gens-Opens [] now answers rising few =
      with_writer-Opens [] 1 (blank checksum file content answers) (omega arith) refl (omega arith)
        refl (new_index-IsIndex.0) (new_index-IsIndex.1) (omega arith)
  open_gens-Opens (gen ∷ gens) now answers rising few =
      let last = last_gen checksum file content gen gens + 1 in
      let room = last_gen-IsRising 1 gen gens rising in
      let exact : last % 2 ^ 32 ≡ last = omega (arith, room) in
      rw exact (
        after_recover-Opens (gen ∷ gens) (create_calls checksum file content (gen ∷ gens)) last _ _
          room
          (recover_from-Recovers checksum file content 1 gen gens now
            (blank checksum file content answers) rising (blank-IsOpening 1 answers (omega arith))
            (omega (arith, few))))

  -- Open's result: the options and the buffer, or what the error is for.
  abbrev pub OpensWith : Options → List ℕ → Option (List Bool) → Option (Options × Buffer) → Type 0
  OpensWith opts gens after none =
      (checked_options opts ≡ none)
      ⊎ ((after ≡ none) ⊎ (older_have_footers checksum file content gens ≡ false))
  OpensWith opts gens after (some (o, b)) =
      ((checked_options opts ≡ some o)
        × (after ≡ some b.answers)
        × (older_have_footers checksum file content gens ≡ true))
      × AreOptions o
      × IsOpened gens b

  result_of :
      (opts o : Options) (gens : List ℕ) (after : Option (List Bool)) (r : Option Buffer)
      → checked_options opts ≡ some o
      → Opens gens after r
      → OpensWith opts gens after (r >>= λ b. some (o, b))
  result_of opts o gens after none valid (inl faulty) = inr (inl faulty)
  result_of opts o gens after none valid (inr lacking) = inr (inr lacking)
  result_of opts o gens after (some b) valid (left, fine, t) =
      ((valid, left, fine), checked_options-AreOptions opts o valid, t)

  -- Where the directory names different generations, from 1 on and with one left after each, and the files have at
  -- most 2 ^ 31 entries: Open gives a buffer exactly if its options are in order, each of its calls succeeds (to make
  -- and read the directory, three for a segment with a footer, six for one without, and one to create a segment
  -- where none goes on), and each segment but the newest has a footer. Then the options have their defaults
  -- and are in their limits, each trace has exactly the fragments that the segments' entries name, in the
  -- order of the generations, and segments and index are well formed.
  pub open_buffer-Opens :
      (opts : Options) (items : List DirItem) (now : ℤ) (answers : List Bool)
      → AreGens (segment_gens items)
      → entry_count checksum file content (sort_gens (segment_gens items)) ≤ 2 ^ 31
      → let gens = sort_gens (segment_gens items) in
        OpensWith opts gens
          (after_open gens answers)
          (open_buffer checksum file content opts items now answers)
  unfolding open_buffer after_open
  open_buffer-Opens opts items now answers are few =
      let gens = sort_gens (segment_gens items) in
      let made = next_answer answers in
      let listed = next_answer made.1 in
      let b = open_gens checksum file content gens now listed.1 in
      let later =
        open_gens-Opens gens now listed.1 (sort_gens-IsRising (segment_gens items) are) few in
      elim (Option-cases (checked_options opts)) [
        | inl refused ↦ rw (open_buffer, refused) (inl refused)
        | inr (o, valid) ↦ elim (Bool-cases made.0) [
          | inr failed ↦ rw (open_buffer, valid, failed, call_fails answers failed) (inr (inl refl))
          | inl first ↦ elim (Bool-cases listed.0) [
            | inr failed ↦
                rw
                  (
                    open_buffer,
                    valid,
                    first,
                    failed,
                    call_ok answers first,
                    call_fails made.1 failed,
                  )
                  (inr (inl refl))
            | inl second ↦
                rw (open_buffer, valid, first, second, call_ok answers first, call_ok made.1 second)
                  (result_of opts o gens _ b valid later)
          ]
        ]
      ]
