-- ===== src/Buffer/Store/Open.antt =====
-- internal/buffer/buffer.go: Open with the recovery of what is on disk, and Close. `content` is what the segments'
-- files have, by generation: a read gives it. The answers are those to the calls on files and directories, in
-- their order.
use retrosampler.Prelude.{
  ℕ, zero, suc, ◌+◌, ◌-◌, ◌*◌, ◌%◌, ◌^◌, Bool, true, false, ◌||◌, not, List, [], ◌∷◌, ◌++◌, Option,
  none, some,
}
use retrosampler.Prelude.{ltb, leb, if◌then◌else◌, length, take, drop, bytes_eq}
use retrosampler.Prelude.Bytes.{Bytes}
use retrosampler.Prelude.Ints.{ℤ, pos, ltb_ℤ}
use retrosampler.Prelude.Options.{◌>>=◌, ◌>>◌, require}
use retrosampler.Buffer.Segment.Writer.{
  DirEntry, BufWriter, SegmentWriter, new_segment_writer, flush, sys_call,
}
use retrosampler.Buffer.Segment.Reader.{SegMeta, scan_records, read_footer}
use retrosampler.Buffer.Index.Defs.{Loc, Index, new_index, put}
use retrosampler.Buffer.Store.Defs.{Buffer, next_answer, delete_meta}

pub record Options : Type 0 where
  pub window : ℤ
  pub segment_size : ℤ
  pub sweep_chunk : ℤ

-- `if v <= 0 { v = default }`
abbrev pub positive_or : ℤ → ℤ → ℤ
positive_or v default_value = if ltb_ℤ (pos 0) v then v else default_value

-- The options that Open goes on with; none for its error.
unfoldable pub checked_options : Options → Option Options
checked_options o = do
  require (ltb_ℤ (pos 0) o.window)
  let size = positive_or o.segment_size (pos (32 * 2 ^ 20))
  require (not (ltb_ℤ (pos (2 ^ 30)) size))
  some (record o { segment_size = size; sweep_chunk = positive_or o.sweep_chunk (pos 4096) })

-- strconv.ParseUint(s, 10, 32) from the value so far.
unfoldable pub read_decimal : ℕ → Bytes → Option ℕ
read_decimal v [] = some v
read_decimal v (c ∷ s) =
    let n = v * 10 + (c - b'0') in
    let rest = read_decimal n s in
    if ltb c b'0' || ltb b'9' c then none else if ltb (2 ^ 32 - 1) n then none else rest

unfoldable pub parse_uint32 : Bytes → Option ℕ
unfolding read_decimal
parse_uint32 [] = none
parse_uint32 (c ∷ s) = read_decimal 0 (c ∷ s)

unfoldable pub parse_seg_gen : Bytes → Option ℕ
unfolding parse_uint32
parse_seg_gen name = do
  require (leb 4 (length name))
  require (bytes_eq (drop (length name - 4) name) (b'.' ∷ b's' ∷ b'e' ∷ b'g' ∷ []))
  parse_uint32 (take (length name - 4) name)

pub record DirItem : Type 0 where
  pub name : Bytes
  pub is_dir : Bool

-- The loop over the directory: the files that are named as segments.
unfoldable pub segment_gens : List DirItem → List ℕ
unfolding parse_seg_gen
segment_gens [] = []
segment_gens (d ∷ items) =
    let gens = segment_gens items in
    if d.is_dir then gens else elim (parse_seg_gen d.name) [ none ↦ gens | some gen ↦ gen ∷ gens ]

unfoldable pub insert_gen : ℕ → List ℕ → List ℕ
insert_gen gen [] = gen ∷ []
insert_gen gen (g ∷ gens) =
    let rest = insert_gen gen gens in if leb gen g then gen ∷ g ∷ gens else g ∷ rest

-- slices.Sort
unfoldable pub sort_gens : List ℕ → List ℕ
unfolding insert_gen
sort_gens [] = []
sort_gens (gen ∷ gens) = insert_gen gen (sort_gens gens)

-- The fields of the buffer that recover fills. It has no writer until it gets one.
pub record Recovery : Type 0 where
  pub idx : Index
  pub w : Option SegmentWriter
  pub metas : List SegMeta
  pub finalized_bytes : ℕ
  pub answers : List Bool

-- A call to the system, with the early return where it fails.
unfoldable pub ask : {A : Type 0} → Recovery → (Recovery → Option A) → Option A
ask o then_do =
    let a = next_answer o.answers in if a.0 then then_do (record o { answers = a.1 }) else none

abbrev pub entry_loc : ℕ → DirEntry → Loc
entry_loc gen e = record { gen = gen; off = e.off; len = e.length; next = none }

unfoldable pub put_entries : ℕ → List DirEntry → Index → Index
put_entries gen [] x = x
put_entries gen (e ∷ entries) x = put_entries gen entries (put e.id (entry_loc gen e) x)

module _ (checksum : Bytes → ℕ) (file : List Bool → BufWriter) (content : ℕ → Bytes) where
  -- The file goes on with its valid prefix; its next writes are answered as those of `file`.
  abbrev pub reopened : ℕ → ℕ → ℤ → List DirEntry → List Bool → SegmentWriter
  reopened gen valid_end now entries answers = record {
    w = record (file answers) { bytes = take valid_end (content gen) };
    gen = gen;
    size = valid_end;
    t_min = now;
    t_max = now;
    dir = entries;
  }

  -- The seek of scanRecords, then the handle is closed, the file truncated, and opened for append.
  unfoldable pub recover_active : ℕ → ℤ → Recovery → Option Recovery
  unfolding ask put_entries
  recover_active gen now o =
      let scanned = scan_records checksum (content gen) in
      ask o (λ o1. ask o1 (λ o2. ask o2 (λ o3. ask o3 (λ o4. some (record o4 {
        w = some (reopened gen scanned.1 now scanned.0 o4.answers);
        idx = put_entries gen scanned.0 o4.idx;
      })))))

  unfoldable pub recover_finalized : ℕ → SegMeta → Recovery → Option Recovery
  unfolding ask put_entries delete_meta
  recover_finalized gen footer o =
      let size = length (content gen) in
      let meta : SegMeta = record {
        gen = gen;
        t_min = footer.t_min;
        t_max = footer.t_max;
        size = size;
        entries = [];
      } in
      ask (record o { idx = put_entries gen footer.entries o.idx })
        (λ o1. some (record o1 {
          metas = delete_meta gen o1.metas ++ (meta ∷ []);
          finalized_bytes = o1.finalized_bytes + size;
        }))

  -- The body of recover's loop: the open, the stat of readFooter, and what its result asks for.
  unfoldable pub recover_segment : ℕ → Bool → ℤ → Recovery → Option Recovery
  unfolding ask recover_active recover_finalized
  recover_segment gen is_newest now o = ask o (λ o1. ask o1 (λ o2.
      elim (read_footer checksum (content gen)) [
        | some footer ↦ recover_finalized gen footer o2
        | none ↦ if is_newest then recover_active gen now o2 else none
      ]))

  -- `i == len(gens)-1`, by the generations that are left.
  abbrev is_last : List ℕ → Bool
  is_last [] = true
  is_last (g ∷ gens) = false

  unfoldable pub recover_from : List ℕ → ℤ → Recovery → Option Recovery
  unfolding recover_segment
  recover_from [] now o = some o
  recover_from (gen ∷ gens) now o =
      recover_segment gen (is_last gens) now o >>= recover_from gens now

  abbrev pub recovered : SegmentWriter → Recovery → Buffer
  recovered w o = record {
    idx = o.idx;
    w = w;
    has_active_reader = false;
    metas = o.metas;
    finalized_bytes = o.finalized_bytes;
    min_gen = 1;
    answers = o.answers;
  }

  -- Where no segment goes on, the buffer creates one of the generation `gen`.
  unfoldable pub with_writer : ℕ → Recovery → Option Buffer
  with_writer gen o = elim o.w [
    | some w ↦ some (recovered w o)
    | none ↦
        let a = next_answer o.answers in
        new_segment_writer gen (if a.0 then some (file a.1) else none) >>= λ w.
        some (recovered w (record o { answers = a.1 }))
  ]

  unfoldable pub last_gen : ℕ → List ℕ → ℕ
  last_gen gen [] = gen
  last_gen gen (g ∷ gens) = last_gen g gens

  abbrev pub blank : List Bool → Recovery
  blank answers = record {
    idx = new_index;
    w = none;
    metas = [];
    finalized_bytes = 0;
    answers = answers;
  }

  -- Open, once the directory is read: the first segment of a new buffer, or recover.
  unfoldable pub open_gens : List ℕ → ℤ → List Bool → Option Buffer
  unfolding recover_from with_writer last_gen
  open_gens [] now answers = with_writer 1 (blank answers)
  open_gens (gen ∷ gens) now answers =
      recover_from (gen ∷ gens) now (blank answers)
      >>= with_writer ((last_gen gen gens + 1) % 2 ^ 32)

  -- The two answers that come first are those to mkdir and readdir.
  unfoldable pub open_buffer : Options → List DirItem → ℤ → List Bool → Option (Options × Buffer)
  unfolding checked_options segment_gens sort_gens open_gens
  open_buffer opts items now answers =
      let made = next_answer answers in
      let listed = next_answer made.1 in
      do
        o ← checked_options opts
        require made.0
        require listed.0
        b ← open_gens (sort_gens (segment_gens items)) now listed.1
        some (o, b)

-- How many of `n` handles fail to close.
unfoldable pub close_handles : ℕ → List Bool → ℕ × List Bool
close_handles zero answers = (0, answers)
close_handles (suc n) answers =
    let a = next_answer answers in
    let rest = close_handles n a.1 in (if a.0 then rest else (rest.0 + 1, rest.1))

abbrev failures : {A : Type 0} → Option A → ℕ
failures none = 1
failures (some a) = 0

-- The number of errors that Close joins, and the buffer that it leaves. Each finalized segment has a handle.
unfoldable pub close_buffer : Buffer → ℕ × Buffer
unfolding close_handles flush
close_buffer b =
    let flushed = flush b.w.w in
    let synced = sys_call flushed.1 in
    let closed = sys_call synced.1 in
    let readers =
      close_handles ((if b.has_active_reader then 1 else 0) + length b.metas) b.answers in
    (
      failures flushed.0 + failures synced.0 + failures closed.0 + readers.0,
      record b { w = record (b.w) { w = closed.1 }; answers = readers.1 },
    )
