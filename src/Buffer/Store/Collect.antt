-- ===== src/Buffer/Store/Collect.antt =====
-- internal/buffer/buffer.go: Collect. The source has a reader for each generation in metas.
use retrosampler.Prelude.{ℕ, ◌+◌, ◌-◌, ◌^◌, Bool, true, false, List, [], ◌∷◌, Option, none, some}
use retrosampler.Prelude.{ltb, ◌==◌, if◌then◌else◌, take, drop}
use retrosampler.Prelude.Bytes.{Bytes, le_value}
use retrosampler.Buffer.Record.{rec_header_len}
use retrosampler.Buffer.Segment.Writer.{flush}
use retrosampler.Buffer.Segment.Reader.{SegMeta}
use retrosampler.Buffer.Index.Defs.{Loc, places}
use retrosampler.Buffer.Store.Defs.{Buffer, next_answer}

unfoldable pub frag_buf_len : ℕ → Option ℕ
frag_buf_len n = if ltb (2 ^ 31 - 1) n then none else some (rec_header_len + n)

unfoldable pub has_reader : ℕ → List SegMeta → Bool
has_reader gen [] = false
has_reader gen (m ∷ metas) = let rest = has_reader gen metas in if m.gen == gen then true else rest

-- The handle on the active segment, opened where there is none. It is some true, for `*flushed`, or none for an
-- error.
unfoldable pub open_active : Buffer → Option Bool × Buffer
open_active b =
    let a = next_answer b.answers in
    if b.has_active_reader
    then (some true, b)
    else if a.0
    then (some true, record b { answers = a.1; has_active_reader = true })
    else (none, record b { answers = a.1 })

unfoldable pub flush_active : Buffer → Option Bool × Buffer
unfolding open_active
flush_active b =
    let r = flush b.w.w in
    let c = record b { w = record (b.w) { w = r.1 } } in
    elim (r.0) [ none ↦ (none, c) | some u ↦ open_active c ]

-- What `*flushed` is afterwards, or none for an error.
unfoldable pub reader_for : ℕ → Bool → Buffer → Option Bool × Buffer
unfolding has_reader flush_active open_active
reader_for gen flushed b =
    if gen == b.w.gen
    then if flushed then open_active b else flush_active b
    else if has_reader gen b.metas
    then (some flushed, b)
    else (none, b)

pub record Gathered : Type 0 where
  pub visited : List Bytes
  pub skipped : ℕ
  pub failed : Bool

abbrev pub stopped : Gathered
stopped = record { visited = []; skipped = 0; failed = true }

abbrev pub skips : Gathered → Gathered
skips c = record c { skipped = c.skipped + 1 }

abbrev pub add_visit : Bytes → Gathered → Gathered
add_visit frag c = record c { visited = frag ∷ c.visited }

abbrev pub is_flushed : Option Bool → Bool
is_flushed none = false
is_flushed (some flushed) = flushed

-- `read_at` is what a generation's file gives from an offset on, of that many bytes; none is an error.
module _ (checksum : Bytes → ℕ) (read_at : ℕ → ℕ → ℕ → Option Bytes) where
  unfoldable pub check_frag : Bytes → Gathered → Gathered
  check_frag buf rest =
      if checksum (drop rec_header_len buf) == le_value (take 4 (drop 20 buf))
      then add_visit (drop rec_header_len buf) rest
      else skips rest

  -- What is done with the bytes of a record, read or not.
  unfoldable pub read_frag : Option Bytes → Gathered × Buffer → Buffer → Gathered × Buffer
  unfolding check_frag
  read_frag none rest b = (stopped, b)
  read_frag (some buf) rest b = (check_frag buf rest.0, rest.1)

  -- After the reader, where `rest` is what the rest of the loop gives.
  unfoldable pub read_loc : Option ℕ → Loc → Gathered × Buffer → Buffer → Gathered × Buffer
  unfolding read_frag
  read_loc none l rest b = (skips rest.0, rest.1)
  read_loc (some need) l rest b = read_frag (read_at l.gen l.off need) rest b

  unfoldable pub with_reader : Option Bool → Loc → Gathered × Buffer → Buffer → Gathered × Buffer
  unfolding read_loc frag_buf_len
  with_reader none l rest b = (stopped, b)
  with_reader (some flushed) l rest b = read_loc (frag_buf_len l.len) l rest b

  unfoldable pub collect_from : List Loc → Bool → Buffer → Gathered × Buffer
  unfolding with_reader reader_for
  collect_from [] flushed b = (record { visited = []; skipped = 0; failed = false }, b)
  collect_from (l ∷ locs) flushed b =
      let dead = ltb l.gen b.min_gen in
      let r = if dead then (some flushed, b) else reader_for l.gen flushed b in
      let rest = collect_from locs (is_flushed r.0) r.1 in
      if dead then rest else with_reader r.0 l rest r.1

  unfoldable pub collect : Bytes → Buffer → Gathered × Buffer
  unfolding collect_from
  collect id b = collect_from (places b.idx id) false b
