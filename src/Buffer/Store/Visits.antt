-- ===== src/Buffer/Store/Visits.antt =====
-- internal/buffer/buffer.go: what Collect visits.
use retrosampler.Prelude.{
  ℕ, ◌+◌, ◌≡◌, refl, sym, ap, ◌∙◌, arith, Bool, true, false, List, [], ◌∷◌, Option, none, some,
}
use retrosampler.Prelude.{
  Bool-cases, ◌⊎◌, Option-cases, inl, inr, ltb, leb, ◌==◌, if◌then◌else◌, length, take, drop,
}
use retrosampler.Prelude.Bytes.{Bytes, le_value}
use retrosampler.Buffer.Record.{rec_header_len}
use retrosampler.Buffer.Segment.Writer.{flush}
use retrosampler.Buffer.Index.Defs.{Loc, places}
use retrosampler.Buffer.Store.Defs.{Buffer}
use retrosampler.Buffer.Store.Kept.{live_from}
use retrosampler.Buffer.Store.Collect.{
  frag_buf_len, open_active, flush_active, reader_for, Gathered, is_flushed, check_frag, read_frag,
  read_loc, with_reader, collect_from, collect,
}

module _ (checksum : Bytes → ℕ) (read_at : ℕ → ℕ → ℕ → Option Bytes) where
  -- The payload of a record, where it can be one and its checksum is right.
  unfoldable pub payload_in : Option Bytes → Option Bytes
  payload_in none = none
  payload_in (some buf) =
      if checksum (drop rec_header_len buf) == le_value (take 4 (drop 20 buf))
      then some (drop rec_header_len buf)
      else none

  unfoldable pub payload_at : Option ℕ → Loc → Option Bytes
  unfolding payload_in
  payload_at none l = none
  payload_at (some need) l = payload_in (read_at l.gen l.off need)

  abbrev cons_some : Option Bytes → List Bytes → List Bytes
  cons_some none ps = ps
  cons_some (some p) ps = p ∷ ps

  unfoldable pub payloads : List Loc → List Bytes
  unfolding payload_at
  payloads [] = []
  payloads (l ∷ locs) = cons_some (payload_at (frag_buf_len l.len) l) (payloads locs)

  -- A loop that ends without an error has visited the payloads of the fragments, and counted the others.
  abbrev Counts : List Loc → Gathered → Type 0
  Counts live c =
      c.failed ≡ false → (c.visited ≡ payloads live) × (length c.visited + c.skipped ≡ length live)

  check_frag-Counts :
      (buf : Bytes) (l : Loc) (live : List Loc) (rest : Gathered)
      → payload_at (frag_buf_len l.len) l ≡ payload_in (some buf)
      → Counts live rest
      → Counts (l ∷ live) (check_frag checksum read_at buf rest)
  unfolding check_frag payloads payload_in
  check_frag-Counts buf l live rest e h =
      elim (Bool-cases (checksum (drop rec_header_len buf) == le_value (take 4 (drop 20 buf)))) [
        | inl right ↦
            let kept : payload_in (some buf) ≡ some (drop rec_header_len buf) =
              rw (payload_in, right) refl in
            rw (check_frag, right)
              (λ ok.
                let (v, n) = h ok in
                (
                  ap (λ q. drop rec_header_len buf ∷ q) v
                      ∙ sym (ap (λ o. cons_some o (payloads live)) (e ∙ kept)),
                  omega (arith, n),
                ))
        | inr wrong ↦
            let lost : payload_in (some buf) ≡ none = rw (payload_in, wrong) refl in
            rw (check_frag, wrong)
              (λ ok.
                let (v, n) = h ok in
                (v ∙ sym (ap (λ o. cons_some o (payloads live)) (e ∙ lost)), omega (arith, n)))
      ]

  read_frag-Counts :
      (o : Option Bytes) (l : Loc) (live : List Loc) (rest : Gathered × Buffer) (b : Buffer)
      → payload_at (frag_buf_len l.len) l ≡ payload_in o
      → Counts live rest.0
      → Counts (l ∷ live) (read_frag checksum read_at o rest b).0
  unfolding read_frag
  read_frag-Counts none l live rest b e h = λ ok. cc
  read_frag-Counts (some buf) l live rest b e h = check_frag-Counts buf l live rest.0 e h

  read_loc-Counts :
      (o : Option ℕ) (l : Loc) (live : List Loc) (rest : Gathered × Buffer) (b : Buffer)
      → o ≡ frag_buf_len l.len
      → Counts live rest.0
      → Counts (l ∷ live) (read_loc checksum read_at o l rest b).0
  unfolding read_loc payloads payload_at
  read_loc-Counts none l live rest b e h = λ ok.
      let (v, n) = h ok in
      (v ∙ ap (λ o. cons_some (payload_at o l) (payloads live)) e, omega (arith, n))
  read_loc-Counts (some need) l live rest b e h =
      read_frag-Counts (read_at l.gen l.off need) l live rest b (ap (λ o. payload_at o l) (sym e)) h

  with_reader-Counts :
      (o : Option Bool) (l : Loc) (live : List Loc) (rest : Gathered × Buffer) (b : Buffer)
      → Counts live rest.0
      → Counts (l ∷ live) (with_reader checksum read_at o l rest b).0
  unfolding with_reader
  with_reader-Counts none l live rest b h = λ ok. cc
  with_reader-Counts (some f) l live rest b h =
      read_loc-Counts (frag_buf_len l.len) l live rest b refl h

-- Collect moves neither the index nor minGen.
abbrev Stays : Buffer → Buffer → Type 0
Stays b c = (c.idx ≡ b.idx) × (c.min_gen ≡ b.min_gen)

open_active-Stays : (b : Buffer) → Stays b (open_active b).1
unfolding open_active
open_active-Stays b = ground (arith)

flush_active-Stays : (b : Buffer) → Stays b (flush_active b).1
unfolding flush_active
flush_active-Stays b = elim (Option-cases (flush b.w.w).0) [
  | inl failed ↦ rw (flush_active, failed) (refl, refl)
  | inr (u, ok) ↦
      rw (flush_active, ok)
        (open_active-Stays (record b { w = record (b.w) { w = (flush b.w.w).1 } }))
]

reader_for-Stays : (gen : ℕ) (flushed : Bool) (b : Buffer) → Stays b (reader_for gen flushed b).1
unfolding reader_for
reader_for-Stays gen flushed b =
    let opened = open_active-Stays b in
    let both = flush_active-Stays b in ground (arith, opened.0, opened.1, both.0, both.1)

module _ (checksum : Bytes → ℕ) (read_at : ℕ → ℕ → ℕ → Option Bytes) where
  collect_from-Counts :
      (locs : List Loc) (g : ℕ) (flushed : Bool) (b : Buffer)
      → b.min_gen ≡ g
      → Counts checksum read_at (live_from g locs) (collect_from checksum read_at locs flushed b).0
  unfolding collect_from live_from payloads
  collect_from-Counts [] g flushed b e = λ ok. (refl, refl)
  collect_from-Counts (l ∷ locs) g flushed b e = elim (Bool-cases (ltb l.gen b.min_gen)) [
    | inl dead ↦
        let old : leb g l.gen ≡ false = ground (arith, dead, e) in
        rw (collect_from, live_from, dead, old) (collect_from-Counts locs g flushed b e)
    | inr alive ↦
        let young : leb g l.gen ≡ true = ground (arith, alive, e) in
        let r = reader_for l.gen flushed b in
        let rest =
          collect_from-Counts locs g (is_flushed r.0) r.1
            ((reader_for-Stays l.gen flushed b).1 ∙ e) in
        rw (collect_from, live_from, alive, young)
          (with_reader-Counts checksum read_at r.0 l (live_from g locs)
            (collect_from checksum read_at locs (is_flushed r.0) r.1) r.1 rest)
  ]

  -- Collect fails, or it has visited the payloads of the trace's fragments from minGen on, in their order, each with
  -- the checksum of its record, and each of these fragments is visited or counted as skipped.
  pub collect_lem :
      (id : Bytes) (b : Buffer)
      → let c = (collect checksum read_at id b).0 in
        let live = live_from b.min_gen (places b.idx id) in
        (c.failed ≡ true)
        ⊎ ((c.visited ≡ payloads checksum read_at live)
            × (length c.visited + c.skipped ≡ length live))
  unfolding collect
  collect_lem id b = elim (Bool-cases ((collect checksum read_at id b).0.failed)) [
    | inl failed ↦ inl failed
    | inr ended ↦ inr (collect_from-Counts (places b.idx id) b.min_gen false b refl ended)
  ]
