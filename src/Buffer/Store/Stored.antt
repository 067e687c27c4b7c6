-- ===== src/Buffer/Store/Stored.antt =====
-- internal/buffer/buffer.go: what Append adds.
use retrosampler.Prelude.{
  ℕ, ◌+◌, ◌%◌, ◌^◌, ◌<◌, ◌⊎◌, ◌≡◌, refl, sym, ap, ◌∙◌, arith, Bool, true, false, ◌&&◌, List, [],
  ◌∷◌, ◌++◌, none, some,
}
use mathlib.Core.Path.{subst}
use mathlib.Core.Option.{some-injective}
use retrosampler.Prelude.{Bool-cases, Option-cases, inl, inr, ltb, if◌then◌else◌, length, bytes_eq}
use retrosampler.Prelude.Bytes.{Bytes}
use retrosampler.Prelude.Ints.{ℤ}
use retrosampler.Buffer.Record.{rec_header_len, len_u32}
use retrosampler.Buffer.Segment.Writer.{
  BufWriter, SegmentWriter, max_record_len, write_record, finish_append, note_record, append,
}
use retrosampler.Buffer.Segment.Records.{encode_rec}
use retrosampler.Buffer.Segment.Append.{write_record_ok}
use retrosampler.Buffer.Index.Defs.{Loc, places}
use retrosampler.Buffer.Index.Invariant.{IsIndex}
use retrosampler.Buffer.Index.Put.{put-Adds}
use retrosampler.Buffer.Store.Defs.{Buffer, roll, store, append_frag}
use retrosampler.Buffer.Store.Ascending.{IsSegments}
use retrosampler.Buffer.Store.Rolls.{
  IsNext, IsAscending-same, IsSegments-same, started, roll-IsRolled,
}

module _ (checksum : Bytes → ℕ) where
  -- What an append to a segment does: a record at its end, and the offset where it begins.
  append-writes :
      (s : SegmentWriter) (id frag : Bytes) (now : ℤ) (off : ℕ)
      → let r = append checksum s id frag now in
        r.0 ≡ some off
        → (off ≡ len_u32 s.size)
          × (r.1.gen ≡ s.gen)
          × (r.1.size ≡ s.size + (rec_header_len + length frag))
          × (r.1.w.bytes ≡ s.w.bytes ++ encode_rec checksum (record { id = id; frag = frag }))
  unfolding append finish_append note_record
  append-writes s id frag now off e = elim (Option-cases (write_record checksum id frag s.w).0) [
    | inl failed ↦ cc (rw failed at e)
    | inr (_, ok) ↦ rw ok (
      sym (some-injective _ _ (rw ok at e)),
      refl,
      refl,
      write_record_ok checksum (record { id = id; frag = frag }) s.w ok,
    )
  ]

  append-fails :
      (s : SegmentWriter) (id frag : Bytes) (now : ℤ)
      → (append checksum s id frag now).0 ≡ none
      → (write_record checksum id frag s.w).0 ≡ none
  unfolding append finish_append
  append-fails s id frag now e = elim (Option-cases (write_record checksum id frag s.w).0) [
    | inl failed ↦ failed
    | inr (_, ok) ↦ cc (rw ok at e)
  ]

abbrev pub new_loc : ℕ → ℕ → Bytes → Loc
new_loc gen off frag = record { gen = gen; off = off; len = len_u32 (length frag); next = none }

abbrev pub ByAnswer : Bool → Type 0 → Type 0 → Type 0
ByAnswer true P Q = P
ByAnswer false P Q = Q

ByAnswer_split : (t : Bool) (P Q : Type 0) → (t ≡ true → P) → (t ≡ false → Q) → ByAnswer t P Q
ByAnswer_split true P Q p q = p refl
ByAnswer_split false P Q p q = q refl

module _ (checksum : Bytes → ℕ) (file : List Bool → BufWriter) where
  -- The segment `s` has one more record, and the trace one more fragment, which is there; the other traces have what
  -- they had.
  pub record IsStored (id frag : Bytes) (s : SegmentWriter) (b c : Buffer) : Type 0 where
    pub gen : c.w.gen ≡ s.gen
    pub size : c.w.size ≡ s.size + (rec_header_len + length frag)
    pub bytes : c.w.w.bytes ≡ s.w.bytes ++ encode_rec checksum (record { id = id; frag = frag })
    pub index : IsIndex c.idx
    pub fragments :
        (k : Bytes)
        → places c.idx k ≡ (
            if bytes_eq id k
            then places b.idx id ++ (new_loc s.gen (len_u32 s.size) frag ∷ [])
            else places b.idx k)
    pub segments : IsSegments c
    pub next : IsNext c

  -- The segment that is written to: the active one, or a new one of the next generation, where the active one has
  -- records and the new one would end beyond the limit.
  abbrev pub IsTarget : ℕ → Bytes → Buffer → SegmentWriter → Type 0
  IsTarget segment_size frag b s =
      ByAnswer (ltb 0 b.w.size && ltb segment_size (b.w.size + rec_header_len + length frag))
        ((answers : List Bool) × (s ≡ started ((b.w.gen + 1) % 2 ^ 32) (file answers))) (s ≡ b.w)

  -- A failure leaves the fragments as they are.
  abbrev Stores : Bytes → Bytes → SegmentWriter → Buffer → Bool × Buffer → Type 0
  Stores id frag s b r =
      (r.0 ≡ true → IsStored id frag s b r.1)
      × (r.0 ≡ false
          → (r.1.idx ≡ b.idx) × IsSegments r.1 × ((write_record checksum id frag s.w).0 ≡ none))

  -- Append, by what it answers: it fails for a fragment that is too long, where a new segment is due and roll fails,
  -- or where the write of the record does.
  abbrev pub Appends : ℕ → Bytes → Bytes → Buffer → Bool × Buffer → Type 0
  Appends segment_size id frag b r =
      ByAnswer r.0 ((s : SegmentWriter) × IsTarget segment_size frag b s × IsStored id frag s b r.1)
        ((r.1.idx ≡ b.idx)
          × IsSegments r.1
          × ((max_record_len < length frag)
              ⊎ (((roll checksum file b).0 ≡ false)
                  ⊎ ((s : SegmentWriter) × IsTarget segment_size frag b s
                      × ((write_record checksum id frag s.w).0 ≡ none)))))

  store-Stores :
      (id frag : Bytes) (now : ℤ) (b : Buffer)
      → IsSegments b
      → IsNext b
      → IsIndex b.idx
      → length b.idx.arena < 2 ^ 31
      → Stores id frag b.w b (store checksum file id frag now b)
  unfolding store
  store-Stores id frag now b t next ti small =
      let r = append checksum b.w id frag now in
      elim (Option-cases (r.0)) [
        | inl failed ↦
            rw (store, failed)
              (
                λ e. cc,
                λ e. (
                  refl,
                  IsSegments-same b (record b { w = r.1 }) refl refl refl t,
                  append-fails checksum b.w id frag now failed,
                ),
              )
        | inr (off, ok) ↦
            let (t1, law, _) = put-Adds b.idx id (new_loc b.w.gen off frag) ti small in
            let (at, gen, size, bytes) = append-writes checksum b.w id frag now off ok in
            rw (store, ok)
              (
                λ e. record {
                  gen = gen;
                  size = size;
                  bytes = bytes;
                  index = t1;
                  fragments = λ k.
                      law k
                      ∙ ap
                          (λ o.
                            if bytes_eq id k
                            then places b.idx id ++ (new_loc b.w.gen o frag ∷ [])
                            else places b.idx k)
                          at;
                  segments = record { row = t.row; bytes = t.bytes };
                  next = IsAscending-same refl (sym gen) refl next;
                },
                λ e. cc,
              )
      ]

  Stores-rolled :
      (id frag : Bytes) (s : SegmentWriter) (b c : Buffer) (r : Bool × Buffer)
      → c.idx ≡ b.idx
      → Stores id frag s c r
      → Stores id frag s b r
  Stores-rolled id frag s b c r same (good, bad) = (
    λ e.
        let x = good e in
        record {
          gen = x.gen;
          size = x.size;
          bytes = x.bytes;
          index = x.index;
          fragments = λ k.
              x.fragments k
              ∙ ap
                  (λ i.
                    if bytes_eq id k
                    then places i id ++ (new_loc s.gen (len_u32 s.size) frag ∷ [])
                    else places i k)
                  same;
          segments = x.segments;
          next = x.next;
        },
    λ e. let (idx, t, why) = bad e in (idx ∙ same, t, why),
  )

  after_roll-Appends :
      (segment_size : ℕ) (id frag : Bytes) (now : ℤ) (b c : Buffer)
      → c.idx ≡ b.idx
      → IsSegments c
      → IsNext c
      → IsTarget segment_size frag b c.w
      → IsIndex b.idx
      → length b.idx.arena < 2 ^ 31
      → Appends segment_size id frag b (store checksum file id frag now c)
  after_roll-Appends segment_size id frag now b c idx t next target ti small =
      let (good, bad) = Stores-rolled id frag c.w b c (store checksum file id frag now c) idx (
        store-Stores id frag now c t next (subst IsIndex (sym idx) ti)
          (omega (arith, small, ap (λ x. length x.arena) idx))) in
      ByAnswer_split _ _ _ (λ e. (c.w, target, good e))
        (λ e. let (same, left, why) = bad e in (same, left, inr (inr (c.w, target, why))))

  -- In a buffer whose finalized segments are of ascending generations, below the active one, with generations and locs
  -- left and a well-formed index: an Append that succeeds writes the record at the end of the active segment, or as the
  -- first of a new one of the next generation where the active one is not empty and would go beyond the limit, and adds
  -- the fragment, with that segment and the offset where the record begins, at the end of its trace and to
  -- no other. One that fails changes no trace, and it fails only for a fragment that is too long, where roll fails, or
  -- where the write does. The segments stay well formed, and on success so does the index, and the
  -- active segment comes next.
  pub append_frag-Appends :
      (segment_size : ℕ) (id frag : Bytes) (now : ℤ) (b : Buffer)
      → IsSegments b
      → IsNext b
      → b.w.gen + 1 < 2 ^ 32
      → IsIndex b.idx
      → length b.idx.arena < 2 ^ 31
      → Appends segment_size id frag b (append_frag checksum file segment_size id frag now b)
  unfolding append_frag
  append_frag-Appends segment_size id frag now b t next small ti few =
      let over = ltb 0 b.w.size && ltb segment_size (b.w.size + rec_header_len + length frag) in
      let r = roll checksum file b in
      let after = append_frag checksum file segment_size id frag now b in
      elim (Bool-cases (ltb max_record_len (length frag))) [
        | inl long ↦ rw (append_frag, long) (refl, t, inl (ground (arith, long)))
        | inr short ↦ elim (Bool-cases over) [
          | inr room ↦
              let stores : after ≡ store checksum file id frag now b =
                rw (append_frag, short, room) refl in
              subst (Appends segment_size id frag b) (sym stores)
                (after_roll-Appends segment_size id frag now b b refl t next (rw room refl) ti few)
          | inl full ↦
              let (idx, _, kept, comes, _, new) = roll-IsRolled checksum file b t next small in
              elim (Bool-cases (r.0)) [
                | inr failed ↦ rw (append_frag, short, full, failed) (idx, kept, inr (inl refl))
                | inl ok ↦
                    let stores : after ≡ store checksum file id frag now r.1 =
                      rw (append_frag, short, full, ok) refl in
                    subst (Appends segment_size id frag b) (sym stores) (
                      after_roll-Appends segment_size id frag now b r.1 idx kept (comes ok)
                        (rw full (r.1.answers, new ok)) ti few)
              ]
        ]
      ]
