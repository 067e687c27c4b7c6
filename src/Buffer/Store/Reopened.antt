-- ===== src/Buffer/Store/Reopened.antt =====
-- internal/buffer/buffer.go: what Open finds on disk.
use mathlib.Core.Path.{subst}
use retrosampler.Prelude.{
  sym, ℕ, ◌+◌, ◌^◌, ◌≤◌, ◌≡◌, refl, ap, ◌∙◌, arith, Bool, true, false, List, [], ◌∷◌, ◌++◌,
  append-nil, Option, none, some,
}
use retrosampler.Prelude.{Option-cases, inl, inr, length}
use retrosampler.Prelude.Bytes.{Bytes}
use retrosampler.Prelude.Ints.{ℤ}
use retrosampler.Prelude.Options.{◌>>=◌}
use retrosampler.Buffer.Segment.Writer.{BufWriter}
use retrosampler.Buffer.Segment.Reader.{SegMeta, read_footer}
use retrosampler.Buffer.Index.Defs.{Index, places}
use retrosampler.Buffer.Store.Defs.{next_answer}
use retrosampler.Buffer.Store.Ascending.{IsAscending}
use retrosampler.Buffer.Store.Open.{Recovery, recover_segment, recover_from, last_gen}
use retrosampler.Buffer.Store.Replay.{fragments_in, AddsAll, AddsAll-trans, run_calls}
use retrosampler.Buffer.Store.Recovered.{
  IsRising, IsOpening, entries_of, entry_count, on_disk, has_footer, older_have_footers,
  segment_calls, after_recover, create_calls, Recovers, Finalizes, Finalizes-Recovers,
  recover_active-Recovers, recover_finalized-Finalizes, recover_segment-calls,
}

pub IsAscending-weaken :
    (g e f : ℕ) (metas : List SegMeta) → IsAscending g e metas → e ≤ f → IsAscending g f metas
IsAscending-weaken g e f [] row le = omega (arith, row, le)
IsAscending-weaken g e f (m ∷ metas) (here, row) le =
    (here, IsAscending-weaken (m.gen + 1) e f metas row le)

bind_some : {A : Type 0} (r : Option A) → (r >>= λ a. some a) ≡ r
bind_some none = refl
bind_some (some o) = refl

module _ (checksum : Bytes → ℕ) (file : List Bool → BufWriter) (content : ℕ → Bytes) where
  footed :
      (gen : ℕ) (footer : SegMeta)
      → read_footer checksum (content gen) ≡ some footer
      → has_footer checksum file content gen ≡ true
  unfolding has_footer
  footed gen footer e = rw (has_footer, e) refl

  footless :
      (gen : ℕ)
      → read_footer checksum (content gen) ≡ none
      → has_footer checksum file content gen ≡ false
  unfolding has_footer
  footless gen e = rw (has_footer, e) refl

  footed_calls :
      (gen : ℕ)
      → has_footer checksum file content gen ≡ true
      → (segment_calls checksum file content gen ≡ 3)
        × (create_calls checksum file content (gen ∷ []) ≡ 1)
  unfolding segment_calls create_calls
  footed_calls gen e = rw (segment_calls, create_calls, e) (refl, refl)

  footless_calls :
      (gen : ℕ)
      → has_footer checksum file content gen ≡ false
      → (segment_calls checksum file content gen ≡ 6)
        × (create_calls checksum file content (gen ∷ []) ≡ 0)
  unfolding segment_calls create_calls
  footless_calls gen e = rw (segment_calls, create_calls, e) (refl, refl)

  -- The state after the open and the stat of a segment.
  abbrev after_stat : Recovery → Recovery
  after_stat o = record o { answers = (next_answer (next_answer o.answers).1).1 }

  after_stat-IsOpening :
      (gen : ℕ) (o : Recovery)
      → IsOpening checksum file content gen o
      → IsOpening checksum file content gen (after_stat o)
  after_stat-IsOpening gen o t = record {
    no_writer = t.no_writer;
    row = t.row;
    bytes = t.bytes;
    index = t.index;
  }

  recover_newest-Recovers :
      (gen : ℕ) (now : ℤ) (o : Recovery)
      → IsOpening checksum file content gen o
      → length o.idx.arena + entry_count checksum file content (gen ∷ []) ≤ 2 ^ 31
      → Recovers checksum file content
          (run_calls (segment_calls checksum file content gen) o.answers)
          o.idx
          (gen ∷ [])
          true
          (create_calls checksum file content (gen ∷ []))
          (gen + 1)
          (recover_segment checksum file content gen true now o)
  recover_newest-Recovers gen now o t few =
      let o2 = after_stat o in
      let t2 = after_stat-IsOpening gen o t in
      let P = λ (c : ℕ) (after : Option (List Bool)) (r : Option Recovery).
        Recovers checksum file content after o.idx (gen ∷ []) true c (gen + 1) r in
      elim (Option-cases (read_footer checksum (content gen))) [
        | inl none_there ↦
            let (calls, creates) = footless_calls gen (footless gen none_there) in
            rw (calls, creates)
              (recover_segment-calls checksum file content (P 0) gen true now o 4 (inl refl) (
                rw none_there
                  (recover_active-Recovers checksum file content gen now o2 none_there t2 few)))
        | inr (footer, there) ↦
            let (calls, creates) = footed_calls gen (footed gen footer there) in
            rw (calls, creates)
              (recover_segment-calls checksum file content (P 1) gen true now o 1 (inl refl) (
                rw there (
                  Finalizes-Recovers checksum file content (run_calls 1 o2.answers) o.idx gen _ (
                    recover_finalized-Finalizes checksum file content gen footer o2 there t2 few))))
      ]

  recover_older-Finalizes :
      (gen : ℕ) (footer : SegMeta) (now : ℤ) (o : Recovery)
      → read_footer checksum (content gen) ≡ some footer
      → IsOpening checksum file content gen o
      → length o.idx.arena + entry_count checksum file content (gen ∷ []) ≤ 2 ^ 31
      → Finalizes checksum file content
          (run_calls 3 o.answers)
          o.idx
          gen
          (recover_segment checksum file content gen false now o)
  recover_older-Finalizes gen footer now o there t few =
      recover_segment-calls checksum file content
        (λ after r. Finalizes checksum file content after o.idx gen r) gen false now o 1 refl
        (rw there (
          recover_finalized-Finalizes checksum file content gen footer (after_stat o) there
            (after_stat-IsOpening gen o t) few))

  -- An older segment without a footer ends it.
  recover_older_none :
      (gen : ℕ) (now : ℤ) (o : Recovery)
      → read_footer checksum (content gen) ≡ none
      → recover_segment checksum file content gen false now o ≡ none
  recover_older_none gen now o none_there =
      recover_segment-calls checksum file content (λ after r. r ≡ none) gen false now o 0 refl
        (rw none_there refl)

  on_disk-cons :
      (gen : ℕ) (gens : List ℕ) (id : Bytes)
      → on_disk checksum file content (gen ∷ []) id ++ on_disk checksum file content gens id
        ≡ on_disk checksum file content (gen ∷ gens) id
  unfolding on_disk
  on_disk-cons gen gens id =
      ap (λ r. r ++ on_disk checksum file content gens id)
        (append-nil (fragments_in id gen (entries_of checksum file content gen)))

  AddsAll-cons :
      (gen : ℕ) (gens : List ℕ) (x y z : Index)
      → AddsAll x y
          (entry_count checksum file content (gen ∷ []))
          (on_disk checksum file content (gen ∷ []))
      → AddsAll y z (entry_count checksum file content gens) (on_disk checksum file content gens)
      → AddsAll x z
          (entry_count checksum file content (gen ∷ gens))
          (on_disk checksum file content (gen ∷ gens))
  unfolding entry_count
  AddsAll-cons gen gens x y z first more =
      let (t, law, locs) = AddsAll-trans x y z _ _ _ _ first more in
      (t, λ id. law id ∙ ap (λ r. places x id ++ r) (on_disk-cons gen gens id), omega (arith, locs))

  -- An older segment, and then the rest of the loop.
  older-Recovers :
      (after : Option (List Bool)) (x : Index) (gen : ℕ) (gens : List ℕ) (fine : Bool) (c g : ℕ)
      (o : Recovery) (r : Option Recovery)
      → AddsAll x o.idx
          (entry_count checksum file content (gen ∷ []))
          (on_disk checksum file content (gen ∷ []))
      → Recovers checksum file content after o.idx gens fine c g r
      → Recovers checksum file content after x (gen ∷ gens) fine c g r
  older-Recovers after x gen gens fine c g o none added h = h
  older-Recovers after x gen gens fine c g o (some p) added (calls, more, bytes, ready) =
      (calls, AddsAll-cons gen gens x o.idx p.idx added more, bytes, ready)

  after_older-Recovers :
      (after : Option (List Bool)) (x : Index) (gen : ℕ) (gens : List ℕ) (fine : Bool) (c g : ℕ)
      (now : ℤ) (r : Option Recovery)
      → Finalizes checksum file content after x gen r
      → ((o : Recovery)
          → length o.idx.arena ≤ length x.arena + entry_count checksum file content (gen ∷ [])
          → IsOpening checksum file content (gen + 1) o
          → Recovers checksum file content
              (after_recover checksum file content gens o.answers)
              o.idx
              gens
              fine
              c
              g
              (recover_from checksum file content gens now o))
      → Recovers checksum file content
          (after >>= after_recover checksum file content gens)
          x
          (gen ∷ gens)
          fine
          c
          g
          (r >>= recover_from checksum file content gens now)
  after_older-Recovers after x gen gens fine c g now none faulty rest =
      inl (ap (λ a. a >>= after_recover checksum file content gens) faulty)
  after_older-Recovers after x gen gens fine c g now (some o) (left, added, t) rest =
      let next = recover_from checksum file content gens now o in
      older-Recovers (after >>= after_recover checksum file content gens) x gen gens fine c g o next
        added
        (subst (λ a. Recovers checksum file content a o.idx gens fine c g next)
          (sym (ap (λ a. a >>= after_recover checksum file content gens) left)) (rest o added.2 t))

  entry_count-cons :
      (gen : ℕ) (gens : List ℕ)
      → entry_count checksum file content (gen ∷ gens)
        ≡ entry_count checksum file content (gen ∷ []) + entry_count checksum file content gens
  unfolding entry_count
  entry_count-cons gen gens = omega arith

  -- The whole loop of recover.
  pub recover_from-Recovers :
      (g gen : ℕ) (gens : List ℕ) (now : ℤ) (o : Recovery)
      → IsRising g (gen ∷ gens)
      → IsOpening checksum file content g o
      → length o.idx.arena + entry_count checksum file content (gen ∷ gens) ≤ 2 ^ 31
      → Recovers checksum file content
          (after_recover checksum file content (gen ∷ gens) o.answers)
          o.idx
          (gen ∷ gens)
          (older_have_footers checksum file content (gen ∷ gens))
          (create_calls checksum file content (gen ∷ gens))
          (last_gen checksum file content gen gens + 1)
          (recover_from checksum file content (gen ∷ gens) now o)
  unfolding recover_from last_gen older_have_footers after_recover create_calls
  recover_from-Recovers g gen [] now o (le, rising) t few =
      let t1 : IsOpening checksum file content gen o = record {
        no_writer = t.no_writer;
        row = IsAscending-weaken 1 g gen o.metas t.row le;
        bytes = t.bytes;
        index = t.index;
      } in
      rw
        (
          bind_some (recover_segment checksum file content gen true now o),
          bind_some (run_calls (segment_calls checksum file content gen) o.answers),
        )
        (recover_newest-Recovers gen now o t1 few)
  recover_from-Recovers g gen (g2 ∷ gens) now o (le, rising) t few =
      let t1 : IsOpening checksum file content gen o = record {
        no_writer = t.no_writer;
        row = IsAscending-weaken 1 g gen o.metas t.row le;
        bytes = t.bytes;
        index = t.index;
      } in
      let count = entry_count-cons gen (g2 ∷ gens) in
      let fine = older_have_footers checksum file content (g2 ∷ gens) in
      let creates = create_calls checksum file content (g2 ∷ gens) in
      let last = last_gen checksum file content g2 gens + 1 in
      elim (Option-cases (read_footer checksum (content gen))) [
        | inl lacking ↦
            rw (recover_older_none gen now o lacking) (inr (rw (footless gen lacking) refl))
        | inr (footer, there) ↦ rw (footed gen footer there) (
            after_older-Recovers (run_calls 3 o.answers) o.idx gen (g2 ∷ gens) fine creates last now
              _ (recover_older-Finalizes gen footer now o there t1 (omega (arith, few, count)))
              (λ p locs t2.
                recover_from-Recovers (gen + 1) g2 gens now p rising t2
                  (omega (arith, few, count, locs))))
      ]
