-- ===== src/Tests/RecoveryRuns.antt =====
-- internal/buffer/buffer.go: a directory with a finalized segment and one that a crash has torn.
use mathlib.Core.Path.{subst}
use retrosampler.Prelude.{
  sym, ℕ, ◌+◌, ◌*◌, ◌%◌, ◌^◌, ◌≤◌, ◌<◌, ◌≡◌, refl, ap, arith, true, false, List, [], ◌∷◌, none,
  some, take,
}
use retrosampler.Prelude.Bytes.{Bytes, le_bytes, le_value}
use retrosampler.Prelude.{bytes_eq_refl, ◌==◌, if◌then◌else◌}
use retrosampler.Prelude.Ints.{pos}
use retrosampler.Buffer.Record.{put_record_header, len_u32}
use retrosampler.Buffer.Segment.Writer.{
  BufWriter, SegmentWriter, append, finish_append, note_record, write_record, write, answer,
  finalize, write_footer, store_footer, write_tail, write_entries, flush, sys_call, sys_answer,
  u64_from_i64, i64_from_u64, encode_entry, encode_dir, encode_trailer,
}
use retrosampler.Buffer.Segment.Records.{Rec, dir_from, encode_rec, encode_recs}
use retrosampler.Buffer.Segment.Reader.{
  SegMeta, read_footer, read_trailer, read_dir, decode_dir, decode_entry,
}
use retrosampler.Buffer.Store.Open.{
  Options, DirItem, segment_gens, sort_gens, insert_gen, parse_seg_gen, parse_uint32, read_decimal,
  checked_options, open_buffer,
}
use retrosampler.Buffer.Store.Recovered.{entry_count}
use retrosampler.Buffer.Store.Gens.{AreGens}
use retrosampler.Buffer.Store.Opened.{after_open, OpensWith, open_buffer-Opens}
use retrosampler.Buffer.Store.Crash.{IsRestarted, torn_entries, entry_count_few, crash_lem}

abbrev sum : Bytes → ℕ
sum [] = 7
sum (b ∷ bs) = 31 * sum bs + b

abbrev sum_32 : Bytes → ℕ
sum_32 bs = sum bs % 2 ^ 32

abbrev id_a : Bytes
id_a = 1 ∷ 2 ∷ 3 ∷ 4 ∷ 5 ∷ 6 ∷ 7 ∷ 8 ∷ 9 ∷ 10 ∷ 11 ∷ 12 ∷ 13 ∷ 14 ∷ 15 ∷ 16 ∷ []

abbrev rec_a : Rec
rec_a = record { id = id_a; frag = 10 ∷ 20 ∷ [] }

abbrev blank_file : BufWriter
blank_file = record { bytes = []; script = []; broken = false }

abbrev fresh : SegmentWriter
fresh = record { w = blank_file; gen = 1; size = 0; t_min = pos 9; t_max = pos 0; dir = [] }

abbrev one_record : SegmentWriter
one_record = (append sum_32 fresh id_a (10 ∷ 20 ∷ []) (pos 100)).1

abbrev finalized_file : Bytes
finalized_file = (finalize sum_32 one_record).1.w.bytes

-- Of the second of the active segment's two records, 4 bytes were written.
abbrev torn_file : Bytes
torn_file = take 30 (encode_recs sum_32 (rec_a ∷ rec_a ∷ []))

abbrev some_content : ℕ → Bytes
some_content gen = if gen == 1 then finalized_file else torn_file

abbrev some_records : ℕ → List Rec
some_records gen = if gen == 1 then rec_a ∷ [] else rec_a ∷ rec_a ∷ []

-- "2.seg" is taken for a segment, as is "000000001.seg"; a directory is not.
abbrev some_items : List DirItem
some_items =
    record { name = b'0' ∷ b'2' ∷ b'.' ∷ b's' ∷ b'e' ∷ b'g' ∷ []; is_dir = false }
    ∷ record { name = b'3' ∷ b'.' ∷ b's' ∷ b'e' ∷ b'g' ∷ []; is_dir = true }
    ∷ record { name = b'0' ∷ b'1' ∷ b'.' ∷ b's' ∷ b'e' ∷ b'g' ∷ []; is_dir = false }
    ∷ record { name = b'1' ∷ []; is_dir = false }
    ∷ []

abbrev some_options : Options
some_options = record { window = pos 100; segment_size = pos 0; sweep_chunk = pos 7 }

name_two : parse_seg_gen (b'0' ∷ b'2' ∷ b'.' ∷ b's' ∷ b'e' ∷ b'g' ∷ []) ≡ some 2
unfolding parse_seg_gen parse_uint32 read_decimal
name_two = rw (bytes_eq_refl (b'.' ∷ b's' ∷ b'e' ∷ b'g' ∷ [])) refl

name_one : parse_seg_gen (b'0' ∷ b'1' ∷ b'.' ∷ b's' ∷ b'e' ∷ b'g' ∷ []) ≡ some 1
unfolding parse_seg_gen parse_uint32 read_decimal
name_one = rw (bytes_eq_refl (b'.' ∷ b's' ∷ b'e' ∷ b'g' ∷ [])) refl

some_gens : segment_gens some_items ≡ 2 ∷ 1 ∷ []
unfolding segment_gens
some_gens = rw (name_two, name_one) refl

sorted_gens : sort_gens (segment_gens some_items) ≡ 1 ∷ 2 ∷ []
unfolding sort_gens insert_gen
sorted_gens = ap sort_gens some_gens

some_footer :
    (footer : SegMeta) × (read_footer sum_32 finalized_file ≡ some footer)
    × (footer.entries ≡ dir_from 0 (rec_a ∷ []))
unfolding append finish_append note_record write_record write answer put_record_header len_u32
    le_bytes finalize write_footer store_footer write_tail write_entries flush sys_call sys_answer
    u64_from_i64 dir_from read_footer read_trailer read_dir decode_dir decode_entry encode_trailer
    encode_entry le_value i64_from_u64 encode_dir
some_footer = (_, refl, refl)

footless : read_footer sum_32 torn_file ≡ none
unfolding read_footer encode_recs encode_rec put_record_header len_u32 le_bytes
footless = refl

sum_32_small : (bs : Bytes) → sum_32 bs < 2 ^ 32
sum_32_small bs = omega arith

some_limits :
    checked_options some_options
    ≡ some (record { window = pos 100; segment_size = pos (32 * 2 ^ 20); sweep_chunk = pos 7 })
unfolding checked_options
some_limits = refl

some_AreGens : AreGens (segment_gens some_items)
some_AreGens =
    subst AreGens (sym some_gens)
      (omega arith, omega arith, (ground arith, tt), (omega arith, omega arith, tt, tt))

crash_lem_example :
    IsRestarted sum_32
      (λ answers. blank_file)
      some_content
      some_records
      (1 ∷ [])
      2
      30
      some_options
      (open_buffer sum_32 (λ answers. blank_file) some_content some_options some_items (pos 50) [])
crash_lem_example =
    crash_lem sum_32 (λ answers. blank_file) some_content some_records (1 ∷ []) 2 30 some_options
      (record { window = pos 100; segment_size = pos (32 * 2 ^ 20); sweep_chunk = pos 7 })
      some_items (pos 50) sum_32_small some_limits some_AreGens sorted_gens (some_footer, tt)
      ((refl, ground arith), ((refl, ground arith), tt)) refl footless (omega arith)

some_entry_count :
    entry_count sum_32 (λ answers. blank_file) some_content (sort_gens (segment_gens some_items))
    ≤ 2 ^ 31
some_entry_count =
    subst (λ gens. entry_count sum_32 (λ answers. blank_file) some_content gens ≤ 2 ^ 31)
      (sym sorted_gens)
      (entry_count_few sum_32 (λ answers. blank_file) some_content some_records (1 ∷ []) 2 30
        (some_footer, tt)
        (torn_entries sum_32 (λ answers. blank_file) some_content some_records 2 30 sum_32_small
          ((refl, ground arith), ((refl, ground arith), tt)) refl footless)
        (omega arith))

open_buffer-Opens_example :
    let gens = sort_gens (segment_gens some_items) in
    OpensWith sum_32
      (λ answers. blank_file)
      some_content
      some_options
      gens
      (after_open sum_32
        (λ answers. blank_file)
        some_content
        gens
        (true ∷ true ∷ true ∷ false ∷ []))
      (open_buffer sum_32
        (λ answers. blank_file)
        some_content
        some_options
        some_items
        (pos 50)
        (true ∷ true ∷ true ∷ false ∷ []))
open_buffer-Opens_example =
    open_buffer-Opens sum_32 (λ answers. blank_file) some_content some_options some_items (pos 50)
      (true ∷ true ∷ true ∷ false ∷ []) some_AreGens some_entry_count
