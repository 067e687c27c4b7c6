-- ===== src/Tests/BufferRuns.antt =====
-- internal/buffer/segment.go on concrete records.
use retrosampler.Prelude.{
  ◌-◌, false, ℕ, ◌+◌, ◌*◌, ◌%◌, ◌^◌, ◌<◌, ◌≡◌, refl, arith, [], ◌∷◌, some, take,
}
use retrosampler.Prelude.Bytes.{Bytes, le_bytes}
use retrosampler.Prelude.Ints.{pos, IsI64}
use retrosampler.Buffer.Record.{
  parse_record_header, put_record_header, len_u32, parse-put_record_header,
}
use retrosampler.Buffer.Segment.Writer.{
  SegmentWriter, append, finish_append, note_record, write_record, write, answer, finalize,
  write_footer, store_footer, write_tail, write_entries, flush, sys_call, sys_answer, u64_from_i64,
}
use retrosampler.Buffer.Segment.Records.{Rec, dir_from, whole, total_len, encode_recs}
use retrosampler.Buffer.Segment.Reader.{scan_records, read_footer}
use retrosampler.Buffer.Segment.Scan.{scan_records-take}
use retrosampler.Buffer.Segment.Append.{Holds, append-Holds}
use retrosampler.Buffer.Segment.Footer.{read_footer-finalize}

abbrev sum : Bytes → ℕ
sum [] = 7
sum (b ∷ bs) = 31 * sum bs + b

-- A checksum of 32 bits.
abbrev sum_32 : Bytes → ℕ
sum_32 bs = sum bs % 2 ^ 32

sum_32_small : (bs : Bytes) → sum_32 bs < 2 ^ 32
sum_32_small bs = omega arith

abbrev id_a : Bytes
id_a = 1 ∷ 2 ∷ 3 ∷ 4 ∷ 5 ∷ 6 ∷ 7 ∷ 8 ∷ 9 ∷ 10 ∷ 11 ∷ 12 ∷ 13 ∷ 14 ∷ 15 ∷ 16 ∷ []

abbrev id_b : Bytes
id_b = 9 ∷ 2 ∷ 3 ∷ 4 ∷ 5 ∷ 6 ∷ 7 ∷ 8 ∷ 9 ∷ 10 ∷ 11 ∷ 12 ∷ 13 ∷ 14 ∷ 15 ∷ 255 ∷ []

abbrev rec_a : Rec
rec_a = record { id = id_a; frag = 10 ∷ 20 ∷ [] }

abbrev rec_b : Rec
rec_b = record { id = id_b; frag = 30 ∷ [] }

abbrev fresh : SegmentWriter
fresh = record {
  w = record { bytes = []; script = []; broken = false };
  gen = 3;
  size = 0;
  t_min = pos (2 ^ 63 - 1);
  t_max = pos 0;
  dir = [];
}

fresh-Holds : Holds sum_32 fresh []
unfolding dir_from encode_recs
fresh-Holds = record { bytes = refl; size = refl; dir = refl; recs = tt }

abbrev one_record : SegmentWriter
one_record = (append sum_32 fresh id_a (10 ∷ 20 ∷ []) (pos 100)).1

appended_a : (append sum_32 fresh id_a (10 ∷ 20 ∷ []) (pos 100)).0 ≡ some 0
unfolding append finish_append note_record write_record write answer put_record_header len_u32
    le_bytes
appended_a = refl

one_record-Holds : Holds sum_32 one_record (rec_a ∷ [])
one_record-Holds =
    (append-Holds sum_32 fresh [] rec_a (pos 100) 0 fresh-Holds (refl, ground arith) appended_a).1

appended_b : (append sum_32 one_record id_b (30 ∷ []) (pos 120)).0 ≡ some 26
unfolding append finish_append note_record write_record write answer put_record_header len_u32
    le_bytes
appended_b = refl

finalized : (finalize sum_32 one_record).0 ≡ some (dir_from 0 (rec_a ∷ []))
unfolding append finish_append note_record write_record write answer put_record_header len_u32
    le_bytes finalize write_footer store_footer write_tail write_entries flush sys_call sys_answer
    u64_from_i64 dir_from
finalized = refl

IsI64-min : IsI64 one_record.t_min
unfolding append finish_append note_record write_record write answer
IsI64-min = (omega arith, omega arith)

IsI64-max : IsI64 one_record.t_max
unfolding append finish_append note_record write_record write answer
IsI64-max = (omega arith, omega arith)

parse-put_record_header_example :
    parse_record_header (put_record_header sum_32 id_a (10 ∷ 20 ∷ []))
    ≡ record { frag_len = 2; id = id_a; crc = sum_32 (10 ∷ 20 ∷ []) }
parse-put_record_header_example =
    parse-put_record_header sum_32 id_a (10 ∷ 20 ∷ []) refl (omega arith)
      (sum_32_small (10 ∷ 20 ∷ []))

scan_records-take_example :
    scan_records sum_32 (take 40 (encode_recs sum_32 (rec_a ∷ rec_b ∷ [])))
    ≡ (dir_from 0 (whole 40 (rec_a ∷ rec_b ∷ [])), total_len (whole 40 (rec_a ∷ rec_b ∷ [])))
scan_records-take_example =
    scan_records-take sum_32 sum_32_small (rec_a ∷ rec_b ∷ []) 40
      ((refl, ground arith), ((refl, ground arith), tt))

append-Holds_example :
    (◌≡◌ {A = ℕ} 26 (len_u32 (total_len (rec_a ∷ []))))
    × Holds sum_32 (append sum_32 one_record id_b (30 ∷ []) (pos 120)).1 (rec_a ∷ rec_b ∷ [])
append-Holds_example =
    append-Holds sum_32 one_record (rec_a ∷ []) rec_b (pos 120) 26 one_record-Holds
      (refl, ground arith) appended_b

read_footer-finalize_example :
    read_footer sum_32 (finalize sum_32 one_record).1.w.bytes
    ≡ some (record {
      gen = 0;
      t_min = one_record.t_min;
      t_max = one_record.t_max;
      size = 0;
      entries = dir_from 0 (rec_a ∷ []);
    })
read_footer-finalize_example =
    read_footer-finalize sum_32 one_record (rec_a ∷ []) (dir_from 0 (rec_a ∷ [])) sum_32_small
      one_record-Holds IsI64-min IsI64-max (ground arith) (ground arith) finalized
