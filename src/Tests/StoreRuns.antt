-- ===== src/Tests/StoreRuns.antt =====
-- internal/buffer/buffer.go: a buffer of two finalized segments, and a shard over it.
use retrosampler.Prelude.{
  ℕ, ◌+◌, ◌%◌, ◌^◌, ◌≡◌, refl, arith, true, false, List, [], ◌∷◌, Option, none, some, ◌⊎◌,
}
use retrosampler.Prelude.{Bool-cases, inl, inr, length, replicate, ◌⊎◌, bytes_eq}
use retrosampler.Prelude.Bytes.{Bytes}
use retrosampler.Prelude.Ints.{pos, ◌-ℤ◌}
use retrosampler.Buffer.Segment.Writer.{BufWriter}
use retrosampler.Buffer.Segment.Reader.{SegMeta}
use retrosampler.Buffer.Index.Defs.{Loc, new_index, put, places}
use retrosampler.Buffer.Index.Put.{put-Adds, new_index-IsIndex}
use retrosampler.Buffer.Index.Append.{Adds}
use retrosampler.Buffer.Index.Swept.{newest}
use retrosampler.Buffer.Store.Defs.{Buffer, delete_expired, roll, expire, append_frag}
use retrosampler.Buffer.Store.Ascending.{IsSegments}
use retrosampler.Buffer.Store.Kept.{IsExpired, IsOrdered, expire-IsExpired}
use retrosampler.Buffer.Store.Rolls.{IsNext}
use retrosampler.Buffer.Store.Kept.{live_from}
use retrosampler.Buffer.Store.Collect.{collect}
use retrosampler.Buffer.Store.Visits.{payloads, collect_lem}
use retrosampler.Shards.Decided.Defs.{new_decided_set}
use retrosampler.Shards.Queues.Defs.{floor_clear}
use retrosampler.Shards.Worker.Defs.{Disk, Node}
use retrosampler.Shards.Worker.Tick.{tick}
use retrosampler.Shards.Worker.OverBuffer.{buffer_disk}
use retrosampler.Shards.Worker.Ticked.{IsTicked, tick-IsTicked}
use retrosampler.Buffer.Store.Stored.{Appends, append_frag-Appends}

abbrev trace_id : Bytes
trace_id = 1 ∷ 2 ∷ 3 ∷ 4 ∷ 5 ∷ 6 ∷ 7 ∷ 8 ∷ 1 ∷ 0 ∷ 0 ∷ 0 ∷ 0 ∷ 0 ∷ 0 ∷ 0 ∷ []

abbrev first_loc : Loc
first_loc = record { gen = 1; off = 0; len = 40; next = none }

abbrev blank_file : BufWriter
blank_file = record { bytes = []; script = []; broken = false }

abbrev two_segments : List SegMeta
two_segments =
    record { gen = 1; t_min = pos 5; t_max = pos 10; size = 100; entries = [] }
    ∷ record { gen = 2; t_min = pos 20; t_max = pos 90; size = 120; entries = [] }
    ∷ []

abbrev some_buffer : Buffer
some_buffer = record {
  idx = put trace_id first_loc new_index;
  w = record { w = blank_file; gen = 3; size = 60; t_min = pos 91; t_max = pos 95; dir = [] };
  has_active_reader = true;
  metas = two_segments;
  finalized_bytes = 220;
  min_gen = 1;
  answers = [];
}

abbrev sum_to : Bytes → ℕ
sum_to bs = length bs % 2 ^ 32

new_index-length : length (new_index.arena) ≡ 0
unfolding new_index
new_index-length = refl

some_buffer-Adds : Adds new_index trace_id first_loc (put trace_id first_loc new_index)
some_buffer-Adds =
    put-Adds new_index trace_id first_loc (new_index-IsIndex.0) (omega (arith, new_index-length))

some_buffer-IsSegments : IsSegments some_buffer
some_buffer-IsSegments = record { row = (omega arith, (omega arith, omega arith)); bytes = refl }

some_buffer-IsNext : IsNext some_buffer
some_buffer-IsNext = (omega arith, (omega arith, omega arith))

first_loc-IsOrdered : IsOrdered (first_loc ∷ [])
unfolding newest
first_loc-IsOrdered = (omega arith, tt)

some_buffer-IsOrdered : (id : Bytes) → IsOrdered (places some_buffer.idx id)
some_buffer-IsOrdered id =
    let old = new_index-IsIndex.1 in
    elim (Bool-cases (bytes_eq trace_id id)) [
      | inl same ↦ rw ((some_buffer-Adds).1 id, same, old trace_id) first_loc-IsOrdered
      | inr apart ↦ rw ((some_buffer-Adds).1 id, apart, old id) tt
    ]

expire-IsExpired_example :
    let r = expire sum_to (λ answers. blank_file) 8 512 (pos 50) (pos 100) some_buffer in
    IsExpired
      (pos 100 -ℤ pos 50)
      (roll sum_to (λ answers. blank_file) (delete_expired (pos 100 -ℤ pos 50) some_buffer).1).0
      some_buffer
      r.0
      r.1
expire-IsExpired_example =
    expire-IsExpired sum_to (λ answers. blank_file) 8 512 (pos 50) (pos 100) some_buffer
      some_buffer-IsSegments some_buffer-IsNext (omega arith) ((some_buffer-Adds).0)
      (omega (arith, (some_buffer-Adds).2, new_index-length)) some_buffer-IsOrdered

append_frag-Appends_example :
    Appends sum_to
      (λ answers. blank_file)
      70
      trace_id
      (7 ∷ 8 ∷ [])
      some_buffer
      (append_frag sum_to (λ answers. blank_file) 70 trace_id (7 ∷ 8 ∷ []) (pos 99) some_buffer)
append_frag-Appends_example =
    append_frag-Appends sum_to (λ answers. blank_file) 70 trace_id (7 ∷ 8 ∷ []) (pos 99) some_buffer
      some_buffer-IsSegments some_buffer-IsNext (omega arith) ((some_buffer-Adds).0)
      (omega (arith, (some_buffer-Adds).2, new_index-length))

abbrev some_file : ℕ → ℕ → ℕ → Option Bytes
some_file gen off need = some (replicate need 5)

collect_lem_example :
    let c = (collect sum_to some_file trace_id some_buffer).0 in
    let live = live_from 1 (places some_buffer.idx trace_id) in
    (c.failed ≡ true)
    ⊎ ((c.visited ≡ payloads sum_to some_file live) × (length c.visited + c.skipped ≡ length live))
collect_lem_example = collect_lem sum_to some_file trace_id some_buffer

-- A shard over the buffer, above the watermark.
abbrev some_node : Node Buffer
some_node = record {
  buf = some_buffer;
  dec = new_decided_set;
  pending = record {
    pend = [];
    pendq = [];
    pendq_head = 0;
    pend_len = 0;
    takes = [];
    sent = [];
    corrupt_fragments = 0;
    publishes_abandoned = 0;
  };
  decided_len = 0;
  at_floor = floor_clear;
  eff_window = pos 50;
  last_disk_bytes = pos 280;
  disk_total = pos 280;
  others = [];
  append_errors = 0;
  early_expired = 0;
  kept_local = 0;
  kept_bus = 0;
  duplicate_keeps = 0;
  flush_retries = 0;
  clamped_stamps = 0;
  expired_bytes = pos 0;
}

abbrev some_disk : Disk Buffer
some_disk = buffer_disk sum_to (λ answers. blank_file) some_file 70 8 512 (pos 50)

tick-IsTicked_example :
    IsTicked sum_to
      (λ answers. blank_file)
      some_file
      70
      8
      512
      (pos 50)
      (pos 5)
      (pos 90)
      (pos 100)
      some_node
      (tick some_disk (pos 50) (pos 5) (pos 90) (pos 100) (pos 100) some_node)
tick-IsTicked_example =
    tick-IsTicked sum_to (λ answers. blank_file) some_file 70 8 512 (pos 50) (pos 5) (pos 90)
      (pos 100) (pos 100) some_node some_buffer-IsSegments some_buffer-IsNext (omega arith)
      ((some_buffer-Adds).0) (omega (arith, (some_buffer-Adds).2, new_index-length))
      some_buffer-IsOrdered (omega arith)
