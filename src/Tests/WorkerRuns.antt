-- ===== src/Tests/WorkerRuns.antt =====
-- internal/shards/worker.go over a buffer of two finalized segments.
use retrosampler.Prelude.{
  ℕ, ◌+◌, ◌-◌, ◌*◌, ◌%◌, ◌^◌, ◌<◌, ◌≡◌, refl, arith, true, List, [], ◌∷◌, Option, none, some,
  length,
}
use retrosampler.Prelude.Ints.{ℤ, pos, ◌-ℤ◌}
use retrosampler.Shards.Decided.Defs.{new_decided_set}
use retrosampler.Shards.Decided.Refine.{issued}
use retrosampler.Shards.Decided.Rehash.{new_decided_set-IsIntact}
use retrosampler.Shards.Assoc.{lookup}
use retrosampler.Shards.Queues.Defs.{FragBuf, new_frag_buf, ev_keep, floor_clear}
use retrosampler.Shards.Worker.Defs.{Disk, Node, clamp_at, handle}
use retrosampler.Shards.Worker.Tick.{tick, expire_all}
use retrosampler.Shards.Worker.Sound.{IsSound, Input, event, ticks, reacts, reacts-IsSound}
use retrosampler.Shards.Worker.Floor.{HasSegments, Because, Removed, tick_lem}
use retrosampler.Shards.Worker.Once.{Decides, handle-Decides}

-- A segment is its newest time; each takes 100 bytes.
abbrev Segments : Type 0
Segments = List ℤ

oldest_of : Segments → Option ℤ
oldest_of [] = none
oldest_of (t ∷ ts) = some t

remove_first : Segments → Option ℤ × Segments
remove_first [] = (none, [])
remove_first (t ∷ ts) = (some (pos 100), ts)

abbrev two_segments : Disk Segments
two_segments = record {
  append = λ id frag at b. (true, b);
  collect = λ b id. record { skipped = 0; frags = some ((7 ∷ []) ∷ []) };
  expire = λ now b. (pos 0, b);
  oldest = oldest_of;
  expire_oldest = remove_first;
  disk_bytes = λ b. pos (100 * length b);
  segments = length;
}

two_segments-HasSegments : HasSegments two_segments
unfolding oldest_of remove_first
two_segments-HasSegments = record { none_left = nothing; one_less = less }
  where
    nothing : (b : Segments) → length b ≡ 0 → oldest_of b ≡ none
    nothing [] e = refl
    nothing (t ∷ ts) e = absurd (omega (arith, e))

    less : (b c : Segments) (freed : ℤ) → remove_first b ≡ (some freed, c) → length c < length b
    less [] c freed e = cc
    less (t ∷ ts) c freed e = ground (arith, e)

abbrev fresh : Node Segments
fresh = record {
  buf = pos 10 ∷ pos 20 ∷ [];
  dec = new_decided_set;
  pending = record {
    pend = [];
    pendq = [];
    pendq_head = 0;
    pend_len = 0;
    takes = true ∷ [];
    sent = [];
    corrupt_fragments = 0;
    publishes_abandoned = 0;
  };
  decided_len = 0;
  at_floor = floor_clear;
  eff_window = pos 0;
  last_disk_bytes = pos 0;
  disk_total = pos 0;
  others = [];
  append_errors = 0;
  early_expired = 0;
  kept_local = 0;
  kept_bus = 0;
  duplicate_keeps = 0;
  flush_retries = 0;
  clamped_stamps = 0;
  expired_bytes = pos 0;
}

fresh-IsSound : IsSound fresh
unfolding lookup
fresh-IsSound = record {
  intact = new_decided_set-IsIntact;
  queued = record { head_in = omega arith; covers = λ id req e. ground (arith, e) };
}

abbrev keep_event : FragBuf
keep_event = record new_frag_buf { id = 1 ∷ 2 ∷ []; at = pos 30; kind = ev_keep }

abbrev inputs : List Input
inputs =
    event keep_event (pos 31) (pos 90)
    ∷ ticks (pos 40) (pos 99)
    ∷ event keep_event (pos 41) (pos 90)
    ∷ []

few_inputs : issued fresh.dec + length inputs < 2 ^ 64 - 2
unfolding new_decided_set
few_inputs = omega arith

one_input : issued fresh.dec + 1 < 2 ^ 64 - 2
unfolding new_decided_set
one_input = omega arith

reacts-IsSound_example : IsSound (reacts two_segments (pos 60) (pos 5) (pos 150) inputs fresh)
reacts-IsSound_example =
    reacts-IsSound two_segments (pos 60) (pos 5) (pos 150) inputs fresh fresh-IsSound few_inputs

tick_lem_example :
    let n1 = expire_all two_segments (pos 40) (pos 100) fresh in
    let m = tick two_segments (pos 60) (pos 5) (pos 150) (pos 40) (pos 100) fresh in
    Because two_segments (pos 150) (pos 40 -ℤ pos 5) m.at_floor m
    × ((k : ℕ) × Removed two_segments (pos 40 -ℤ pos 5) n1.buf k m.buf
        × (m.early_expired ≡ (fresh.early_expired + k) % 2 ^ 64))
tick_lem_example =
    tick_lem two_segments (pos 60) (pos 5) (pos 150) (pos 40) (pos 100) fresh
      two_segments-HasSegments (omega arith)

handle-Decides_example :
    Decides two_segments
      (pos 60)
      (pos 90)
      keep_event.kind
      (clamp_at (pos 31) keep_event)
      fresh
      (handle two_segments (pos 60) (pos 90) (pos 31) keep_event fresh)
handle-Decides_example =
    handle-Decides two_segments (pos 60) (pos 90) (pos 31) keep_event fresh new_decided_set-IsIntact
      one_input (omega arith, omega arith, omega arith)
