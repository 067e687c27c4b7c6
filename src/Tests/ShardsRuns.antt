-- ===== src/Tests/ShardsRuns.antt =====
-- internal/shards on a shard with one parked intent.
use retrosampler.Prelude.{◌≡◌, arith, true, [], ◌∷◌, some}
use retrosampler.Prelude.{◌<◌, ◌/◌, ◌%◌, ◌^◌}
use retrosampler.Prelude.Bytes.{Bytes}
use retrosampler.Prelude.{length, ◌-◌, refl, none, drop}
use retrosampler.Shards.Pending.Defs.{req_or_zero}
use retrosampler.Shards.Pending.Served.{HasRoom, drain_pending_served}
use retrosampler.Shards.Route.{shard_for, shard_hash, shard_for_lem}
use retrosampler.Prelude.Ints.{pos}
use retrosampler.Shards.Pending.Deadlines.{AllClear}
use retrosampler.Shards.Assoc.{lookup}
use retrosampler.Shards.Pending.Defs.{Need, Shard, Collected, park, compact_pendq, drain_pending}
use retrosampler.Shards.Pending.Queue.{IsQueued, park-IsQueued}
use retrosampler.Shards.Pending.Compact.{Kept, compact_pendq-Kept, drain_pending-IsQueued}

abbrev idle : Shard
idle = record {
  pend = [];
  pendq = [];
  pendq_head = 0;
  pend_len = 0;
  takes = true ∷ [];
  sent = [];
  corrupt_fragments = 0;
  publishes_abandoned = 0;
}

abbrev both : Need
both = record { publish = true; flush = true }

abbrev parked : Shard
parked = park (pos 50) idle (1 ∷ []) 2 both (pos 30)

idle-IsQueued : IsQueued idle
unfolding lookup
idle-IsQueued = record { head_in = omega arith; covers = λ id req e. ground (arith, e) }

abbrev nothing_stored : Bytes → Collected
nothing_stored id = record { skipped = 1; frags = some [] }

parked-IsQueued : IsQueued parked
parked-IsQueued = park-IsQueued (pos 50) idle (1 ∷ []) 2 both (pos 30) idle-IsQueued

compact_pendq-Kept_example : Kept parked (compact_pendq parked)
compact_pendq-Kept_example = compact_pendq-Kept parked parked-IsQueued

drain_pending-IsQueued_example : IsQueued (drain_pending nothing_stored (pos 50) parked)
drain_pending-IsQueued_example =
    drain_pending-IsQueued nothing_stored (pos 50) parked parked-IsQueued

abbrev first_id : Bytes
first_id = 9 ∷ 8 ∷ 7 ∷ 6 ∷ 5 ∷ 4 ∷ 3 ∷ 2 ∷ 1 ∷ 0 ∷ 1 ∷ 2 ∷ 3 ∷ 4 ∷ 5 ∷ 6 ∷ []

shard_for_lem_example :
    (shard_for first_id (pos 6) < 6)
    × (shard_for first_id (pos 6) ≡ shard_hash first_id / 2 ^ 32 % 6)
shard_for_lem_example = shard_for_lem first_id 6 (omega arith)

parked_room : HasRoom (length parked.pendq - parked.pendq_head) parked.takes
unfolding park req_or_zero lookup
parked_room = (refl, tt)

drain_pending_served_example :
    let sh' = drain_pending nothing_stored (pos 50) parked in
    ((id : Bytes) → lookup id sh'.pend ≡ none) × (drop sh'.pendq_head sh'.pendq ≡ [])
drain_pending_served_example =
    drain_pending_served nothing_stored (pos 50) parked (λ id. ([], refl)) parked-IsQueued
      parked_room

idle-AllClear : AllClear idle.pend
unfolding lookup
idle-AllClear id req e = ground (arith, e)
