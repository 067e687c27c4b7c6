-- ===== src/Tests/QueueRuns.antt =====
-- internal/shards/shards.go: a Set of one shard, whose one sender offers a fragment before Shutdown.
use retrosampler.Prelude.{
  ℕ, ◌+◌, ◌<◌, ◌≡◌, refl, arith, true, false, List, [], ◌∷◌, length, replicate, count,
}
use retrosampler.Prelude.{ltb, Bool, some, ◌⊎◌}
use retrosampler.Shards.Options.{
  SetOptions, NewError, AreGood, IsWrong, shard_count, new_shards, IsOpened, new_shards_lem,
}
use retrosampler.Prelude.Bytes.{le_value}
use retrosampler.Prelude.Ints.{pos}
use retrosampler.Shards.Route.{shard_for, shard_in, shard_hash}
use retrosampler.Shards.Queues.Defs.{
  queue_depth, FragBuf, new_frag_buf, floor_refuses, request_id, Request, offers, fill, draining,
  drain_handling, done, idle, counted, admitted, cleared, holding, finished, SetState, Lane,
  new_lane, new_set, lane_at, phase_at, take_free, send_work, receive_work, send_free,
}
use retrosampler.Shards.Queues.Steps.{
  enter, admit, clear, take, send, leave, Reach, start, later, sends, works, shut, signal, stopped,
  drain_receive, drain_recycle, drained, set_phase, set_lane,
}
use retrosampler.Shards.Queues.Lanes.{in_hand}
use retrosampler.Shards.Queues.Invariant.{holds, is_past}
use retrosampler.Shards.Queues.Safety.{Reach-room, Reach-done}
use retrosampler.Shards.Queues.Drain.{Drained, drain_lem}

abbrev offer : Request
offer = offers (1 ∷ 2 ∷ 3 ∷ []) (7 ∷ []) (pos 5)

abbrev offered : FragBuf
offered = fill offer new_frag_buf

abbrev others : List FragBuf
others = replicate 63 new_frag_buf

abbrev entered : SetState
entered = set_phase 0 (counted offer) (record (new_set 1 1) { inflight = 1 })

abbrev holds_one : SetState
holds_one = set_phase 0 (holding 0 offered) (
    set_lane 0 (take_free others new_lane)
      (set_phase 0 (cleared offer) (set_phase 0 (admitted offer) entered)))

abbrev sent : SetState
sent =
    set_phase 0 (finished true)
      (set_lane 0 (send_work offered (take_free others new_lane)) holds_one)

abbrev told : SetState
told = record sent { senders = idle ∷ []; inflight = 0; intake = false; stop = true }

abbrev drains : SetState
drains =
    set_lane 0 (record (send_work offered (take_free others new_lane)) { worker = draining }) told

Reach-holds_one : Reach 1 1 holds_one
unfolding new_set shard_for shard_in shard_hash request_id floor_refuses take_free fill le_value
Reach-holds_one =
    later
      (later
        (later (later start (sends 0 (omega arith) (enter offer)))
          (sends 0 (omega arith) (admit offer refl)))
        (sends 0 (omega arith) (clear offer refl)))
      (sends 0 (omega arith) (take offer new_frag_buf others (omega arith) refl))

Reach-drains : Reach 1 1 drains
unfolding new_set take_free send_work fill
Reach-drains =
    later
      (later
        (later
          (later
            (later Reach-holds_one
              (sends 0 (omega arith) (send 0 offered (omega arith) (omega arith))))
            (sends 0 (omega arith) (leave true)))
          shut)
        (signal refl refl))
      (works 0 (omega arith) (stopped refl))

abbrev handles : Lane
handles =
    receive_work offered [] (drain_handling offered)
      (record (send_work offered (take_free others new_lane)) { worker = draining })

abbrev returned : SetState
returned = set_lane 0 (record (send_free offered offered draining handles) { worker = done }) drains

Reach-returned : Reach 1 1 returned
unfolding new_set take_free send_work receive_work send_free fill
Reach-returned =
    later
      (later (later Reach-drains (works 0 (omega arith) (drain_receive offered [] refl)))
        (works 0 (omega arith) (drain_recycle offered offered (omega arith))))
      (works 0 (omega arith) (drained refl))

one_lane : 0 < length holds_one.lanes
unfolding new_set
one_lane = omega arith

Reach-room_example :
    let l = lane_at holds_one 0 in
    (length l.free + length l.work + length (in_hand l.worker) + count (holds 0) holds_one.senders
      ≡ queue_depth)
    × (((k : ℕ) (fb : FragBuf)
          → k < length holds_one.senders
          → phase_at holds_one k ≡ holding 0 fb
          → length l.work < queue_depth)
        × ((fb : FragBuf) → in_hand l.worker ≡ fb ∷ [] → length l.free < queue_depth))
Reach-room_example = Reach-room 0 Reach-holds_one one_lane

returned_lane : (0 < length returned.lanes) × ((lane_at returned 0).worker ≡ done)
unfolding new_set
returned_lane = (omega arith, refl)

Reach-done_example :
    ((lane_at returned 0).handled ≡ (lane_at returned 0).accepted)
    × ((lane_at returned 0).work ≡ [])
    × (count is_past returned.senders ≡ 0)
Reach-done_example = Reach-done 0 Reach-returned returned_lane.0 returned_lane.1

drains_lane : (0 < length drains.lanes) × ((lane_at drains 0).worker ≡ draining)
unfolding new_set
drains_lane = (omega arith, refl)

drain_lem_example : Drained drains 0
drain_lem_example = drain_lem drains 0 Reach-drains drains_lane.0 drains_lane.1

abbrev three_shards : SetOptions
three_shards = record {
  shards = pos 3;
  window = pos 100;
  segment_size = pos 10;
  disk_budget = pos 1000;
  watermark_pct = pos 90;
  window_floor = pos 5;
  has_now = true;
}

-- The last of the three buffers does not open.
abbrev two_open : ℕ → Bool
two_open i = ltb i 2

new_shards_lem_example :
    let r = new_shards two_open three_shards in
    (AreGood three_shards × IsOpened two_open (shard_count three_shards.shards) r)
    ⊎ ((e : NewError) × IsWrong three_shards e
        × (r.error ≡ some e)
        × (r.open_shards ≡ [])
        × (r.closed ≡ []))
new_shards_lem_example = new_shards_lem two_open three_shards
