-- ===== src/Shards/Queues/Safety.antt =====
-- internal/shards/shards.go: what Offer, Keep, Retry and Shutdown promise of the handoff.
use retrosampler.Prelude.{ℕ, ◌+◌, ◌<◌, ◌≡◌, sym, ap, ◌∙◌, arith, [], ◌∷◌, ◌++◌, append-nil}
use retrosampler.Prelude.{length, weight, count}
use retrosampler.Shards.Queues.Defs.{
  queue_depth, FragBuf, done, idle, holding, SetState, lane_at, phase_at,
}
use retrosampler.Shards.Queues.Steps.{Reach}
use retrosampler.Shards.Queues.Lanes.{in_hand, is_ending}
use retrosampler.Shards.Queues.Invariant.{holds, is_past, moved}
use retrosampler.Shards.Queues.Moves.{Reach-Inv}

-- In a Set that New has made, at any point of any interleaving: the buffers of a shard that are free, queued, in
-- its worker's hand and in senders' hands are 64; a sender that holds one of them finds room in the work
-- queue; and the worker, when it has handled one, finds room in the free ring.
pub Reach-room :
    {n m : ℕ} {s : SetState} (i : ℕ)
    → Reach n m s
    → i < length s.lanes
    → let l = lane_at s i in
      (length l.free + length l.work + length (in_hand l.worker) + count (holds i) s.senders
        ≡ queue_depth)
      × (((k : ℕ) (fb : FragBuf)
            → k < length s.senders
            → phase_at s k ≡ holding i fb
            → length l.work < queue_depth)
          × ((fb : FragBuf) → in_hand l.worker ≡ fb ∷ [] → length l.free < queue_depth))
Reach-room {s = s} i reach lt =
    let inv = Reach-Inv reach in
    let lane = inv.lanes i lt in
    (
      lane.joint,
      (
        (λ k fb k_lt e.
            let one : weight (holds i) (phase_at s k) ≡ 1 =
              ground (arith, ap (weight (holds i)) e) in
            omega (arith, lane.joint, one, moved s k k_lt idle (holds i))),
        λ fb e. omega (arith, lane.joint, ap length e),
      ),
    )

-- In a Set that New has made, once the worker of a shard has returned, the buffers that it handled are those
-- that senders put on its queue, in their order, the queue is empty, and no sender is between the check of
-- intake and its send.
pub Reach-done :
    {n m : ℕ} {s : SetState} (i : ℕ)
    → Reach n m s
    → i < length s.lanes
    → (lane_at s i).worker ≡ done
    → ((lane_at s i).handled ≡ (lane_at s i).accepted)
      × ((lane_at s i).work ≡ [])
      × (count is_past s.senders ≡ 0)
Reach-done {s = s} i reach lt e =
    let inv = Reach-Inv reach in
    let lane = inv.lanes i lt in
    let empty = lane.empty e in
    let nothing_left : in_hand (lane_at s i).worker ++ (lane_at s i).work ≡ [] =
      ground (arith, ap in_hand e, empty) in
    (
      sym (
          lane.order
          ∙ ap (λ a. (lane_at s i).handled ++ a) nothing_left
          ∙ append-nil (lane_at s i).handled),
      empty,
      (inv.quiet (lane.ending (ap is_ending e))).1,
    )
