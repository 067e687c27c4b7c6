-- ===== src/Shards/Queues/Steps.antt =====
-- internal/shards/shards.go and worker.go: the steps of senders, workers and Shutdown, in any interleaving.
use retrosampler.Prelude.{
  ℕ, ◌+◌, ◌-◌, ◌%◌, ◌^◌, ◌<◌, ◌≡◌, Bool, true, false, List, [], ◌∷◌, length, set_at,
}
use retrosampler.Shards.Queues.Defs.{
  queue_depth, FragBuf, FloorCause, Request, is_blocking, fill, floor_refuses, Worker, waiting,
  handling, draining, drain_handling, done, Lane, Phase, idle, counted, admitted, cleared, holding,
  finished, SetState, lane_at, phase_at, target, count_floor, take_free, send_work, receive_work,
  send_free, new_set,
}

abbrev pub set_phase : ℕ → Phase → SetState → SetState
set_phase k p s = record s { senders = set_at k p s.senders }

abbrev pub set_lane : ℕ → Lane → SetState → SetState
set_lane i l s = record s { lanes = set_at i l s.lanes }

-- What sender `k` does, at phase `p`.
pub data Sends (s : SetState) (k : ℕ) : Phase → SetState → Type 0 where
  enter :
      (r : Request)
      → Sends s k idle (set_phase k (counted r) (record s { inflight = s.inflight + 1 }))
  refuse : (r : Request) → s.intake ≡ false → Sends s k (counted r) (set_phase k (finished false) s)
  admit : (r : Request) → s.intake ≡ true → Sends s k (counted r) (set_phase k (admitted r) s)
  decline :
      (r : Request)
      → floor_refuses r (lane_at s (target s r)).floor ≡ true
      → Sends s k
          (admitted r)
          (set_phase k (finished false) (count_floor (lane_at s (target s r)).floor s))
  clear :
      (r : Request)
      → floor_refuses r (lane_at s (target s r)).floor ≡ false
      → Sends s k (admitted r) (set_phase k (cleared r) s)
  take :
      (r : Request) (fb : FragBuf) (rest : List FragBuf)
      → target s r < length s.lanes
      → (lane_at s (target s r)).free ≡ fb ∷ rest
      → Sends s k (cleared r) (
          set_phase k
            (holding (target s r) (fill r fb))
            (set_lane (target s r) (take_free rest (lane_at s (target s r))) s))
  shed :
      (r : Request)
      → is_blocking r ≡ false
      → (lane_at s (target s r)).free ≡ []
      → Sends s k (cleared r) (
          set_phase k
            (finished false)
            (record s { shed_queue_full = (s.shed_queue_full + 1) % 2 ^ 64 }))
  abort :
      (r : Request) → is_blocking r ≡ true → Sends s k (cleared r) (set_phase k (finished false) s)
  send :
      (i : ℕ) (fb : FragBuf)
      → i < length s.lanes
      → length (lane_at s i).work < queue_depth
      → Sends s k
          (holding i fb)
          (set_phase k (finished true) (set_lane i (send_work fb (lane_at s i)) s))
  leave :
      (b : Bool)
      → Sends s k (finished b) (set_phase k idle (record s { inflight = s.inflight - 1 }))

-- What the worker of a lane does. `stop` says whether the stop channel is closed. A tick sets the cause for the
-- floor.
pub data Works (stop : Bool) (l : Lane) : Worker → Lane → Type 0 where
  receive :
      (fb : FragBuf) (rest : List FragBuf)
      → l.work ≡ fb ∷ rest
      → Works stop l waiting (receive_work fb rest (handling fb) l)
  recycle :
      (fb left : FragBuf)
      → length l.free < queue_depth
      → Works stop l (handling fb) (send_free fb left waiting l)
  tick : (cause : FloorCause) → Works stop l waiting (record l { floor = cause })
  stopped : stop ≡ true → Works stop l waiting (record l { worker = draining })
  drain_receive :
      (fb : FragBuf) (rest : List FragBuf)
      → l.work ≡ fb ∷ rest
      → Works stop l draining (receive_work fb rest (drain_handling fb) l)
  drain_recycle :
      (fb left : FragBuf)
      → length l.free < queue_depth
      → Works stop l (drain_handling fb) (send_free fb left draining l)
  drained : l.work ≡ [] → Works stop l draining (record l { worker = done })

pub data Step (s : SetState) : SetState → Type 0 where
  sends : {t : SetState} (k : ℕ) → k < length s.senders → Sends s k (phase_at s k) t → Step s t
  works :
      {l : Lane} (i : ℕ)
      → i < length s.lanes
      → Works s.stop (lane_at s i) (lane_at s i).worker l
      → Step s (set_lane i l s)
  -- Shutdown stores intake off, and closes stop once it reads no sender in flight.
  shut : Step s (record s { intake = false })
  signal : s.intake ≡ false → s.inflight ≡ 0 → Step s (record s { stop = true })

pub data Reach (n m : ℕ) : SetState → Type 0 where
  start : Reach n m (new_set n m)
  later : {s t : SetState} → Reach n m s → Step s t → Reach n m t
