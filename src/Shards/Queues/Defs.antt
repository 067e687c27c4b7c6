-- ===== src/Shards/Queues/Defs.antt =====
-- internal/shards/shards.go and worker.go: the buffers that senders hand to a shard's worker. A shard's part
-- in the handoff is a Lane. `accepted` and `handled` are the history of its work queue.
use retrosampler.Prelude.{
  ℕ, ◌+◌, ◌%◌, ◌^◌, Bool, true, false, List, [], ◌∷◌, ◌++◌, get_or, replicate, length,
}
use retrosampler.Prelude.Bytes.{Bytes}
use retrosampler.Prelude.Ints.{ℤ, pos}
use retrosampler.Shards.Route.{shard_for}
use retrosampler.Shards.Pending.Defs.{Need, need_none}

abbrev pub queue_depth : ℕ
queue_depth = 64

pub data EventKind : Type 0 where
  ev_frag ev_keep ev_retry : EventKind

pub data Origin : Type 0 where
  origin_local origin_bus origin_baseline : Origin

pub data FloorCause : Type 0 where
  floor_clear floor_protected nothing_reclaimable : FloorCause

pub record FragBuf : Type 0 where
  pub id : Bytes
  pub at : ℤ
  pub data_bytes : Bytes
  pub kind : EventKind
  pub origin : Origin
  pub reason : ℕ
  pub need : Need
  pub deadline : ℤ

abbrev pub new_frag_buf : FragBuf
new_frag_buf = record {
  id = [];
  at = pos 0;
  data_bytes = [];
  kind = ev_frag;
  origin = origin_local;
  reason = 0;
  need = need_none;
  deadline = pos 0;
}

-- The calls of Offer, enqueueKeep and Retry. The last argument of `keeps` is `block`.
pub data Request : Type 0 where
  offers : Bytes → Bytes → ℤ → Request
  keeps : Bytes → Origin → ℕ → ℤ → Bool → Request
  retries : Bytes → ℕ → Need → ℤ → Request

abbrev pub keep : Bytes → ℕ → ℤ → Request
keep id reason now = keeps id origin_local reason now false

abbrev pub keep_local_only : Bytes → ℕ → ℤ → Request
keep_local_only id reason now = keeps id origin_baseline reason now false

abbrev pub keep_from_bus : Bytes → ℕ → ℤ → Request
keep_from_bus id reason now = keeps id origin_bus reason now true

unfoldable pub request_id : Request → Bytes
request_id (offers id frag now) = id
request_id (keeps id origin reason now block) = id
request_id (retries id reason need deadline) = id

-- Whether the call waits for a free buffer.
unfoldable pub is_blocking : Request → Bool
is_blocking (offers id frag now) = false
is_blocking (keeps id origin reason now block) = block
is_blocking (retries id reason need deadline) = true

-- What the call writes into the buffer that it takes; the other fields stay what they were.
unfoldable pub fill : Request → FragBuf → FragBuf
fill (offers id frag now) fb = record fb { kind = ev_frag; id = id; at = now; data_bytes = frag }
fill (keeps id origin reason now block) fb = record fb {
  kind = ev_keep;
  id = id;
  at = now;
  origin = origin;
  reason = reason;
  data_bytes = [];
}
fill (retries id reason need deadline) fb = record fb {
  kind = ev_retry;
  id = id;
  reason = reason;
  need = need;
  deadline = deadline;
  data_bytes = [];
}

-- Whether the floor makes the call shed: only Offer looks at it.
unfoldable pub floor_refuses : Request → FloorCause → Bool
floor_refuses (offers id frag now) floor_clear = false
floor_refuses (offers id frag now) floor_protected = true
floor_refuses (offers id frag now) nothing_reclaimable = true
floor_refuses (keeps id origin reason now block) cause = false
floor_refuses (retries id reason need deadline) cause = false

-- Where a worker's goroutine stands: in the loop of run, in handle, in the loop of drain, in handle from there,
-- or past its return.
pub data Worker : Type 0 where
  waiting : Worker
  handling : FragBuf → Worker
  draining : Worker
  drain_handling : FragBuf → Worker
  done : Worker

pub record Lane : Type 0 where
  pub free : List FragBuf
  pub work : List FragBuf
  pub floor : FloorCause
  pub worker : Worker
  pub accepted : List FragBuf
  pub handled : List FragBuf

abbrev pub new_lane : Lane
new_lane = record {
  free = replicate queue_depth new_frag_buf;
  work = [];
  floor = floor_clear;
  worker = waiting;
  accepted = [];
  handled = [];
}

-- Where a sender's goroutine stands: outside the Set, past `inflight.Add(1)`, past the check of intake, past
-- that of the floor, holding a buffer for a shard, and before the deferred `inflight.Add(-1)` with its answer.
pub data Phase : Type 0 where
  idle : Phase
  counted : Request → Phase
  admitted : Request → Phase
  cleared : Request → Phase
  holding : ℕ → FragBuf → Phase
  finished : Bool → Phase

pub record SetState : Type 0 where
  pub intake : Bool
  pub inflight : ℕ
  pub stop : Bool
  pub lanes : List Lane
  pub senders : List Phase
  pub shed_queue_full : ℕ
  pub shed_floor_protected : ℕ
  pub shed_nothing_reclaimable : ℕ

-- New with `n` shards, before any of `m` senders has called.
unfoldable pub new_set : ℕ → ℕ → SetState
new_set n m = record {
  intake = true;
  inflight = 0;
  stop = false;
  lanes = replicate n new_lane;
  senders = replicate m idle;
  shed_queue_full = 0;
  shed_floor_protected = 0;
  shed_nothing_reclaimable = 0;
}

abbrev pub lane_at : SetState → ℕ → Lane
lane_at s i = get_or new_lane s.lanes i

abbrev pub phase_at : SetState → ℕ → Phase
phase_at s k = get_or idle s.senders k

-- `s.shards[shardFor(id, len(s.shards))]`.
abbrev pub target : SetState → Request → ℕ
target s r = shard_for (request_id r) (pos (length s.lanes))

-- The counter of the cause.
unfoldable pub count_floor : FloorCause → SetState → SetState
count_floor floor_clear s = s
count_floor floor_protected s = record s {
  shed_floor_protected = (s.shed_floor_protected + 1) % 2 ^ 64;
}
count_floor nothing_reclaimable s = record s {
  shed_nothing_reclaimable = (s.shed_nothing_reclaimable + 1) % 2 ^ 64;
}

-- The two ends of the queues. Each is a step of its own: a receive takes the oldest buffer, a send adds one.
unfoldable pub take_free : List FragBuf → Lane → Lane
take_free rest l = record l { free = rest }

unfoldable pub send_work : FragBuf → Lane → Lane
send_work fb l = record l { work = l.work ++ (fb ∷ []); accepted = l.accepted ++ (fb ∷ []) }

unfoldable pub receive_work : FragBuf → List FragBuf → Worker → Lane → Lane
receive_work fb rest w l = record l { work = rest; worker = w }

-- The end of handle, which may have changed the buffer's stamp.
unfoldable pub send_free : FragBuf → FragBuf → Worker → Lane → Lane
send_free fb left w l = record l {
  free = l.free ++ (left ∷ []);
  worker = w;
  handled = l.handled ++ (fb ∷ []);
}
