-- ===== src/Shards/Pending/Defs.antt =====
-- internal/shards/worker.go and flush.go: park, sweepPending, drainPending and compactPendq. The buffer
-- and the flusher are outside: `collect` is what Collect gives for a trace, and `takes` says, one by
-- one, whether the flush channel has room for the next send.
use retrosampler.Prelude.{ℕ, zero, suc, ◌+◌, ◌-◌, ◌/◌, ◌%◌, ◌^◌, Bool, true, false, not, ◌&&◌, ◌||◌}
use retrosampler.Prelude.{
  List, [], ◌∷◌, ◌++◌, Option, none, some, ltb, ◌==◌, if◌then◌else◌, length, drop, get_elem?,
}
use retrosampler.Prelude.Bytes.{Bytes}
use retrosampler.Prelude.Ints.{ℤ, pos, ltb_ℤ, ℤ_eq}
use retrosampler.Shards.Assoc.{lookup, insert, delete}

-- The two bits of the source's Need: NeedPublish and NeedFlush.
pub record Need : Type 0 where
  pub publish : Bool
  pub flush : Bool

abbrev pub need_none : Need
need_none = record { publish = false; flush = false }

abbrev pub is_none : Need → Bool
is_none n = not n.publish && not n.flush

abbrev pub need_or : Need → Need → Need
need_or a b = record { publish = a.publish || b.publish; flush = a.flush || b.flush }

pub record FlushJob : Type 0 where
  pub id : Bytes
  pub reason : ℕ
  pub need : Need
  pub frags : List Bytes
  pub deadline : ℤ

pub record PendReq : Type 0 where
  pub reason : ℕ
  pub need : Need
  pub queued : Bool
  pub deadline : ℤ

-- What Collect gives: how many fragments it skipped, and those that it visited or an error.
pub record Collected : Type 0 where
  pub skipped : ℕ
  pub frags : Option (List Bytes)

pub record Shard : Type 0 where
  pub pend : List (Bytes × PendReq)
  pub pendq : List Bytes
  pub pendq_head : ℕ
  pub pend_len : ℕ
  pub takes : List Bool
  pub sent : List FlushJob
  pub corrupt_fragments : ℕ
  pub publishes_abandoned : ℕ

pub data SendOutcome : Type 0 where
  sent_ok send_full collect_err nothing_owed : SendOutcome

-- The zero value that a Go map gives for a missing key.
unfoldable pub req_or_zero : Option PendReq → PendReq
req_or_zero none = record { reason = 0; need = need_none; queued = false; deadline = pos 0 }
req_or_zero (some r) = r

abbrev pub is_zero : ℤ → Bool
is_zero v = ℤ_eq v (pos 0)

-- The deadline of a publish: the first that was given, or else the clock's now + W.
unfoldable pub first_deadline : ℤ → ℤ → ℤ → ℤ
first_deadline fallback old given =
    if is_zero old then (if is_zero given then fallback else given) else old

-- `fallback` is s.opts.Now().Add(s.opts.Window).UnixNano().
unfoldable pub merge_req : ℤ → PendReq → ℕ → Need → ℤ → PendReq
unfolding first_deadline
merge_req fallback req reason need deadline = record {
  reason = if req.reason == 0 then reason else req.reason;
  need = need_or req.need need;
  queued = true;
  deadline = if need.publish then first_deadline fallback req.deadline deadline else req.deadline;
}

unfoldable pub park : ℤ → Shard → Bytes → ℕ → Need → ℤ → Shard
unfolding req_or_zero merge_req
park fallback sh id reason need deadline =
    let req = req_or_zero (lookup id sh.pend) in
    record sh {
      pend = insert id (merge_req fallback req reason need deadline) sh.pend;
      pendq = if req.queued then sh.pendq else sh.pendq ++ (id ∷ []);
    }

-- The body of the loop of sweepPending on one entry: none where the entry is deleted.
unfoldable pub sweep_req : ℤ → PendReq → Option PendReq
sweep_req now req =
    if not req.need.publish || ltb_ℤ now req.deadline
    then some req
    else if req.need.flush
    then some (record req { need = record { publish = false; flush = true }; deadline = pos 0 })
    else none

abbrev pub is_abandoned : ℤ → PendReq → Bool
is_abandoned now req = req.need.publish && not (ltb_ℤ now req.deadline)

unfoldable pub keep_swept : Bytes → Option PendReq → List (Bytes × PendReq) → List (Bytes × PendReq)
keep_swept id none m = delete id m
keep_swept id (some r) m = (id, r) ∷ m

-- The loop goes over the map in any order, and treats each entry by itself.
unfoldable pub sweep_entries : ℤ → List (Bytes × PendReq) → List (Bytes × PendReq)
unfolding sweep_req keep_swept
sweep_entries now [] = []
sweep_entries now ((id, req) ∷ m) = keep_swept id (sweep_req now req) (sweep_entries now m)

unfoldable pub count_abandoned : ℤ → List (Bytes × PendReq) → ℕ
count_abandoned now [] = 0
count_abandoned now ((id, req) ∷ m) =
    (if is_abandoned now req then 1 else 0) + count_abandoned now m

unfoldable pub sweep_pending : ℤ → Shard → Shard
unfolding sweep_entries count_abandoned
sweep_pending now sh = record sh {
  pend = sweep_entries now sh.pend;
  publishes_abandoned = (sh.publishes_abandoned + count_abandoned now sh.pend) % 2 ^ 64;
}

unfoldable pub is_empty : List Bytes → Bool
is_empty [] = true
is_empty (x ∷ xs) = false

-- The non-blocking send.
unfoldable pub try_send : FlushJob → List Bool → Shard → SendOutcome × Shard
try_send j [] sh = (send_full, sh)
try_send j (false ∷ rest) sh = (send_full, record sh { takes = rest })
try_send j (true ∷ rest) sh = (sent_ok, record sh { takes = rest; sent = sh.sent ++ (j ∷ []) })

unfoldable pub send_collected : FlushJob → Option (List Bytes) → Shard → SendOutcome × Shard
unfolding try_send is_empty
send_collected j none sh = (collect_err, sh)
send_collected j (some frags) sh =
    if is_empty frags && not j.need.publish
    then (nothing_owed, sh)
    else try_send (record j { frags = frags }) sh.takes sh

module _ (collect : Bytes → Collected) (fallback : ℤ) where
  unfoldable pub collect_once : Shard → Bytes → ℕ → Need → ℤ → SendOutcome × Shard
  unfolding send_collected
  collect_once sh id reason need deadline =
      let c = collect id in
      send_collected
        (record { id = id; reason = reason; need = need; frags = []; deadline = deadline }) c.frags
        (record sh { corrupt_fragments = (sh.corrupt_fragments + c.skipped) % 2 ^ 64 })

  unfoldable pub park_owed : Bytes → ℕ → Need → ℤ → SendOutcome → Shard → Shard
  park_owed id reason need deadline send_full sh = park fallback sh id reason need deadline
  park_owed id reason need deadline collect_err sh = park fallback sh id reason need deadline
  park_owed id reason need deadline sent_ok sh = sh
  park_owed id reason need deadline nothing_owed sh = sh

  unfoldable pub collect_and_send : Shard → Bytes → ℕ → Need → ℤ → Shard
  unfolding collect_once park_owed
  collect_and_send sh id reason need deadline =
      let r = collect_once sh id reason need deadline in
      park_owed id reason need deadline (r.0) (r.1)

  unfoldable pub park_refused : FlushJob → SendOutcome → Shard → Shard
  park_refused j send_full sh = park fallback sh j.id j.reason j.need j.deadline
  park_refused j collect_err sh = sh
  park_refused j sent_ok sh = sh
  park_refused j nothing_owed sh = sh

  unfoldable pub send_job : Shard → FlushJob → Shard
  unfolding park_refused try_send
  send_job sh j = let r = try_send j sh.takes sh in park_refused j (r.0) (r.1)

  -- What one outcome of the drain's attempt does, and whether the pass goes on.
  unfoldable pub settle : Bytes → PendReq → SendOutcome → Shard → Bool × Shard
  settle id req send_full sh = (false, sh)
  settle id req collect_err sh = (
    true,
    park fallback (record sh { pend = delete id sh.pend }) id req.reason req.need req.deadline,
  )
  settle id req sent_ok sh = (true, record sh { pend = delete id sh.pend })
  settle id req nothing_owed sh = (true, record sh { pend = delete id sh.pend })

  -- The switch in the drain's loop. An id with no entry is a tombstone.
  unfoldable pub drain_entry : Shard → Bytes → Option PendReq → Bool × Shard
  unfolding settle collect_once
  drain_entry sh id none = (true, sh)
  drain_entry sh id (some req) =
      let r = collect_once sh id req.reason req.need req.deadline in
      let settled = settle id req (r.0) (r.1) in
      if is_none req.need then (true, record sh { pend = delete id sh.pend }) else settled

  unfoldable pub drain_at : Shard → Option Bytes → Bool × Shard
  unfolding drain_entry
  drain_at sh none = (false, sh)
  drain_at sh (some id) = drain_entry sh id (lookup id sh.pend)

  -- The loop, for the `n` ids that the queue held between its head and its length at entry.
  unfoldable pub drain_loop : ℕ → Shard → Shard
  unfolding drain_at
  drain_loop zero sh = sh
  drain_loop (suc n) sh =
      let r = drain_at sh (get_elem? sh.pendq sh.pendq_head) in
      let rest = drain_loop n (record (r.1) { pendq_head = r.1.pendq_head + 1 }) in
      if r.0 then rest else r.1

abbrev pub pendq_compact_floor : ℕ
pendq_compact_floor = 64

-- The last step of compactPendq gives storage back and changes no value.
unfoldable pub compact_pendq : Shard → Shard
compact_pendq sh =
    if sh.pendq_head == length sh.pendq
    then record sh { pendq = []; pendq_head = 0 }
    else if ltb pendq_compact_floor sh.pendq_head && ltb (length sh.pendq / 2) sh.pendq_head
    then record sh { pendq = drop sh.pendq_head sh.pendq; pendq_head = 0 }
    else sh

unfoldable pub drain_pending : (Bytes → Collected) → ℤ → Shard → Shard
unfolding drain_loop compact_pendq
drain_pending collect fallback sh =
    let sh' = compact_pendq (drain_loop collect fallback (length sh.pendq - sh.pendq_head) sh) in
    record sh' { pend_len = length sh'.pend }
