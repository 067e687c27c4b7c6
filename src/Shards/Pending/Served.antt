-- ===== src/Shards/Pending/Served.antt =====
-- internal/shards/worker.go: a drain that meets room for every send, and no failed read, empties the map.
use retrosampler.Prelude.{
  ℕ, zero, suc, ◌+◌, ◌-◌, ◌≡◌, refl, ap, ◌∙◌, arith, Bool, true, false, not, ◌&&◌,
}
use retrosampler.Prelude.{
  List, [], ◌∷◌, Option, none, some, Option-cases, ◌⊎◌, inl, inr, if◌then◌else◌, length, drop,
  get_elem?, get_elem?-none, ◌%◌, ◌^◌, drop-length,
}
use mathlib.Core.Path.{subst}
use retrosampler.Prelude.Bytes.{Bytes}
use retrosampler.Prelude.Ints.{ℤ}
use retrosampler.Shards.Assoc.{lookup, delete}
use retrosampler.Shards.Pending.Defs.{
  PendReq, Shard, FlushJob, Collected, SendOutcome, sent_ok, send_full, collect_err, nothing_owed,
}
use retrosampler.Shards.Pending.Defs.{
  try_send, send_collected, collect_once, settle, drain_entry, drain_at, drain_loop, is_none,
  is_empty, drain_pending,
}
use retrosampler.Shards.Pending.Queue.{Covers, IsQueued, contains}
use retrosampler.Shards.Pending.Drain.{popped, drain_loop-IsQueued}
use retrosampler.Shards.Pending.Compact.{compact_pendq-Kept}

-- The next `n` sends find room.
abbrev pub HasRoom : ℕ → List Bool → Type 0
HasRoom zero takes = Unit {0}
HasRoom (suc n) [] = ⊥
HasRoom (suc n) (b ∷ takes) = (b ≡ true) × HasRoom n takes

HasRoom-pred : (n : ℕ) (takes : List Bool) → HasRoom (suc n) takes → HasRoom n takes
HasRoom-pred zero takes h = tt
HasRoom-pred (suc n) [] h = h
HasRoom-pred (suc n) (b ∷ takes) h = (h.0, HasRoom-pred n takes h.1)

-- A pass over one id disposed of it: the queue is as it was, and room is left for the others.
record Disposed (n : ℕ) (before : Shard) (r : Bool × Shard) : Type 0 where
  goes_on : r.0 ≡ true
  pendq : r.1.pendq ≡ before.pendq
  head : r.1.pendq_head ≡ before.pendq_head
  room : HasRoom n r.1.takes

-- What a send that has room, or that is not needed, says.
record Sent (n : ℕ) (before : Shard) (r : SendOutcome × Shard) : Type 0 where
  ok : (r.0 ≡ sent_ok) ⊎ (r.0 ≡ nothing_owed)
  pendq : r.1.pendq ≡ before.pendq
  head : r.1.pendq_head ≡ before.pendq_head
  room : HasRoom n r.1.takes

Sent-if :
    (n : ℕ) (sh : Shard) (b : Bool) (x y : SendOutcome × Shard)
    → Sent n sh x
    → Sent n sh y
    → Sent n sh (if b then x else y)
Sent-if n sh true x y h k = h
Sent-if n sh false x y h k = k

try_send-Sent :
    (n : ℕ) (j : FlushJob) (takes : List Bool) (sh : Shard)
    → HasRoom (suc n) takes
    → Sent n sh (try_send j takes sh)
unfolding try_send
try_send-Sent n j [] sh h = absurd h
try_send-Sent n j (false ∷ takes) sh h = ground (arith, h.0)
try_send-Sent n j (true ∷ takes) sh h = record {
  ok = inl refl;
  pendq = refl;
  head = refl;
  room = h.1;
}

send_collected-Sent :
    (n : ℕ) (j : FlushJob) (o : Option (List Bytes)) (frags : List Bytes) (sh : Shard)
    → o ≡ some frags
    → HasRoom (suc n) sh.takes
    → Sent n sh (send_collected j o sh)
unfolding send_collected
send_collected-Sent n j none frags sh e h = ground (arith, e)
send_collected-Sent n j (some fs) frags sh e h =
    Sent-if n sh (is_empty fs && not j.need.publish) (nothing_owed, sh) _
      (record { ok = inr refl; pendq = refl; head = refl; room = HasRoom-pred n sh.takes h })
      (try_send-Sent n (record j { frags = fs }) sh.takes sh h)

settle-Disposed :
    (collect : Bytes → Collected) (fallback : ℤ) (n : ℕ) (sh : Shard) (id : Bytes) (req : PendReq)
    (r : SendOutcome × Shard)
    → Sent n sh r
    → Disposed n sh (settle collect fallback id req (r.0) (r.1))
unfolding settle
settle-Disposed collect fallback n sh id req (sent_ok, s) h = record {
  goes_on = refl;
  pendq = h.pendq;
  head = h.head;
  room = h.room;
}
settle-Disposed collect fallback n sh id req (nothing_owed, s) h = record {
  goes_on = refl;
  pendq = h.pendq;
  head = h.head;
  room = h.room;
}
settle-Disposed collect fallback n sh id req (send_full, s) h = ground (arith, h.ok)
settle-Disposed collect fallback n sh id req (collect_err, s) h = ground (arith, h.ok)

Disposed-if :
    (n : ℕ) (sh : Shard) (b : Bool) (x y : Bool × Shard)
    → Disposed n sh x
    → Disposed n sh y
    → Disposed n sh (if b then x else y)
Disposed-if n sh true x y h k = h
Disposed-if n sh false x y h k = k

-- Collect visits the fragments of every trace.
abbrev pub NeverFails : (Bytes → Collected) → Type 0
NeverFails collect = (id : Bytes) → (frags : List Bytes) × ((collect id).frags ≡ some frags)

module _ (collect : Bytes → Collected) (fallback : ℤ) (reads : NeverFails collect) where
  collect_once-Sent :
      (n : ℕ) (sh : Shard) (id : Bytes) (req : PendReq)
      → HasRoom (suc n) sh.takes
      → Sent n sh (collect_once collect fallback sh id req.reason req.need req.deadline)
  unfolding collect_once
  collect_once-Sent n sh id req h =
      let s =
        send_collected-Sent n
          (record {
            id = id;
            reason = req.reason;
            need = req.need;
            frags = [];
            deadline = req.deadline;
          })
          ((collect id).frags) (reads id).0
          (record sh { corrupt_fragments = (sh.corrupt_fragments + (collect id).skipped) % 2 ^ 64 })
          ((reads id).1) h in
      record { ok = s.ok; pendq = s.pendq; head = s.head; room = s.room }

  drain_entry-Disposed :
      (n : ℕ) (sh : Shard) (id : Bytes) (old : Option PendReq)
      → HasRoom (suc n) sh.takes
      → Disposed n sh (drain_entry collect fallback sh id old)
  unfolding drain_entry
  drain_entry-Disposed n sh id none h = record {
    goes_on = refl;
    pendq = refl;
    head = refl;
    room = HasRoom-pred n sh.takes h;
  }
  drain_entry-Disposed n sh id (some req) h =
      Disposed-if n sh (is_none req.need) (true, record sh { pend = delete id sh.pend }) _
        (record { goes_on = refl; pendq = refl; head = refl; room = HasRoom-pred n sh.takes h })
        (settle-Disposed collect fallback n sh id req _ (collect_once-Sent n sh id req h))

  drain_at-Disposed :
      (n : ℕ) (sh : Shard) (at : Option Bytes)
      → sh.pendq_head + suc n ≡ length sh.pendq
      → get_elem? sh.pendq sh.pendq_head ≡ at
      → HasRoom (suc n) sh.takes
      → Disposed n sh (drain_at collect fallback sh at)
  unfolding drain_at
  drain_at-Disposed n sh none e f h =
      absurd (omega (arith, get_elem?-none sh.pendq_head sh.pendq f, e))
  drain_at-Disposed n sh (some id) e f h = drain_entry-Disposed n sh id (lookup id sh.pend) h

  AtEnd-go_on :
      (n : ℕ) (sh : Shard) (next : Shard → Shard)
      → ((s : Shard)
          → s.pendq_head + n ≡ length s.pendq
          → HasRoom n s.takes
          → (next s).pendq_head ≡ length (next s).pendq)
      → sh.pendq_head + suc n ≡ length sh.pendq
      → (r : Bool × Shard) → Disposed n sh r
      → let s' = if r.0 then next (popped (r.1)) else r.1 in s'.pendq_head ≡ length s'.pendq
  AtEnd-go_on n sh next ends e (true, s) d =
      ends (popped s) (omega (arith, e, d.head, ap (λ q. length q) d.pendq)) d.room
  AtEnd-go_on n sh next ends e (false, s) d = ground (arith, d.goes_on)

  drain_loop_end :
      (n : ℕ) (sh : Shard)
      → sh.pendq_head + n ≡ length sh.pendq
      → HasRoom n sh.takes
      → (drain_loop collect fallback n sh).pendq_head
        ≡ length (drain_loop collect fallback n sh).pendq
  unfolding drain_loop
  drain_loop_end zero sh e h = omega (arith, e)
  drain_loop_end (suc n) sh e h =
      AtEnd-go_on n sh (drain_loop collect fallback n) (drain_loop_end n) e _
        (drain_at-Disposed n sh (get_elem? sh.pendq sh.pendq_head) e refl h)

Covers-nil : (pend : List (Bytes × PendReq)) (id : Bytes) → Covers pend [] → lookup id pend ≡ none
unfolding contains
Covers-nil pend id h = elim (Option-cases (lookup id pend)) [
  | inl gone ↦ gone
  | inr (req, e) ↦ ground (arith, (h id req e).1)
]

-- From a state where every intent is queued, and when Collect reads every trace and there is room for a
-- send for each id in the queue, drainPending leaves no intent parked and the queue empty.
pub drain_pending_served :
    (collect : Bytes → Collected) (fallback : ℤ) (sh : Shard)
    → NeverFails collect
    → IsQueued sh
    → HasRoom (length sh.pendq - sh.pendq_head) sh.takes
    → let sh' = drain_pending collect fallback sh in
      ((id : Bytes) → lookup id sh'.pend ≡ none) × (drop sh'.pendq_head sh'.pendq ≡ [])
unfolding drain_pending
drain_pending_served collect fallback sh reads h room =
    let n = length sh.pendq - sh.pendq_head in
    let loop = drain_loop collect fallback n sh in
    let at_end = drain_loop_end collect fallback reads n sh (omega (arith, h.head_in)) room in
    let kept = compact_pendq-Kept loop (drain_loop-IsQueued collect fallback n sh h) in
    let gone : drop loop.pendq_head loop.pendq ≡ [] =
      ap (λ k. drop k loop.pendq) at_end ∙ drop-length loop.pendq in
    (
      λ id. Covers-nil _ id (subst (Covers _) (kept.waiting ∙ gone) kept.queued.covers),
      kept.waiting ∙ gone,
    )
