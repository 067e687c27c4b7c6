-- ===== src/Shards/Pending/Compact.antt =====
-- internal/shards/worker.go: what compactPendq and drainPending keep.
use retrosampler.Prelude.{◌-◌, ◌≡◌, refl, sym, ap, ◌∙◌, arith, Bool, true, false, ◌&&◌}
use retrosampler.Prelude.{[], if◌then◌else◌}
use retrosampler.Prelude.{length, drop, drop-length, ltb, ◌/◌, ◌==◌}
use mathlib.Core.Path.{subst}
use retrosampler.Prelude.Bytes.{Bytes}
use retrosampler.Prelude.Ints.{ℤ}
use retrosampler.Shards.Pending.Defs.{Shard, Collected}
use retrosampler.Shards.Pending.Defs.{drain_loop, compact_pendq, pendq_compact_floor, drain_pending}
use retrosampler.Shards.Pending.Queue.{Covers, IsQueued}
use retrosampler.Shards.Pending.Drain.{drain_loop-IsQueued}

-- The queue from its head on is the same, and the invariant holds.
pub record Kept (before after : Shard) : Type 0 where
  pub waiting : drop after.pendq_head after.pendq ≡ drop before.pendq_head before.pendq
  pub queued : IsQueued after

Kept-if :
    (sh : Shard) (b : Bool) (x y : Shard)
    → (b ≡ true → Kept sh x)
    → Kept sh y
    → Kept sh (if b then x else y)
Kept-if sh true x y h k = h refl
Kept-if sh false x y h k = k

Kept-dropped :
    (sh : Shard)
    → IsQueued sh
    → Kept sh (record sh { pendq = drop sh.pendq_head sh.pendq; pendq_head = 0 })
Kept-dropped sh h = record {
  waiting = refl;
  queued = record { head_in = ground arith; covers = h.covers };
}

Kept-emptied :
    (sh : Shard)
    → IsQueued sh
    → sh.pendq_head ≡ length sh.pendq
    → Kept sh (record sh { pendq = []; pendq_head = 0 })
Kept-emptied sh h e =
    let gone : drop sh.pendq_head sh.pendq ≡ [] =
      ap (λ n. drop n sh.pendq) e ∙ drop-length sh.pendq in
    record {
      waiting = sym gone;
      queued = record { head_in = ground arith; covers = subst (Covers sh.pend) gone (h.covers) };
    }

-- From a state where every intent is queued, compactPendq keeps the ids from the queue's head on, in
-- their order, and the invariant: what it drops has been popped.
pub compact_pendq-Kept : (sh : Shard) → IsQueued sh → Kept sh (compact_pendq sh)
unfolding compact_pendq
compact_pendq-Kept sh h =
    Kept-if sh (sh.pendq_head == length sh.pendq) _ _ (λ e. Kept-emptied sh h (ground (arith, e)))
      (Kept-if sh (ltb pendq_compact_floor sh.pendq_head && ltb (length sh.pendq / 2) sh.pendq_head)
        _ _ (λ e. Kept-dropped sh h) (record { waiting = refl; queued = h }))

-- drainPending keeps every intent that is still parked in the queue, whatever Collect and the channel
-- answer: none is left behind.
pub drain_pending-IsQueued :
    (collect : Bytes → Collected) (fallback : ℤ) (sh : Shard)
    → IsQueued sh
    → IsQueued (drain_pending collect fallback sh)
unfolding drain_pending
drain_pending-IsQueued collect fallback sh h =
    let loop = drain_loop collect fallback (length sh.pendq - sh.pendq_head) sh in
    let c =
      compact_pendq-Kept loop
        (drain_loop-IsQueued collect fallback (length sh.pendq - sh.pendq_head) sh h) in
    record { head_in = c.queued.head_in; covers = c.queued.covers }
