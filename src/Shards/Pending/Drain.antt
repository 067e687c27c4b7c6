-- ===== src/Shards/Pending/Drain.antt =====
-- internal/shards/worker.go: what the loop of drainPending keeps.
use retrosampler.Prelude.{ℕ, zero, suc, ◌+◌, ◌≡◌, refl, ap, arith, Bool, true, false, not, ◌&&◌}
use retrosampler.Prelude.{List, [], ◌∷◌, Option, none, some, if◌then◌else◌}
use retrosampler.Prelude.{length, drop, get_elem?, drop-get_elem?, get_elem?-length}
use mathlib.Core.Path.{subst}
use retrosampler.Prelude.Bytes.{Bytes}
use retrosampler.Prelude.Ints.{ℤ}
use retrosampler.Shards.Assoc.{lookup, delete}
use retrosampler.Shards.Pending.Defs.{
  PendReq, Shard, FlushJob, Collected, SendOutcome, sent_ok, send_full, collect_err, nothing_owed,
}
use retrosampler.Shards.Pending.Defs.{
  park, try_send, send_collected, collect_once, settle, drain_entry, drain_at, drain_loop, is_none,
  is_empty,
}
use retrosampler.Shards.Pending.Queue.{
  Covers, IsQueued, park-IsQueued, Covers-delete_head, Covers-tombstone,
}

-- The shard with its queue's head moved past the id that was popped.
abbrev pub popped : Shard → Shard
popped sh = record sh { pendq_head = sh.pendq_head + 1 }

-- The queue and the map of intents are the same.
pub record SameQueue (a b : Shard) : Type 0 where
  pub pend : a.pend ≡ b.pend
  pub pendq : a.pendq ≡ b.pendq
  pub head : a.pendq_head ≡ b.pendq_head

pub try_send-SameQueue :
    (j : FlushJob) (takes : List Bool) (sh : Shard) → SameQueue ((try_send j takes sh).1) sh
unfolding try_send
try_send-SameQueue j [] sh = record { pend = refl; pendq = refl; head = refl }
try_send-SameQueue j (false ∷ rest) sh = record { pend = refl; pendq = refl; head = refl }
try_send-SameQueue j (true ∷ rest) sh = record { pend = refl; pendq = refl; head = refl }

SameQueue-if :
    (sh : Shard) (b : Bool) (x y : SendOutcome × Shard)
    → SameQueue (x.1) sh
    → SameQueue (y.1) sh
    → SameQueue ((if b then x else y).1) sh
SameQueue-if sh true x y h k = h
SameQueue-if sh false x y h k = k

pub send_collected-SameQueue :
    (j : FlushJob) (frags : Option (List Bytes)) (sh : Shard)
    → SameQueue ((send_collected j frags sh).1) sh
unfolding send_collected
send_collected-SameQueue j none sh = record { pend = refl; pendq = refl; head = refl }
send_collected-SameQueue j (some frags) sh =
    SameQueue-if sh (is_empty frags && not j.need.publish) (nothing_owed, sh) _
      (record { pend = refl; pendq = refl; head = refl })
      (try_send-SameQueue (record j { frags = frags }) sh.takes sh)

-- An id is waiting at the head, and past it the queue holds the other intents.
record Popped (sh : Shard) (id : Bytes) : Type 0 where
  before : IsQueued sh
  found : get_elem? sh.pendq sh.pendq_head ≡ some id

Popped-drop :
    (sh : Shard) (id : Bytes)
    → Popped sh id
    → Covers sh.pend (id ∷ drop (suc sh.pendq_head) sh.pendq)
Popped-drop sh id h =
    subst (Covers sh.pend) (drop-get_elem? sh.pendq_head sh.pendq id (h.found)) (h.before.covers)

next_head : (n : ℕ) (q : List Bytes) → drop (suc n) q ≡ drop (n + 1) q
next_head n q = let same : suc n ≡ n + 1 = omega arith in ap (λ k. drop k q) same

Popped-delete :
    (sh : Shard) (id : Bytes)
    → Popped sh id
    → IsQueued (record (popped sh) { pend = delete id sh.pend })
Popped-delete sh id h = record {
  head_in = get_elem?-length sh.pendq_head sh.pendq id (h.found);
  covers =
      subst (Covers _) (next_head sh.pendq_head sh.pendq)
        (Covers-delete_head sh.pend _ id (Popped-drop sh id h));
}

Popped-tombstone :
    (sh : Shard) (id : Bytes) → Popped sh id → lookup id sh.pend ≡ none → IsQueued (popped sh)
Popped-tombstone sh id h gone = record {
  head_in = get_elem?-length sh.pendq_head sh.pendq id (h.found);
  covers =
      subst (Covers _) (next_head sh.pendq_head sh.pendq)
        (Covers-tombstone sh.pend _ id gone (Popped-drop sh id h));
}

SameQueue-Popped : (a b : Shard) (id : Bytes) → SameQueue a b → Popped b id → Popped a id
SameQueue-Popped a b id s h = record {
  before = record {
    head_in = ground (arith, ap (λ q. length q) (s.pendq), s.head, h.before.head_in);
    covers = λ j r e. ground (arith, s.pend, s.pendq, s.head, e, h.before.covers j r);
  };
  found = ground (arith, s.pendq, s.head, h.found);
}

-- The invariant after a step of the loop: the head moves on where the pass does.
abbrev After : Bool × Shard → Type 0
After r = IsQueued (if r.0 then popped (r.1) else r.1)

settle-After :
    (collect : Bytes → Collected) (fallback : ℤ) (id : Bytes) (req : PendReq) (o : SendOutcome)
    (sh : Shard)
    → Popped sh id
    → After (settle collect fallback id req o sh)
unfolding settle park
settle-After collect fallback id req send_full sh h = h.before
settle-After collect fallback id req collect_err sh h =
    park-IsQueued fallback (record (popped sh) { pend = delete id sh.pend }) id req.reason req.need
      req.deadline (Popped-delete sh id h)
settle-After collect fallback id req sent_ok sh h = Popped-delete sh id h
settle-After collect fallback id req nothing_owed sh h = Popped-delete sh id h

collect_once-SameQueue :
    (collect : Bytes → Collected) (fallback : ℤ) (sh : Shard) (id : Bytes) (req : PendReq)
    → SameQueue ((collect_once collect fallback sh id req.reason req.need req.deadline).1) sh
unfolding collect_once
collect_once-SameQueue collect fallback sh id req =
    let s =
      send_collected-SameQueue
        (record {
          id = id;
          reason = req.reason;
          need = req.need;
          frags = [];
          deadline = req.deadline;
        })
        ((collect id).frags) _ in
    record { pend = s.pend; pendq = s.pendq; head = s.head }

After-if : (b : Bool) (x y : Bool × Shard) → After x → After y → After (if b then x else y)
After-if true x y h k = h
After-if false x y h k = k

drain_entry-After :
    (collect : Bytes → Collected) (fallback : ℤ) (sh : Shard) (id : Bytes) (old : Option PendReq)
    → Popped sh id
    → lookup id sh.pend ≡ old
    → After (drain_entry collect fallback sh id old)
unfolding drain_entry
drain_entry-After collect fallback sh id none h f = Popped-tombstone sh id h f
drain_entry-After collect fallback sh id (some req) h f =
    let r = collect_once collect fallback sh id req.reason req.need req.deadline in
    After-if (is_none req.need) (true, record sh { pend = delete id sh.pend })
      (settle collect fallback id req (r.0) (r.1)) (Popped-delete sh id h)
      (settle-After collect fallback id req (r.0) (r.1)
        (SameQueue-Popped (r.1) sh id (collect_once-SameQueue collect fallback sh id req) h))

drain_at-After :
    (collect : Bytes → Collected) (fallback : ℤ) (sh : Shard) (at : Option Bytes)
    → IsQueued sh
    → get_elem? sh.pendq sh.pendq_head ≡ at
    → After (drain_at collect fallback sh at)
unfolding drain_at
drain_at-After collect fallback sh none h f = h
drain_at-After collect fallback sh (some id) h f =
    drain_entry-After collect fallback sh id (lookup id sh.pend) (record { before = h; found = f })
      refl

After-go_on :
    (next : Shard → Shard)
    → ((sh : Shard) → IsQueued sh → IsQueued (next sh))
    → (r : Bool × Shard) → After r
    → IsQueued (if r.0 then next (popped (r.1)) else r.1)
After-go_on next keeps (true, sh) h = keeps (popped sh) h
After-go_on next keeps (false, sh) h = h

pub drain_loop-IsQueued :
    (collect : Bytes → Collected) (fallback : ℤ) (n : ℕ) (sh : Shard)
    → IsQueued sh
    → IsQueued (drain_loop collect fallback n sh)
unfolding drain_loop
drain_loop-IsQueued collect fallback zero sh h = h
drain_loop-IsQueued collect fallback (suc n) sh h =
    After-go_on (drain_loop collect fallback n) (drain_loop-IsQueued collect fallback n)
      (drain_at collect fallback sh (get_elem? sh.pendq sh.pendq_head))
      (drain_at-After collect fallback sh (get_elem? sh.pendq sh.pendq_head) h refl)
