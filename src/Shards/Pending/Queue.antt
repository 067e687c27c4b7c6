-- ===== src/Shards/Pending/Queue.antt =====
-- internal/shards/worker.go: every parked intent waits in the queue.
use retrosampler.Prelude.{ℕ, ◌≤◌, ◌≡◌, refl, sym, ap, ◌∙◌, arith, Bool, true, false, ◌||◌}
use retrosampler.Prelude.{List, [], ◌∷◌, ◌++◌, Option, none, some, if◌then◌else◌}
use mathlib.Core.Path.{subst}
use retrosampler.Prelude.{
  bytes_eq→eq, drop-append_le, length, length-append, drop, bytes_eq, bytes_eq_iff, bytes_eq_refl,
}
use retrosampler.Prelude.Bytes.{Bytes}
use retrosampler.Prelude.Ints.{ℤ}
use retrosampler.Prelude.Options.{◌>>=◌}
use retrosampler.Shards.Assoc.{lookup, insert, delete, lookup-insert, lookup-delete}
use retrosampler.Shards.Pending.Defs.{
  Need, PendReq, Shard, req_or_zero, merge_req, park, sweep_entries, sweep_req, keep_swept,
  sweep_pending,
}

-- Whether an id stands in a queue.
unfoldable pub contains : Bytes → List Bytes → Bool
contains id [] = false
contains id (x ∷ xs) = bytes_eq x id || contains id xs

contains-append :
    (id : Bytes) (xs ys : List Bytes) → contains id (xs ++ ys) ≡ (contains id xs || contains id ys)
unfolding contains
contains-append id [] ys = refl
contains-append id (x ∷ xs) ys = ground (arith, contains-append id xs ys)

-- Each entry is marked as queued, and its id stands in the queue `q`.
abbrev pub Covers : List (Bytes × PendReq) → List Bytes → Type 0
Covers pend q =
    (id : Bytes) (req : PendReq)
    → lookup id pend ≡ some req
    → (req.queued ≡ true) × (contains id q ≡ true)

-- The intents that are parked all wait between the head of the queue and its end.
pub record IsQueued (sh : Shard) : Type 0 where
  pub head_in : sh.pendq_head ≤ length sh.pendq
  pub covers : Covers sh.pend (drop sh.pendq_head sh.pendq)

-- The queue behind a park of `id`.
abbrev pub requeue : Bool → List Bytes → Bytes → List Bytes
requeue queued q id = if queued then q else q ++ (id ∷ [])

contains-requeue-old :
    (b : Bool) (q : List Bytes) (id j : Bytes)
    → contains j q ≡ true
    → contains j (requeue b q id) ≡ true
contains-requeue-old true q id j h = h
contains-requeue-old false q id j h = ground (arith, h, contains-append j q (id ∷ []))

contains-requeue-new :
    (b : Bool) (q : List Bytes) (id : Bytes)
    → (b ≡ true → contains id q ≡ true)
    → contains id (requeue b q id) ≡ true
unfolding contains
contains-requeue-new true q id h = h refl
contains-requeue-new false q id h = ground (arith, contains-append id q (id ∷ []), bytes_eq_refl id)

req_or_zero-queued :
    (pend : List (Bytes × PendReq)) (q : List Bytes) (id : Bytes) (old : Option PendReq)
    → Covers pend q
    → lookup id pend ≡ old
    → (req_or_zero old).queued ≡ true
    → contains id q ≡ true
unfolding req_or_zero
req_or_zero-queued pend q id none h f b = ground (arith, b)
req_or_zero-queued pend q id (some old) h f b = (h id old f).1

queued_or_false : Option PendReq → Bool
queued_or_false none = false
queued_or_false (some r) = r.queued

Covers-park_cases :
    (pend : List (Bytes × PendReq)) (q : List Bytes) (id : Bytes) (merged : PendReq)
    → Covers pend q
    → merged.queued ≡ true
    → (j : Bytes) (r : PendReq) (b : Bool) → bytes_eq id j ≡ b
    → (if b then some merged else lookup j pend) ≡ some r
    → (r.queued ≡ true) × (contains j (requeue ((req_or_zero (lookup id pend)).queued) q id) ≡ true)
unfolding queued_or_false
Covers-park_cases pend q id merged h m j r true same e = (
  sym (ap queued_or_false e) ∙ m,
  subst (λ k. contains k (requeue ((req_or_zero (lookup id pend)).queued) q id) ≡ true)
      (bytes_eq→eq id j same)
      (contains-requeue-new _ q id (req_or_zero-queued pend q id (lookup id pend) h refl)),
)
Covers-park_cases pend q id merged h m j r false same e =
    ((h j r e).0, contains-requeue-old _ q id j ((h j r e).1))

Covers-park :
    (fallback : ℤ) (pend : List (Bytes × PendReq)) (q : List Bytes) (id : Bytes) (reason : ℕ)
    (need : Need) (deadline : ℤ)
    → Covers pend q
    → let req = req_or_zero (lookup id pend) in
      Covers
        (insert id (merge_req fallback req reason need deadline) pend)
        (requeue req.queued q id)
unfolding merge_req
Covers-park fallback pend q id reason need deadline h j r e =
    Covers-park_cases pend q id
      (merge_req fallback (req_or_zero (lookup id pend)) reason need deadline) h refl j r
      (bytes_eq id j) refl (sym (lookup-insert id j _ pend) ∙ e)

pub Covers-delete_head :
    (pend : List (Bytes × PendReq)) (q : List Bytes) (id : Bytes)
    → Covers pend (id ∷ q)
    → Covers (delete id pend) q
unfolding contains
Covers-delete_head pend q id h j r e =
    ground (arith, sym (lookup-delete id j pend) ∙ e, h j r, bytes_eq_iff id j)

pub Covers-tombstone :
    (pend : List (Bytes × PendReq)) (q : List Bytes) (id : Bytes)
    → lookup id pend ≡ none
    → Covers pend (id ∷ q)
    → Covers pend q
unfolding contains
Covers-tombstone pend q id gone h j r e = ground (arith, gone, e, h j r e, bytes_eq_iff id j)

drop-requeue :
    (b : Bool) (q : List Bytes) (id : Bytes) (n : ℕ)
    → n ≤ length q
    → drop n (requeue b q id) ≡ requeue b (drop n q) id
drop-requeue true q id n h = refl
drop-requeue false q id n h = drop-append_le n q (id ∷ []) h

requeue-longer :
    (b : Bool) (q : List Bytes) (id : Bytes) (n : ℕ) → n ≤ length q → n ≤ length (requeue b q id)
requeue-longer true q id n h = h
requeue-longer false q id n h = ground (arith, h, length-append q (id ∷ []))

-- park keeps every intent in the queue, the one that it parks included.
pub park-IsQueued :
    (fallback : ℤ) (sh : Shard) (id : Bytes) (reason : ℕ) (need : Need) (deadline : ℤ)
    → IsQueued sh
    → IsQueued (park fallback sh id reason need deadline)
unfolding park
park-IsQueued fallback sh id reason need deadline h = record {
  head_in =
      requeue-longer ((req_or_zero (lookup id sh.pend)).queued) sh.pendq id sh.pendq_head
        (h.head_in);
  covers =
      subst (Covers _)
        (sym (
          drop-requeue ((req_or_zero (lookup id sh.pend)).queued) sh.pendq id sh.pendq_head
            (h.head_in)))
        (Covers-park fallback sh.pend (drop sh.pendq_head sh.pendq) id reason need deadline
          (h.covers));
}

-- What the loop leaves of the entry of `id`.
abbrev pub swept_at : ℤ → Option PendReq → Option PendReq
swept_at now old = old >>= sweep_req now

keep_swept-lookup :
    (id j : Bytes) (r : Option PendReq) (m : List (Bytes × PendReq))
    → lookup j (keep_swept id r m) ≡ (if bytes_eq id j then r else lookup j m)
unfolding keep_swept lookup
keep_swept-lookup id j none m = lookup-delete id j m
keep_swept-lookup id j (some r) m = refl

pub lookup-sweep_entries :
    (now : ℤ) (m : List (Bytes × PendReq)) (j : Bytes)
    → lookup j (sweep_entries now m) ≡ swept_at now (lookup j m)
unfolding sweep_entries lookup
lookup-sweep_entries now [] j = refl
lookup-sweep_entries now ((id, req) ∷ m) j = ground (
  arith,
  keep_swept-lookup id j (sweep_req now req) (sweep_entries now m),
  lookup-sweep_entries now m j,
)

sweep_req-queued : (now : ℤ) (old r : PendReq) → sweep_req now old ≡ some r → r.queued ≡ old.queued
unfolding sweep_req
sweep_req-queued now old r e = ground (arith, e)

swept_cases :
    (now : ℤ) (pend : List (Bytes × PendReq)) (q : List Bytes)
    → Covers pend q
    → (j : Bytes) (r : PendReq) (old : Option PendReq) → lookup j pend ≡ old
    → swept_at now old ≡ some r
    → (r.queued ≡ true) × (contains j q ≡ true)
swept_cases now pend q h j r none f e = ground (arith, e)
swept_cases now pend q h j r (some old) f e =
    (sweep_req-queued now old r e ∙ (h j old f).0, (h j old f).1)

sweep_entries-Covers :
    (now : ℤ) (pend : List (Bytes × PendReq)) (q : List Bytes)
    → Covers pend q
    → Covers (sweep_entries now pend) q
sweep_entries-Covers now pend q h j r e =
    swept_cases now pend q h j r (lookup j pend) refl (sym (lookup-sweep_entries now pend j) ∙ e)

-- The sweep leaves no intent outside the queue.
pub sweep_pending-IsQueued : (now : ℤ) (sh : Shard) → IsQueued sh → IsQueued (sweep_pending now sh)
unfolding sweep_pending
sweep_pending-IsQueued now sh h = record {
  head_in = h.head_in;
  covers = sweep_entries-Covers now sh.pend (drop sh.pendq_head sh.pendq) (h.covers);
}
