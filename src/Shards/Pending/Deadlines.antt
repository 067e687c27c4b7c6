-- ===== src/Shards/Pending/Deadlines.antt =====
-- internal/shards/worker.go: a deadline belongs to a publish that is owed.
use retrosampler.Prelude.{
  ℕ, ◌≡◌, refl, sym, ap, ◌∙◌, arith, Bool, true, false, List, Option, none, some, bytes_eq,
  if◌then◌else◌,
}
use retrosampler.Prelude.Bytes.{Bytes}
use retrosampler.Prelude.Ints.{ℤ, pos, ◌<ℤ◌}
use retrosampler.Shards.Assoc.{lookup, lookup-insert}
use retrosampler.Shards.Pending.Defs.{
  Need, PendReq, Shard, req_or_zero, merge_req, park, sweep_req, sweep_pending,
}
use retrosampler.Shards.Pending.Queue.{swept_at, lookup-sweep_entries}

-- A request that owes no publish has no deadline.
abbrev pub IsClear : PendReq → Type 0
IsClear req = req.need.publish ≡ false → req.deadline ≡ pos 0

abbrev pub AllClear : List (Bytes × PendReq) → Type 0
AllClear pend = (id : Bytes) (req : PendReq) → lookup id pend ≡ some req → IsClear req

merge_req-IsClear :
    (fallback : ℤ) (old : PendReq) (reason : ℕ) (need : Need) (deadline : ℤ)
    → IsClear old
    → IsClear (merge_req fallback old reason need deadline)
unfolding merge_req
merge_req-IsClear fallback old reason need deadline h p = ground (arith, h, p)

req_or_zero-IsClear :
    (pend : List (Bytes × PendReq)) (id : Bytes) (old : Option PendReq)
    → AllClear pend
    → lookup id pend ≡ old
    → IsClear (req_or_zero old)
unfolding req_or_zero
req_or_zero-IsClear pend id none h e = λ p. refl
req_or_zero-IsClear pend id (some old) h e = h id old e

sweep_req-IsClear :
    (now : ℤ) (old r : PendReq) → IsClear old → sweep_req now old ≡ some r → IsClear r
unfolding sweep_req
sweep_req-IsClear now old r h e p = ground (arith, h, e, p)

abbrev deadline_of : Option PendReq → ℤ
deadline_of none = pos 0
deadline_of (some r) = r.deadline

abbrev publish_of : Option PendReq → Bool
publish_of none = false
publish_of (some r) = r.need.publish

AllClear-park_cases :
    (pend : List (Bytes × PendReq)) (merged : PendReq) (j : Bytes) (r : PendReq) (b : Bool)
    → AllClear pend
    → IsClear merged
    → (if b then some merged else lookup j pend) ≡ some r
    → IsClear r
AllClear-park_cases pend merged j r true h m e p = sym (ap deadline_of e) ∙ m (ap publish_of e ∙ p)
AllClear-park_cases pend merged j r false h m e p = h j r e p

-- park keeps this: an entry that owes no publish has deadline 0, so that the next publish to merge into it
-- brings its own.
pub park-AllClear :
    (fallback : ℤ) (sh : Shard) (id : Bytes) (reason : ℕ) (need : Need) (deadline : ℤ)
    → AllClear sh.pend
    → AllClear (park fallback sh id reason need deadline).pend
unfolding park
park-AllClear fallback sh id reason need deadline h j r e =
    AllClear-park_cases sh.pend
      (merge_req fallback (req_or_zero (lookup id sh.pend)) reason need deadline) j r
      (bytes_eq id j) h
      (merge_req-IsClear fallback (req_or_zero (lookup id sh.pend)) reason need deadline
        (req_or_zero-IsClear sh.pend id (lookup id sh.pend) h refl))
      (sym (lookup-insert id j _ sh.pend) ∙ e)

swept_at-ahead :
    (now : ℤ) (old : Option PendReq) (r : PendReq)
    → swept_at now old ≡ some r
    → r.need.publish ≡ true
    → now <ℤ r.deadline
unfolding sweep_req
swept_at-ahead now none r e p = ground (arith, e)
swept_at-ahead now (some old) r e p = ground (arith, e, p)

swept_at-IsClear :
    (now : ℤ) (pend : List (Bytes × PendReq)) (j : Bytes) (old : Option PendReq) (r : PendReq)
    → AllClear pend
    → lookup j pend ≡ old
    → swept_at now old ≡ some r
    → IsClear r
swept_at-IsClear now pend j none r h f e = ground (arith, e)
swept_at-IsClear now pend j (some old) r h f e = sweep_req-IsClear now old r (h j old f) e

-- The sweep clears a deadline with the publish that it bounds: it keeps that an entry that owes no publish
-- has deadline 0, and an entry that still owes one afterwards has its deadline ahead.
pub sweep_pending-AllClear :
    (now : ℤ) (sh : Shard)
    → AllClear sh.pend
    → AllClear (sweep_pending now sh).pend
      × ((id : Bytes) (req : PendReq)
          → lookup id (sweep_pending now sh).pend ≡ some req
          → req.need.publish ≡ true
          → now <ℤ req.deadline)
unfolding sweep_pending
sweep_pending-AllClear now sh h = (
  λ j r e.
      swept_at-IsClear now sh.pend j (lookup j sh.pend) r h refl
        (sym (lookup-sweep_entries now sh.pend j) ∙ e),
  λ j r e p.
      swept_at-ahead now (lookup j sh.pend) r (sym (lookup-sweep_entries now sh.pend j) ∙ e) p,
)
