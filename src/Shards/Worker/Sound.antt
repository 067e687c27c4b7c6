-- ===== src/Shards/Worker/Sound.antt =====
-- internal/shards/worker.go: what a worker keeps over any run of events and ticks.
use mathlib.Core.Path.{subst}
use retrosampler.Prelude.{
  ℕ, zero, suc, ◌+◌, ◌-◌, ◌^◌, ◌<◌, ◌≤◌, ◌≡◌, refl, sym, ap, ◌∙◌, arith, Bool, true, false, List,
  [], ◌∷◌, Option, none, some,
}
use retrosampler.Prelude.{Bool-cases, inl, inr, length}
use retrosampler.Prelude.Ints.{ℤ, ltb_ℤ, ◌+ℤ◌, ◌-ℤ◌}
use retrosampler.Shards.Decided.Defs.{DecidedSet, mark, has}
use retrosampler.Shards.Decided.Live.{IsIntact}
use retrosampler.Shards.Decided.Refine.{issued, mark_lem, evict_lem}
use retrosampler.Shards.Pending.Defs.{sweep_pending}
use retrosampler.Shards.Pending.Queue.{IsQueued, park-IsQueued, sweep_pending-IsQueued}
use retrosampler.Shards.Pending.Compact.{drain_pending-IsQueued}
use retrosampler.Shards.Pending.Handoff.{collect_and_send-IsQueued, send_job-IsQueued}
use retrosampler.Shards.Queues.Defs.{
  EventKind, ev_frag, ev_keep, ev_retry, Origin, origin_local, origin_bus, origin_baseline,
  FloorCause, FragBuf,
}
use retrosampler.Shards.Worker.Defs.{
  Disk, Node, count_kept, need_of, forward_late, append_fragment, decided, keep, clamp_at,
  count_clamped, handle_kind, handle,
}
use retrosampler.Shards.Worker.Tick.{
  Round, halt, again, load_total, sacrificed, sacrifice_next, round, sacrifice, store_cause,
  report_disk, expire_all, tick,
}

-- The decided set is intact, and every parked intent waits in the queue.
pub record IsSound {ℓ} {B : Type ℓ} (n : Node B) : Type 0 where
  pub intact : IsIntact n.dec
  pub queued : IsQueued n.pending

-- Some steps leave the two parts as they were.
abbrev Untouched {ℓ} : {B : Type ℓ} → Node B → Node B → Type 0
Untouched n m = (m.dec ≡ n.dec) × (m.pending ≡ n.pending)

count_kept-Untouched {ℓ} :
    {B : Type ℓ} (o : Origin) (n : Node B)
    → (Untouched n (count_kept o n)) × ((count_kept o n).buf ≡ n.buf)
unfolding count_kept
count_kept-Untouched origin_local n = ((refl, refl), refl)
count_kept-Untouched origin_bus n = ((refl, refl), refl)
count_kept-Untouched origin_baseline n = ((refl, refl), refl)

-- What the worker reacts to: an event with the clock at its stamp and the deadline of a park, or a tick.
pub data Input : Type 0 where
  event : FragBuf → ℤ → ℤ → Input
  ticks : ℤ → ℤ → Input

module _ {ℓ} {B : Type ℓ} (disk : Disk B) (window : ℤ) where
  forward_late-IsSound :
      (fallback : ℤ) (fb : FragBuf) (r : Bool × B) (n : Node B)
      → IsSound n
      → (IsSound (forward_late disk window fallback fb r n))
        × ((forward_late disk window fallback fb r n).dec ≡ n.dec)
  unfolding forward_late
  forward_late-IsSound fallback fb (false, b) n h =
      (record { intact = h.intact; queued = h.queued }, refl)
  forward_late-IsSound fallback fb (true, b) n h = (
    record {
      intact = h.intact;
      queued = elim (Bool-cases (has n.dec fb.id)) [
        | inl late ↦ rw late (send_job-IsQueued (disk.collect b) fallback n.pending _ h.queued)
        | inr early ↦ rw early h.queued
      ];
    },
    refl,
  )

  decided-IsSound :
      (fallback : ℤ) (fb : FragBuf) (r : Bool × DecidedSet) (n : Node B)
      → IsIntact r.1
      → IsQueued n.pending
      → (IsSound (decided disk window fallback fb r n))
        × ((decided disk window fallback fb r n).dec ≡ r.1)
  unfolding decided
  decided-IsSound fallback fb (false, d) n intact queued =
      (record { intact = intact; queued = queued }, refl)
  decided-IsSound fallback fb (true, d) n intact queued =
      let n1 = count_kept fb.origin n in
      let q : IsQueued n1.pending =
        subst IsQueued (sym (count_kept-Untouched fb.origin n).0.1) queued in
      (
        record {
          intact = intact;
          queued =
              collect_and_send-IsQueued (disk.collect n1.buf) fallback n1.pending fb.id fb.reason
                (need_of fb.origin) (fb.at +ℤ window) q;
        },
        refl,
      )

  -- What is kept, with at most one more number given out.
  abbrev Keeps : Node B → Node B → Type 0
  Keeps n m = IsSound m × (issued m.dec ≤ issued n.dec + 1)

  handle_kind-Keeps :
      (fallback now : ℤ) (kind : EventKind) (fb : FragBuf) (n : Node B)
      → IsSound n
      → issued n.dec + 1 < 2 ^ 64 - 2
      → Keeps n (handle_kind disk window fallback kind now fb n)
  unfolding handle_kind append_fragment keep count_clamped
  handle_kind-Keeps fallback now ev_frag fb n h small =
      let (sound, same) =
        forward_late-IsSound fallback (clamp_at now fb)
          (disk.append (clamp_at now fb).id (clamp_at now fb).data_bytes (clamp_at now fb).at n.buf)
          (count_clamped now fb n) (record { intact = h.intact; queued = h.queued }) in
      (sound, omega (arith, ap issued same))
  handle_kind-Keeps fallback now ev_keep fb n h small =
      let c = clamp_at now fb in
      let (intact, _, few) = mark_lem n.dec c.id (c.at +ℤ window) h.intact small in
      let (sound, same) =
        decided-IsSound fallback c (mark n.dec c.id (c.at +ℤ window)) (count_clamped now fb n)
          intact h.queued in
      (sound, omega (arith, ap issued same, few))
  handle_kind-Keeps fallback now ev_retry fb n h small = (
    record {
      intact = h.intact;
      queued = park-IsQueued fallback n.pending fb.id fb.reason fb.need fb.deadline h.queued;
    },
    omega arith,
  )

  expire_all-Keeps :
      (now fallback : ℤ) (n : Node B) → IsSound n → Keeps n (expire_all disk now fallback n)
  unfolding expire_all report_disk
  expire_all-Keeps now fallback n h =
      let (intact, _, same) = evict_lem n.dec now h.intact in
      (
        record {
          intact = intact;
          queued =
              drain_pending-IsQueued _ fallback (sweep_pending now n.pending)
                (sweep_pending-IsQueued now n.pending h.queued);
        },
        omega (arith, same),
      )

  -- The node of a round.
  abbrev node_of : Round B → Node B
  node_of (halt cause n) = n
  node_of (again n) = n

  load_total-Untouched : (others : List ℤ) (n : Node B) → Untouched n (load_total others n)
  unfolding load_total
  load_total-Untouched [] n = (refl, refl)
  load_total-Untouched (delta ∷ rest) n = (refl, refl)

  sacrificed-Untouched :
      (r : Option ℤ × B) (n : Node B) → Untouched n (node_of (sacrificed disk r n))
  unfolding sacrificed
  sacrificed-Untouched (none, b) n = (refl, refl)
  sacrificed-Untouched (some freed, b) n = (refl, refl)

  sacrifice_next-Untouched :
      (cutoff : ℤ) (t : Option ℤ) (n : Node B)
      → Untouched n (node_of (sacrifice_next disk cutoff t n))
  unfolding sacrifice_next
  sacrifice_next-Untouched cutoff none n = (refl, refl)
  sacrifice_next-Untouched cutoff (some t) n = elim (Bool-cases (ltb_ℤ t cutoff)) [
    | inl old ↦ rw old (sacrificed-Untouched (disk.expire_oldest n.buf) n)
    | inr young ↦ rw young (refl, refl)
  ]

  round-Untouched :
      (limit cutoff : ℤ) (n : Node B) → Untouched n (node_of (round disk limit cutoff n))
  unfolding round
  round-Untouched limit cutoff n =
      let m = load_total n.others n in
      let (a, b) = load_total-Untouched n.others n in
      elim (Bool-cases (ltb_ℤ limit m.disk_total)) [
        | inl full ↦
            let (c, d) = sacrifice_next-Untouched cutoff (disk.oldest m.buf) m in
            rw full (c ∙ a, d ∙ b)
        | inr fine ↦ rw fine (a, b)
      ]

  sacrifice-Untouched :
      (limit cutoff : ℤ) (fuel : ℕ) (r : Round B)
      → Untouched (node_of r) (sacrifice disk limit cutoff fuel r).1
  unfolding sacrifice
  sacrifice-Untouched limit cutoff zero (halt cause n) = (refl, refl)
  sacrifice-Untouched limit cutoff (suc fuel) (halt cause n) = (refl, refl)
  sacrifice-Untouched limit cutoff zero (again n) = (refl, refl)
  sacrifice-Untouched limit cutoff (suc fuel) (again n) =
      let (a, b) = sacrifice-Untouched limit cutoff fuel (round disk limit cutoff n) in
      let (c, d) = round-Untouched limit cutoff n in (a ∙ c, b ∙ d)

  store_cause-Untouched : (r : Option FloorCause × Node B) → Untouched r.1 (store_cause disk r)
  unfolding store_cause
  store_cause-Untouched (none, n) = (refl, refl)
  store_cause-Untouched (some cause, n) = (refl, refl)

  module _ (window_floor limit : ℤ) where
    unfoldable pub react : Input → Node B → Node B
    react (event fb now fallback) n = handle disk window fallback now fb n
    react (ticks now fallback) n = tick disk window window_floor limit now fallback n

    unfoldable pub reacts : List Input → Node B → Node B
    unfolding react
    reacts [] n = n
    reacts (i ∷ is) n = reacts is (react i n)

    react-Keeps :
        (i : Input) (n : Node B) → IsSound n → issued n.dec + 1 < 2 ^ 64 - 2 → Keeps n (react i n)
    unfolding react handle tick
    react-Keeps (event fb now fallback) n h small =
        handle_kind-Keeps fallback now fb.kind fb n h small
    react-Keeps (ticks now fallback) n h small =
        let n1 = expire_all disk now fallback n in
        let (sound, few) = expire_all-Keeps now fallback n h in
        let r = sacrifice disk limit (now -ℤ window_floor) (disk.segments n1.buf + 1) (again n1) in
        let (a, b) =
          sacrifice-Untouched limit (now -ℤ window_floor) (disk.segments n1.buf + 1) (again n1) in
        let (c, d) = store_cause-Untouched r in
        (
          record {
            intact = subst IsIntact (sym (c ∙ a)) sound.intact;
            queued = subst IsQueued (sym (d ∙ b)) sound.queued;
          },
          omega (arith, few, ap issued (c ∙ a)),
        )

    -- Over fewer than 2 ^ 64 - 2 events and ticks, whatever the buffer answers, a worker's decided set stays
    -- intact and every intent that it has parked stays in the queue.
    pub reacts-IsSound :
        (is : List Input) (n : Node B)
        → IsSound n
        → issued n.dec + length is < 2 ^ 64 - 2
        → IsSound (reacts is n)
    unfolding reacts
    reacts-IsSound [] n h small = h
    reacts-IsSound (i ∷ is) n h small =
        let (sound, few) = react-Keeps i n h (omega (arith, small)) in
        reacts-IsSound is (react i n) sound (omega (arith, few, small))
