-- ===== src/Shards/Worker/Once.antt =====
-- internal/shards/worker.go: a trace is decided once.
use mathlib.Core.Path.{subst}
use retrosampler.Prelude.{
  if◌then◌else◌, ℕ, ◌+◌, ◌-◌, ◌%◌, ◌^◌, ◌<◌, ◌≡◌, refl, ap, ◌∙◌, arith, Bool, true, false,
}
use retrosampler.Prelude.Ints.{ℤ, ◌+ℤ◌}
use retrosampler.Shards.Decided.Defs.{DecidedSet, mark}
use retrosampler.Shards.Decided.Live.{IsIntact, live_entries}
use retrosampler.Shards.Decided.Refine.{issued, list_mark, mark_lem}
use retrosampler.Shards.Queues.Defs.{
  EventKind, ev_frag, ev_keep, ev_retry, Origin, origin_local, origin_bus, origin_baseline, FragBuf,
}
use retrosampler.Shards.Worker.Defs.{
  Disk, Node, count_kept, forward_late, append_fragment, decided, keep, clamp_at, count_clamped,
  handle_kind, handle,
}

abbrev pub one_if : Bool → ℕ
one_if true = 1
one_if false = 0

-- The counters have not come to their ends.
abbrev pub HasCounts {ℓ} : {B : Type ℓ} → Node B → Type 0
HasCounts n =
    (n.kept_local + 1 < 2 ^ 64) × (n.kept_bus + 1 < 2 ^ 64) × (n.duplicate_keeps + 1 < 2 ^ 64)

-- A keep of a baseline is counted as a local one.
abbrev pub is_bus : Origin → Bool
is_bus origin_local = false
is_bus origin_bus = true
is_bus origin_baseline = false

-- The counters that a step of `l` local keeps, `k` keeps from the bus and `c` duplicates leaves.
abbrev pub Counts {ℓ} : {B : Type ℓ} → Node B → Node B → ℕ → ℕ → ℕ → Type 0
Counts n m l k c =
    (m.kept_local ≡ n.kept_local + l)
    × (m.kept_bus ≡ n.kept_bus + k)
    × (m.duplicate_keeps ≡ n.duplicate_keeps + c)

-- The counters that a keep of the origin leaves, new or not.
abbrev pub CountsKeep {ℓ} : {B : Type ℓ} → Origin → Bool → Node B → Node B → Type 0
CountsKeep o r n m =
    Counts n m (if is_bus o then 0 else one_if r) (if is_bus o then one_if r else 0) (1 - one_if r)

count_kept-CountsKeep {ℓ} :
    {B : Type ℓ} (o : Origin) (n : Node B) → HasCounts n → CountsKeep o true n (count_kept o n)
unfolding count_kept
count_kept-CountsKeep origin_local n (a, b, c) = (omega (arith, a), omega arith, omega arith)
count_kept-CountsKeep origin_bus n (a, b, c) = (omega arith, omega (arith, b), omega arith)
count_kept-CountsKeep origin_baseline n (a, b, c) = (omega (arith, a), omega arith, omega arith)

duplicate-CountsKeep {ℓ} :
    {B : Type ℓ} (o : Origin) (n m : Node B) → Counts n m 0 0 1 → CountsKeep o false n m
duplicate-CountsKeep origin_local n m h = h
duplicate-CountsKeep origin_bus n m h = h
duplicate-CountsKeep origin_baseline n m h = h

module _ {ℓ} {B : Type ℓ} (disk : Disk B) (window fallback : ℤ) where
  decided-CountsKeep :
      (fb : FragBuf) (r : Bool × DecidedSet) (n : Node B)
      → HasCounts n
      → let m = decided disk window fallback fb r n in (m.dec ≡ r.1) × CountsKeep fb.origin r.0 n m
  unfolding decided
  decided-CountsKeep fb (false, d) n (a, b, c) =
      let m = record n { dec = d; duplicate_keeps = (n.duplicate_keeps + 1) % 2 ^ 64 } in
      (refl, duplicate-CountsKeep fb.origin n m (omega arith, omega arith, omega (arith, c)))
  decided-CountsKeep fb (true, d) n h = (refl, count_kept-CountsKeep fb.origin n h)

  forward_late-Counts :
      (fb : FragBuf) (r : Bool × B) (n : Node B)
      → let m = forward_late disk window fallback fb r n in (m.dec ≡ n.dec) × Counts n m 0 0 0
  unfolding forward_late
  forward_late-Counts fb (false, b) n = (refl, (omega arith, omega arith, omega arith))
  forward_late-Counts fb (true, b) n = (refl, (omega arith, omega arith, omega arith))

  -- What an event does to the decisions: a keep marks its trace, up to the window after its own time, and only where
  -- the trace is new is it counted for its origin.
  abbrev pub Decides : EventKind → FragBuf → Node B → Node B → Type 0
  Decides ev_keep c n m =
      let r = list_mark c.id (c.at +ℤ window) (live_entries n.dec) in
      (live_entries m.dec ≡ r.1) × CountsKeep c.origin r.0 n m
  Decides ev_frag c n m = (live_entries m.dec ≡ live_entries n.dec) × Counts n m 0 0 0
  Decides ev_retry c n m = (live_entries m.dec ≡ live_entries n.dec) × Counts n m 0 0 0

  handle_kind-Decides :
      (now : ℤ) (kind : EventKind) (fb : FragBuf) (n : Node B)
      → IsIntact n.dec
      → issued n.dec + 1 < 2 ^ 64 - 2
      → HasCounts n
      → Decides kind (clamp_at now fb) n (handle_kind disk window fallback kind now fb n)
  unfolding handle_kind append_fragment keep count_clamped
  handle_kind-Decides now ev_frag fb n intact small h =
      let c = clamp_at now fb in
      let (same, counts) =
        forward_late-Counts c (disk.append c.id c.data_bytes c.at n.buf) (count_clamped now fb n) in
      (ap live_entries same, counts)
  handle_kind-Decides now ev_keep fb n intact small h =
      let c = clamp_at now fb in
      let r = mark n.dec c.id (c.at +ℤ window) in
      let (_, like, _) = mark_lem n.dec c.id (c.at +ℤ window) intact small in
      let (same, counts) = decided-CountsKeep c r (count_clamped now fb n) h in
      (
        ap live_entries same ∙ ap (λ p. p.1) like,
        subst
            (λ b.
              CountsKeep c.origin b n (decided disk window fallback c r (count_clamped now fb n)))
            (ap (λ p. p.0) like) counts,
      )
  handle_kind-Decides now ev_retry fb n intact small h =
      (refl, (omega arith, omega arith, omega arith))

  -- While the decided set is intact and no counter is at its end: a keep marks the trace of the event in the list of
  -- the live entries, with its time, not later than now, and the window as the deadline; it is counted once,
  -- as local, baseline included, or as from the bus where the trace was not in the list, and as a duplicate where it
  -- was. A fragment or a retry leaves the live entries and these counters as they are.
  pub handle-Decides :
      (now : ℤ) (fb : FragBuf) (n : Node B)
      → IsIntact n.dec
      → issued n.dec + 1 < 2 ^ 64 - 2
      → HasCounts n
      → Decides fb.kind (clamp_at now fb) n (handle disk window fallback now fb n)
  unfolding handle
  handle-Decides now fb n intact small h = handle_kind-Decides now fb.kind fb n intact small h
