-- ===== src/Shards/Worker/Tick.antt =====
-- internal/shards/worker.go: tick and reportDisk.
use retrosampler.Prelude.{
  ℕ, zero, suc, ◌+◌, ◌%◌, ◌^◌, List, [], ◌∷◌, Option, none, some, if◌then◌else◌,
}
use retrosampler.Prelude.Ints.{ℤ, pos, ltb_ℤ, ◌+ℤ◌, ◌-ℤ◌}
use retrosampler.Shards.Decided.Defs.{evict, live_len}
use retrosampler.Shards.Pending.Defs.{sweep_pending, drain_pending}
use retrosampler.Shards.Queues.Defs.{FloorCause, floor_clear, floor_protected, nothing_reclaimable}
use retrosampler.Shards.Worker.Defs.{Disk, Node}

unfoldable pub report_disk {ℓ} : {B : Type ℓ} → Disk B → Node B → Node B
report_disk disk n =
    let cur = disk.disk_bytes n.buf in
    record n { disk_total = n.disk_total +ℤ (cur -ℤ n.last_disk_bytes); last_disk_bytes = cur }

-- One turn of the loop on the watermark: it breaks with a cause, leaves as the condition fails, or goes on.
pub data Round {ℓ} (B : Type ℓ) : Type ℓ where
  halt : FloorCause → Node B → Round B
  again : Node B → Round B

-- What the load of the Set's total sees.
unfoldable pub load_total {ℓ} : {B : Type ℓ} → List ℤ → Node B → Node B
load_total [] n = n
load_total (delta ∷ rest) n = record n { disk_total = n.disk_total +ℤ delta; others = rest }

module _ {ℓ} {B : Type ℓ} (disk : Disk B) where
  unfoldable pub sacrificed : Option ℤ × B → Node B → Round B
  sacrificed (none, b) n = halt nothing_reclaimable (record n { buf = b })
  sacrificed (some freed, b) n = again (record n {
    buf = b;
    disk_total = n.disk_total -ℤ freed;
    last_disk_bytes = n.last_disk_bytes -ℤ freed;
    early_expired = (n.early_expired + 1) % 2 ^ 64;
  })

  -- `cutoff` is floorCutoff.
  unfoldable pub sacrifice_next : ℤ → Option ℤ → Node B → Round B
  unfolding sacrificed
  sacrifice_next cutoff none n = halt nothing_reclaimable n
  sacrifice_next cutoff (some t_max) n =
      if ltb_ℤ t_max cutoff then sacrificed (disk.expire_oldest n.buf) n else halt floor_protected n

  unfoldable pub round : ℤ → ℤ → Node B → Round B
  unfolding sacrifice_next load_total
  round limit cutoff n =
      let m = load_total n.others n in
      if ltb_ℤ limit m.disk_total
      then sacrifice_next cutoff (disk.oldest m.buf) m
      else halt floor_clear m

  -- The loop, on fuel: none where it runs out.
  unfoldable pub sacrifice : ℤ → ℤ → ℕ → Round B → Option FloorCause × Node B
  unfolding round
  sacrifice limit cutoff fuel (halt cause n) = (some cause, n)
  sacrifice limit cutoff zero (again n) = (none, n)
  sacrifice limit cutoff (suc fuel) (again n) = sacrifice limit cutoff fuel (round limit cutoff n)

  unfoldable pub store_cause : Option FloorCause × Node B → Node B
  store_cause (none, n) = n
  store_cause (some cause, n) = record n { at_floor = cause }

  unfoldable pub window_of : ℤ → ℤ → Option ℤ → ℤ
  window_of window now none = window
  window_of window now (some t_max) =
      let age = now -ℤ t_max in
      let w = if ltb_ℤ age (pos 0) then pos 0 else age in if ltb_ℤ window w then window else w

  -- The first half of tick: expiry, the decided set, the parked intents, and the report.
  unfoldable pub expire_all : ℤ → ℤ → Node B → Node B
  unfolding report_disk
  expire_all now fallback n =
      let e = disk.expire now n.buf in
      let d = (evict now n.dec).1 in
      report_disk disk (record n {
        buf = e.1;
        expired_bytes = n.expired_bytes +ℤ e.0;
        dec = d;
        decided_len = live_len d;
        pending = drain_pending (disk.collect e.1) fallback (sweep_pending now n.pending);
      })

  unfoldable pub tick : ℤ → ℤ → ℤ → ℤ → ℤ → Node B → Node B
  unfolding expire_all sacrifice store_cause window_of
  tick window window_floor limit now fallback n =
      let n1 = expire_all now fallback n in
      let n2 =
        store_cause (sacrifice limit (now -ℤ window_floor) (disk.segments n1.buf + 1) (again n1)) in
      record n2 { eff_window = window_of window now (disk.oldest n2.buf) }
