-- ===== src/Shards/Worker/Defs.antt =====
-- internal/shards/worker.go: handle, and what it calls. The buffer is an interface, Disk. A Node is a shard as
-- its worker sees it, with the counters of the Set that the worker moves.
use retrosampler.Prelude.{ℕ, ◌+◌, ◌%◌, ◌^◌, Bool, true, false, List, [], ◌∷◌, Option, if◌then◌else◌}
use retrosampler.Prelude.Bytes.{Bytes}
use retrosampler.Prelude.Ints.{ℤ, pos, ltb_ℤ, ◌+ℤ◌}
use retrosampler.Shards.Decided.Defs.{DecidedSet, mark, has}
use retrosampler.Shards.Pending.Defs.{
  Need, FlushJob, Collected, Shard, park, collect_and_send, send_job,
}
use retrosampler.Shards.Queues.Defs.{
  EventKind, ev_frag, ev_keep, ev_retry, Origin, origin_local, origin_bus, origin_baseline,
  FloorCause, FragBuf,
}

-- The buffer of a shard. `append` says whether it succeeded, `expire` and `expire_oldest` what they freed,
-- `oldest` the newest time of the oldest finalized segment, and `segments` counts the finalized ones.
pub record Disk {ℓ} (B : Type ℓ) : Type ℓ where
  pub append : Bytes → Bytes → ℤ → B → Bool × B
  pub collect : B → Bytes → Collected
  pub expire : ℤ → B → ℤ × B
  pub oldest : B → Option ℤ
  pub expire_oldest : B → Option ℤ × B
  pub disk_bytes : B → ℤ
  pub segments : B → ℕ

-- `others` is what the other workers add to the Set's total before each time that this one loads it.
pub record Node {ℓ} (B : Type ℓ) : Type ℓ where
  pub buf : B
  pub dec : DecidedSet
  pub pending : Shard
  pub decided_len : ℕ
  pub at_floor : FloorCause
  pub eff_window : ℤ
  pub last_disk_bytes : ℤ
  pub disk_total : ℤ
  pub others : List ℤ
  pub append_errors : ℕ
  pub early_expired : ℕ
  pub kept_local : ℕ
  pub kept_bus : ℕ
  pub duplicate_keeps : ℕ
  pub flush_retries : ℕ
  pub clamped_stamps : ℕ
  pub expired_bytes : ℤ

abbrev pub need_flush : Need
need_flush = record { publish = false; flush = true }

-- NeedFlush, and NeedPublish for a local keep.
unfoldable pub need_of : Origin → Need
need_of origin_local = record { publish = true; flush = true }
need_of origin_bus = need_flush
need_of origin_baseline = need_flush

-- `now` is the clock at clampAt.
unfoldable pub clamp_at : ℤ → FragBuf → FragBuf
clamp_at now fb = if ltb_ℤ now fb.at then record fb { at = now } else fb

unfoldable pub count_clamped {ℓ} : {B : Type ℓ} → ℤ → FragBuf → Node B → Node B
count_clamped now fb n = record n {
  clamped_stamps = if ltb_ℤ now fb.at then (n.clamped_stamps + 1) % 2 ^ 64 else n.clamped_stamps;
}

unfoldable pub count_kept {ℓ} : {B : Type ℓ} → Origin → Node B → Node B
count_kept origin_local n = record n { kept_local = (n.kept_local + 1) % 2 ^ 64 }
count_kept origin_bus n = record n { kept_bus = (n.kept_bus + 1) % 2 ^ 64 }
count_kept origin_baseline n = record n { kept_local = (n.kept_local + 1) % 2 ^ 64 }

-- `window` is W; `fallback` is the clock at a park, and W.
module _ {ℓ} {B : Type ℓ} (disk : Disk B) (window fallback : ℤ) where
  -- After the append.
  unfoldable pub forward_late : FragBuf → Bool × B → Node B → Node B
  forward_late fb (false, b) n = record n {
    buf = b;
    append_errors = (n.append_errors + 1) % 2 ^ 64;
  }
  forward_late fb (true, b) n =
      let job : FlushJob = record {
        id = fb.id;
        reason = 0;
        need = need_flush;
        frags = fb.data_bytes ∷ [];
        deadline = pos 0;
      } in
      record n {
        buf = b;
        pending =
            if has n.dec fb.id then send_job (disk.collect b) fallback n.pending job else n.pending;
      }

  unfoldable pub append_fragment : FragBuf → Node B → Node B
  unfolding forward_late
  append_fragment fb n = forward_late fb (disk.append fb.id fb.data_bytes fb.at n.buf) n

  -- After the mark.
  unfoldable pub decided : FragBuf → Bool × DecidedSet → Node B → Node B
  unfolding count_kept
  decided fb (false, d) n = record n { dec = d; duplicate_keeps = (n.duplicate_keeps + 1) % 2 ^ 64 }
  decided fb (true, d) n =
      let n1 = count_kept fb.origin n in
      record n1 {
        dec = d;
        pending =
            collect_and_send (disk.collect n1.buf) fallback n1.pending fb.id fb.reason
              (need_of fb.origin) (fb.at +ℤ window);
      }

  unfoldable pub keep : FragBuf → Node B → Node B
  unfolding decided
  keep fb n = decided fb (mark n.dec fb.id (fb.at +ℤ window)) n

  unfoldable pub handle_kind : EventKind → ℤ → FragBuf → Node B → Node B
  unfolding append_fragment keep
  handle_kind ev_frag now fb n = append_fragment (clamp_at now fb) (count_clamped now fb n)
  handle_kind ev_keep now fb n = keep (clamp_at now fb) (count_clamped now fb n)
  handle_kind ev_retry now fb n = record n {
    flush_retries = (n.flush_retries + 1) % 2 ^ 64;
    pending = park fallback n.pending fb.id fb.reason fb.need fb.deadline;
  }

  -- Without the buffer's way back to the free ring, which is a step of the queues.
  unfoldable pub handle : ℤ → FragBuf → Node B → Node B
  unfolding handle_kind
  handle now fb n = handle_kind fb.kind now fb n
