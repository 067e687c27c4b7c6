-- ===== src/Shards/Pending/Handoff.antt =====
-- internal/shards/worker.go: collectAndSend and sendJob keep every parked intent in the queue.
use mathlib.Core.Path.{subst}
use retrosampler.Prelude.{ℕ, ◌+◌, ◌%◌, ◌^◌, sym, arith, [], drop}
use retrosampler.Prelude.Bytes.{Bytes}
use retrosampler.Prelude.Ints.{ℤ}
use retrosampler.Shards.Pending.Defs.{
  Need, Shard, FlushJob, Collected, SendOutcome, sent_ok, send_full, collect_err, nothing_owed,
  collect_once, park_owed, collect_and_send, park_refused, send_job,
}
use retrosampler.Shards.Pending.Queue.{Covers, IsQueued, park-IsQueued}
use retrosampler.Shards.Pending.Drain.{SameQueue, try_send-SameQueue, send_collected-SameQueue}

SameQueue-IsQueued : (a b : Shard) → SameQueue a b → IsQueued b → IsQueued a
SameQueue-IsQueued a b same h = record {
  head_in = ground (arith, h.head_in, same.head, same.pendq);
  covers =
      subst (λ pend. Covers pend (drop a.pendq_head a.pendq)) (sym same.pend)
        (subst (λ q. Covers b.pend (drop a.pendq_head q)) (sym same.pendq)
          (subst (λ n. Covers b.pend (drop n b.pendq)) (sym same.head) h.covers));
}

module _ (collect : Bytes → Collected) (fallback : ℤ) where
  park_owed-IsQueued :
      (id : Bytes) (reason : ℕ) (need : Need) (deadline : ℤ) (outcome : SendOutcome) (sh : Shard)
      → IsQueued sh
      → IsQueued (park_owed collect fallback id reason need deadline outcome sh)
  unfolding park_owed
  park_owed-IsQueued id reason need deadline send_full sh h =
      park-IsQueued fallback sh id reason need deadline h
  park_owed-IsQueued id reason need deadline collect_err sh h =
      park-IsQueued fallback sh id reason need deadline h
  park_owed-IsQueued id reason need deadline sent_ok sh h = h
  park_owed-IsQueued id reason need deadline nothing_owed sh h = h

  pub collect_and_send-IsQueued :
      (sh : Shard) (id : Bytes) (reason : ℕ) (need : Need) (deadline : ℤ)
      → IsQueued sh
      → IsQueued (collect_and_send collect fallback sh id reason need deadline)
  unfolding collect_and_send collect_once
  collect_and_send-IsQueued sh id reason need deadline h =
      let c = collect id in
      let counted : Shard = record sh {
        corrupt_fragments = (sh.corrupt_fragments + c.skipped) % 2 ^ 64;
      } in
      let same =
        send_collected-SameQueue
          (record { id = id; reason = reason; need = need; frags = []; deadline = deadline })
          c.frags counted in
      park_owed-IsQueued id reason need deadline _ _
        (SameQueue-IsQueued _ counted same (record { head_in = h.head_in; covers = h.covers }))

  park_refused-IsQueued :
      (j : FlushJob) (outcome : SendOutcome) (sh : Shard)
      → IsQueued sh
      → IsQueued (park_refused collect fallback j outcome sh)
  unfolding park_refused
  park_refused-IsQueued j send_full sh h =
      park-IsQueued fallback sh j.id j.reason j.need j.deadline h
  park_refused-IsQueued j collect_err sh h = h
  park_refused-IsQueued j sent_ok sh h = h
  park_refused-IsQueued j nothing_owed sh h = h

  pub send_job-IsQueued :
      (sh : Shard) (j : FlushJob) → IsQueued sh → IsQueued (send_job collect fallback sh j)
  unfolding send_job
  send_job-IsQueued sh j h =
      park_refused-IsQueued j _ _ (SameQueue-IsQueued _ sh (try_send-SameQueue j sh.takes sh) h)
