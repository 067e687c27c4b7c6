-- ===== src/Shards/Queues/Drain.antt =====
-- internal/shards/worker.go: the drain at shutdown comes to its end.
use mathlib.Core.Path.{subst}
use retrosampler.Prelude.{ℕ, ◌<◌, ◌≡◌, refl, sym, ap, ◌∙◌, arith, List, [], ◌∷◌}
use retrosampler.Prelude.{length, get_or-set_at, length-set_at}
use retrosampler.Shards.Queues.Defs.{
  FragBuf, draining, drain_handling, done, Lane, new_lane, SetState, lane_at, receive_work,
  send_free,
}
use retrosampler.Shards.Queues.Steps.{
  Works, drain_receive, drain_recycle, drained, Step, works, set_lane, Reach, later,
}
use retrosampler.Shards.Queues.Safety.{Reach-room}
use retrosampler.Shards.Queues.Lanes.{in_hand}

-- A state that some steps lead to.
pub data Leads : SetState → SetState → Type 0 where
  already : {s : SetState} → Leads s s
  onward : {s t u : SetState} → Step s t → Leads t u → Leads s u

lane_at-set_lane :
    (s : SetState) (i : ℕ) (l : Lane) → i < length s.lanes → lane_at (set_lane i l s) i ≡ l
lane_at-set_lane s i l lt = ground (arith, get_or-set_at new_lane l s.lanes i i lt)

-- What drain comes to on lane `i`, from `s` on.
abbrev pub Drained : SetState → ℕ → Type 0
Drained s i =
    (t : SetState) × Leads s t
    × ((lane_at t i).worker ≡ done)
    × ((lane_at t i).accepted ≡ (lane_at s i).accepted)

drain_from :
    {n m : ℕ} (s : SetState) (i : ℕ) (work : List FragBuf)
    → Reach n m s
    → i < length s.lanes
    → (lane_at s i).worker ≡ draining
    → (lane_at s i).work ≡ work
    → Drained s i
unfolding receive_work send_free
drain_from s i [] reach lt at e =
    let l = lane_at s i in
    let l1 = record l { worker = done } in
    let same = lane_at-set_lane s i l1 lt in
    (
      set_lane i l1 s,
      onward (works i lt (subst (λ w. Works s.stop l w l1) (sym at) (drained e))) already,
      ap (λ x. x.worker) same,
      ap (λ x. x.accepted) same,
    )
drain_from s i (fb ∷ rest) reach lt at e =
    let l = lane_at s i in
    let l1 = receive_work fb rest (drain_handling fb) l in
    let s1 = set_lane i l1 s in
    let step1 : Step s s1 =
      works i lt (subst (λ w. Works s.stop l w l1) (sym at) (drain_receive fb rest e)) in
    let same1 = lane_at-set_lane s i l1 lt in
    let lt1 : i < length s1.lanes = omega (arith, lt, length-set_at i l1 s.lanes) in
    let room = (Reach-room i (later reach step1) lt1).1.1 fb (ap (λ x. in_hand x.worker) same1) in
    let l2 = send_free fb fb draining (lane_at s1 i) in
    let s2 = set_lane i l2 s1 in
    let step2 : Step s1 s2 = works i lt1 (
      subst (λ w. Works s1.stop (lane_at s1 i) w l2) (sym (ap (λ x. x.worker) same1))
        (drain_recycle fb fb room)) in
    let same2 = lane_at-set_lane s1 i l2 lt1 in
    let (t, path, end, kept) =
      drain_from s2 i rest (later (later reach step1) step2)
        (omega (arith, lt1, length-set_at i l2 s1.lanes)) (ap (λ x. x.worker) same2)
        (ap (λ x. x.work) same2 ∙ ap (λ x. x.work) same1) in
    (
      t,
      onward step1 (onward step2 path),
      end,
      kept ∙ ap (λ x. x.accepted) same2 ∙ ap (λ x. x.accepted) same1,
    )

-- In a Set that New has made, a worker that drains can go on until it has returned, with nothing more
-- accepted.
pub drain_lem :
    {n m : ℕ} (s : SetState) (i : ℕ)
    → Reach n m s
    → i < length s.lanes
    → (lane_at s i).worker ≡ draining
    → Drained s i
drain_lem s i reach lt at = drain_from s i (lane_at s i).work reach lt at refl
