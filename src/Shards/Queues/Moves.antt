-- ===== src/Shards/Queues/Moves.antt =====
-- internal/shards/shards.go and worker.go: each step keeps the invariant of the Set.
use mathlib.Core.Path.{subst}
use native.Mathlib.Decide.{ℕ_discrete}
use retrosampler.Prelude.{
  ℕ, ◌+◌, ◌-◌, ◌<◌, ◌≤◌, ◌≡◌, refl, sym, ap, arith, Bool, true, false, List, ◌∷◌,
}
use retrosampler.Prelude.{
  Bool-cases, inl, inr, length, set_at, get_or-set_at, length-set_at, length-replicate, replicate,
  get_or-replicate, weight, count, count-replicate, count_le,
}
use retrosampler.Shards.Queues.Defs.{
  FragBuf, FloorCause, floor_clear, floor_protected, nothing_reclaimable, Request, Lane, new_lane,
  Phase, idle, counted, admitted, cleared, holding, finished, SetState, lane_at, phase_at, target,
  count_floor, fill, take_free, send_work, new_set,
}
use retrosampler.Shards.Queues.Steps.{
  Sends, enter, refuse, admit, decline, clear, take, shed, abort, send, leave, Step, sends, works,
  shut, signal, Reach, start, later, set_phase, set_lane,
}
use retrosampler.Shards.Queues.Lanes.{
  IsLane, take_free-IsLane, send_work-IsLane, Works-IsLane, new_lane-IsLane,
}
use retrosampler.Shards.Queues.Invariant.{
  Inv, is_inside, is_past, is_past_inside, holds, moved, moved-Inv, handed-Inv,
}

module _ {s : SetState} (k : ℕ) (lt : k < length s.senders) (inv : Inv s) where
  declined-Inv :
      (r : Request) (cause : FloorCause)
      → admitted r ≡ phase_at s k
      → Inv (set_phase k (finished false) (count_floor cause s))
  unfolding count_floor
  declined-Inv r floor_clear at =
      moved-Inv s k lt (finished false) s.inflight _ _ _ inv (λ i. ap (holds i) at)
        (omega (arith, ap (weight is_inside) at)) (λ e. refl)
  declined-Inv r floor_protected at =
      moved-Inv s k lt (finished false) s.inflight _ _ _ inv (λ i. ap (holds i) at)
        (omega (arith, ap (weight is_inside) at)) (λ e. refl)
  declined-Inv r nothing_reclaimable at =
      moved-Inv s k lt (finished false) s.inflight _ _ _ inv (λ i. ap (holds i) at)
        (omega (arith, ap (weight is_inside) at)) (λ e. refl)

  -- A sender past the check of intake means that stop is open.
  past-open : is_past (phase_at s k) ≡ true → s.stop ≡ false
  past-open past = elim (Bool-cases s.stop) [
    | inl closed ↦ absurd (ground (arith, (inv.quiet closed).1, moved s k lt idle is_past, past))
    | inr open_still ↦ open_still
  ]

  taken-Inv :
      (r : Request) (fb : FragBuf) (rest : List FragBuf)
      → cleared r ≡ phase_at s k
      → target s r < length s.lanes
      → (lane_at s (target s r)).free ≡ fb ∷ rest
      → Inv (
          set_phase k
            (holding (target s r) (fill r fb))
            (set_lane (target s r) (take_free rest (lane_at s (target s r))) s))
  taken-Inv r fb rest at i_lt e =
      let i = target s r in
      let p = holding i (fill r fb) in
      let one_more : count (holds i) s.senders + 1 ≡ count (holds i) (set_at k p s.senders) =
        ground (arith, moved s k lt p (holds i), ap (weight (holds i)) at) in
      let stays = past-open (ap is_past (sym at)) in
      handed-Inv s k lt p i _ inv i_lt (λ j apart. ground (arith, apart, ap (holds j) at))
        (ap is_inside at) (λ closed. ground (arith, closed, stays))
        (subst (λ h. IsLane s.stop h (take_free rest (lane_at s i))) one_more
          (take_free-IsLane s.stop (count (holds i) s.senders) (lane_at s i) fb rest
            (inv.lanes i i_lt) e))

  sent-Inv :
      (i : ℕ) (fb : FragBuf)
      → holding i fb ≡ phase_at s k
      → i < length s.lanes
      → Inv (set_phase k (finished true) (set_lane i (send_work fb (lane_at s i)) s))
  sent-Inv i fb at i_lt =
      let p = finished true in
      let one_less : count (holds i) s.senders ≡ count (holds i) (set_at k p s.senders) + 1 =
        ground (arith, moved s k lt p (holds i), ap (weight (holds i)) at) in
      let lane = inv.lanes i i_lt in
      let stays = past-open (ap is_past (sym at)) in
      handed-Inv s k lt p i _ inv i_lt (λ j apart. ground (arith, apart, ap (holds j) at))
        (ap is_inside at) (λ e. refl)
        (send_work-IsLane s.stop _ (lane_at s i) fb
          (subst (λ h. IsLane s.stop h (lane_at s i)) one_less lane)
          (ground (arith, lane.ending, stays)))

  Sends-Inv : {p : Phase} {t : SetState} → p ≡ phase_at s k → Sends s k p t → Inv t
  Sends-Inv at (enter r) =
      moved-Inv s k lt (counted r) (s.inflight + 1) _ _ _ inv (λ i. ap (holds i) at)
        (omega (arith, ap (weight is_inside) at)) (λ e. refl)
  Sends-Inv at (refuse r off) =
      moved-Inv s k lt (finished false) s.inflight _ _ _ inv (λ i. ap (holds i) at)
        (omega (arith, ap (weight is_inside) at)) (λ e. refl)
  Sends-Inv at (admit r on) =
      moved-Inv s k lt (admitted r) s.inflight _ _ _ inv (λ i. ap (holds i) at)
        (omega (arith, ap (weight is_inside) at)) (λ e. ground (arith, on, (inv.quiet e).0))
  Sends-Inv at (decline r full) = declined-Inv r _ at
  Sends-Inv at (clear r fine) =
      moved-Inv s k lt (cleared r) s.inflight _ _ _ inv (λ i. ap (holds i) at)
        (omega (arith, ap (weight is_inside) at))
        (λ e. ground (arith, e, past-open (ap is_past (sym at))))
  Sends-Inv at (take r fb rest i_lt e) = taken-Inv r fb rest at i_lt e
  Sends-Inv at (shed r quick e) =
      moved-Inv s k lt (finished false) s.inflight _ _ _ inv (λ i. ap (holds i) at)
        (omega (arith, ap (weight is_inside) at)) (λ e. refl)
  Sends-Inv at (abort r slow) =
      moved-Inv s k lt (finished false) s.inflight _ _ _ inv (λ i. ap (holds i) at)
        (omega (arith, ap (weight is_inside) at)) (λ e. refl)
  Sends-Inv at (send i fb i_lt room) = sent-Inv i fb at i_lt
  Sends-Inv at (leave b) =
      let token : 1 ≤ s.inflight =
        ground (arith, inv.tokens, moved s k lt idle is_inside, ap (weight is_inside) at) in
      moved-Inv s k lt idle (s.inflight - 1) _ _ _ inv (λ i. ap (holds i) at)
        (omega (arith, ap (weight is_inside) at, token)) (λ e. refl)

set_lane-Inv :
    (s : SetState) (i : ℕ) (l : Lane)
    → Inv s
    → i < length s.lanes
    → IsLane s.stop (count (holds i) s.senders) l
    → Inv (set_lane i l s)
set_lane-Inv s i l inv i_lt lane = record {
  tokens = inv.tokens;
  quiet = inv.quiet;
  lanes = λ j j_lt.
      let set = get_or-set_at new_lane l s.lanes i j i_lt in
      elim (ℕ_discrete i j) [
        | yes here ↦
            subst (λ x. IsLane s.stop (count (holds j) s.senders) x)
              (sym (ground (arith, set, here)))
              (subst (λ n. IsLane s.stop (count (holds n) s.senders) l) here lane)
        | no apart ↦
            subst (λ x. IsLane s.stop (count (holds j) s.senders) x)
              (sym (ground (arith, set, apart)))
              (inv.lanes j (omega (arith, j_lt, length-set_at i l s.lanes)))
      ];
}

closed-IsLane : {stop : Bool} {held : ℕ} {l : Lane} → IsLane stop held l → IsLane true held l
closed-IsLane h = record { joint = h.joint; order = h.order; ending = λ e. refl; empty = h.empty }

pub Step-Inv : {s t : SetState} → Step s t → Inv s → Inv t
Step-Inv (sends k lt st) inv = Sends-Inv k lt inv refl st
Step-Inv {s} (works {l} i i_lt st) inv =
    set_lane-Inv s i l inv i_lt (Works-IsLane refl st (inv.lanes i i_lt))
Step-Inv shut inv = record {
  tokens = inv.tokens;
  quiet = λ e. (refl, (inv.quiet e).1);
  lanes = inv.lanes;
}
Step-Inv {s} (signal off none_left) inv = record {
  tokens = inv.tokens;
  quiet = λ e. (
    off,
    omega (arith, inv.tokens, none_left, count_le is_past is_inside is_past_inside s.senders),
  );
  lanes = λ i i_lt. closed-IsLane (inv.lanes i i_lt);
}

new_set-Inv : (n m : ℕ) → Inv (new_set n m)
unfolding new_set
new_set-Inv n m =
    let none_of : (test : Phase → Bool) → test idle ≡ false → 0 ≡ count test (replicate m idle) =
      λ test e. sym (count-replicate test m idle e) in
    record {
      tokens = none_of is_inside refl;
      quiet = λ e. cc;
      lanes = λ i lt.
          subst (λ l. IsLane false (count (holds i) (replicate m idle)) l)
            (sym (
              get_or-replicate new_lane new_lane n i
                (omega (arith, lt, length-replicate n new_lane))))
            (subst (λ h. IsLane false h new_lane) (none_of (holds i) refl) (new_lane-IsLane false));
    }

pub Reach-Inv : {n m : ℕ} {s : SetState} → Reach n m s → Inv s
Reach-Inv {n} {m} start = new_set-Inv n m
Reach-Inv (later r st) = Step-Inv st (Reach-Inv r)
