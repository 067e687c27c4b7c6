-- ===== src/Shards/Queues/Invariant.antt =====
-- internal/shards/shards.go: what holds of the Set between any two steps.
use mathlib.Core.Path.{subst}
use native.Mathlib.Decide.{ℕ_discrete}
use retrosampler.Prelude.{ℕ, ◌+◌, ◌<◌, ◌≡◌, ◌≢◌, refl, sym, ◌∙◌, arith, Bool, true, false}
use retrosampler.Prelude.{
  ◌==◌, length, set_at, get_or-set_at, length-set_at, weight, count, count-set_at,
}
use retrosampler.Shards.Queues.Defs.{
  Lane, new_lane, Phase, idle, counted, admitted, cleared, holding, finished, SetState, lane_at,
  phase_at,
}
use retrosampler.Shards.Queues.Steps.{set_phase, set_lane}
use retrosampler.Shards.Queues.Lanes.{IsLane}

-- The sender's token is counted.
abbrev pub is_inside : Phase → Bool
is_inside idle = false
is_inside (counted r) = true
is_inside (admitted r) = true
is_inside (cleared r) = true
is_inside (holding i fb) = true
is_inside (finished b) = true

-- The sender has read intake as on, and has not yet sent.
abbrev pub is_past : Phase → Bool
is_past idle = false
is_past (counted r) = false
is_past (admitted r) = true
is_past (cleared r) = true
is_past (holding i fb) = true
is_past (finished b) = false

-- The sender holds a buffer of lane `i`.
abbrev pub holds : ℕ → Phase → Bool
holds i idle = false
holds i (counted r) = false
holds i (admitted r) = false
holds i (cleared r) = false
holds i (holding j fb) = i == j
holds i (finished b) = false

pub record Inv (s : SetState) : Type 0 where
  pub tokens : s.inflight ≡ count is_inside s.senders
  pub quiet : s.stop ≡ true → (s.intake ≡ false) × (count is_past s.senders ≡ 0)
  pub lanes : (i : ℕ) → i < length s.lanes → IsLane s.stop (count (holds i) s.senders) (lane_at s i)

pub is_past_inside : (p : Phase) → is_past p ≡ true → is_inside p ≡ true
is_past_inside idle e = cc
is_past_inside (counted r) e = refl
is_past_inside (admitted r) e = refl
is_past_inside (cleared r) e = refl
is_past_inside (holding i fb) e = refl
is_past_inside (finished b) e = refl

-- A count of senders after one of them has moved on.
module _ (s : SetState) (k : ℕ) (lt : k < length s.senders) (p : Phase) where
  pub moved :
      (test : Phase → Bool)
      → count test (set_at k p s.senders) + weight test (phase_at s k)
        ≡ count test s.senders + weight test p
  moved test = count-set_at test idle p s.senders k lt

  moved_same :
      (test : Phase → Bool)
      → test p ≡ test (phase_at s k)
      → count test s.senders ≡ count test (set_at k p s.senders)
  moved_same test e = ground (arith, moved test, e)

  -- Past the check of intake, senders only become fewer once stop is closed.
  moved_past :
      Inv s
      → (s.stop ≡ true → is_past p ≡ false)
      → s.stop ≡ true
      → (s.intake ≡ false) × (count is_past (set_at k p s.senders) ≡ 0)
  moved_past inv out e =
      let (off, none_past) = inv.quiet e in (off, ground (arith, moved is_past, none_past, out e))

  -- A sender that holds no buffer before and after.
  pub moved-Inv :
      (n a b c : ℕ)
      → Inv s
      → ((i : ℕ) → holds i p ≡ holds i (phase_at s k))
      → n + weight is_inside (phase_at s k) ≡ s.inflight + weight is_inside p
      → (s.stop ≡ true → is_past p ≡ false)
      → Inv (record s {
        senders = set_at k p s.senders;
        inflight = n;
        shed_queue_full = a;
        shed_floor_protected = b;
        shed_nothing_reclaimable = c;
      })
  moved-Inv n a b c inv same token out = record {
    tokens = omega (arith, inv.tokens, token, moved is_inside);
    quiet = moved_past inv out;
    lanes = λ i i_lt.
        subst (λ h. IsLane s.stop h (lane_at s i)) (moved_same (holds i) (same i))
          (inv.lanes i i_lt);
  }

  -- A sender that takes a buffer of lane `i`, or sends it.
  pub handed-Inv :
      (i : ℕ) (l : Lane)
      → Inv s
      → i < length s.lanes
      → ((j : ℕ) → i ≢ j → holds j p ≡ holds j (phase_at s k))
      → is_inside p ≡ is_inside (phase_at s k)
      → (s.stop ≡ true → is_past p ≡ false)
      → IsLane s.stop (count (holds i) (set_at k p s.senders)) l
      → Inv (set_phase k p (set_lane i l s))
  handed-Inv i l inv i_lt others inside out lane = record {
    tokens = inv.tokens ∙ moved_same is_inside inside;
    quiet = moved_past inv out;
    lanes = λ j j_lt.
        let set = get_or-set_at new_lane l s.lanes i j i_lt in
        elim (ℕ_discrete i j) [
          | yes here ↦
              subst (λ x. IsLane s.stop (count (holds j) (set_at k p s.senders)) x)
                (sym (ground (arith, set, here)))
                (subst (λ n. IsLane s.stop (count (holds n) (set_at k p s.senders)) l) here lane)
          | no apart ↦
              subst (λ x. IsLane s.stop (count (holds j) (set_at k p s.senders)) x)
                (sym (ground (arith, set, apart)))
                (subst (λ h. IsLane s.stop h (lane_at s j)) (moved_same (holds j) (others j apart))
                  (inv.lanes j (omega (arith, j_lt, length-set_at i l s.lanes))))
        ];
  }
