-- ===== src/Detect/Counters.antt =====
-- internal/detect: which counters the chain moves.
use retrosampler.Prelude.{ℕ, ◌-◌, ◌<◌, ◌≡◌, refl, ◌∙◌, arith, Bool, true, false}
use retrosampler.Prelude.{Option, none, some, ◌&&◌, ◌||◌, ltb, ◌==◌, if◌then◌else◌}
use retrosampler.Prelude.Ints.{ℤ}
use retrosampler.Fragmenter.Span.{Span}
use retrosampler.Fragmenter.Group.{ScopeSpans, ResourceSpans}
use retrosampler.Detect.Millis.{Millis, absent, value, malformed, read_millis}
use retrosampler.Detect.Policies.{add_one, run_policies}
use retrosampler.Detect.Chain.{
  Detector, hit, is_error, is_malformed, clamp_elapsed, clamp_age, store_divergence, note_malformed,
  clamp_skew,
}
use retrosampler.Detect.Chain.{eval_baggage, eval_policies, eval_tail, eval_latency, eval}

-- The counters of verdicts and the policies that a detector carries are left alone by a step.
pub record Untouched (d d' : Detector) : Type 0 where
  pub detected : d'.detected ≡ d.detected
  pub policies : d'.policies ≡ d.policies

clamp_elapsed-Untouched : (d : Detector) (m : Millis) → Untouched d (clamp_elapsed d m).1
unfolding clamp_elapsed
clamp_elapsed-Untouched d absent = record { detected = refl; policies = refl }
clamp_elapsed-Untouched d malformed = record { detected = refl; policies = refl }
clamp_elapsed-Untouched d (value v) = record { detected = refl; policies = refl }

clamp_age-Untouched : (now : ℤ) (d : Detector) (m : Millis) → Untouched d (clamp_age now d m).1
unfolding clamp_age
clamp_age-Untouched now d absent = record { detected = refl; policies = refl }
clamp_age-Untouched now d malformed = record { detected = refl; policies = refl }
clamp_age-Untouched now d (value v) = record { detected = refl; policies = refl }

store_divergence-Untouched : (e a : Option ℤ) (d : Detector) → Untouched d (store_divergence e a d)
unfolding store_divergence
store_divergence-Untouched none a d = record { detected = refl; policies = refl }
store_divergence-Untouched (some e) none d = record { detected = refl; policies = refl }
store_divergence-Untouched (some e) (some a) d = record { detected = refl; policies = refl }

Untouched-trans : (a b c : Detector) → Untouched a b → Untouched b c → Untouched a c
Untouched-trans a b c h k = record {
  detected = k.detected ∙ h.detected;
  policies = k.policies ∙ h.policies;
}

note_malformed-Untouched : (bad : Bool) (d : Detector) → Untouched d (note_malformed bad d)
unfolding note_malformed
note_malformed-Untouched bad d = record { detected = refl; policies = refl }

pub eval_baggage-Untouched :
    (d : Detector) (sp : Span) (now : ℤ) → Untouched d (eval_baggage d sp now).1
unfolding eval_baggage
eval_baggage-Untouched d sp now =
    let elapsed = read_millis sp.attributes d.elapsed_key in
    let t0 = read_millis sp.attributes d.t0_key in
    let bad = is_malformed elapsed || is_malformed t0 in
    let d1 = note_malformed bad d in
    let e = clamp_elapsed d1 elapsed in
    let a = clamp_age now (e.1) t0 in
    Untouched-trans d d1 _ (note_malformed-Untouched bad d) (
      Untouched-trans d1 (e.1) _ (clamp_elapsed-Untouched d1 elapsed) (
        Untouched-trans (e.1) (a.1) _ (clamp_age-Untouched now (e.1) t0)
          (store_divergence-Untouched (e.0) (a.0) (a.1))))

-- How often each verdict is counted after a step from `d`: its own once more.
abbrev Counted : Detector → ℕ × Detector → Type 0
Counted d p =
    (k : ℕ) → 0 < k → p.1.detected k ≡ (if k == p.0 then add_one (d.detected k) else d.detected k)

Counted-if :
    (d : Detector) (b : Bool) (p q : ℕ × Detector)
    → Counted d p
    → Counted d q
    → Counted d (if b then p else q)
Counted-if d true p q hp hq = hp
Counted-if d false p q hp hq = hq

Counted-same :
    (d d' : Detector) (p : ℕ × Detector) → d'.detected ≡ d.detected → Counted d' p → Counted d p
Counted-same d d' p e h k nonzero = rw (← e) (h k nonzero)

Counted-hit : (d : Detector) (r : ℕ) → Counted d (hit d r)
unfolding hit
Counted-hit d r k h = refl

Counted-none : (d : Detector) → Counted d (0, d)
Counted-none d k h = ground arith

module _ (rs : ResourceSpans) (ss : ScopeSpans) (sp : Span) (now : ℤ) where
  Counted-eval_policies : (d : Detector) → Counted d (eval_policies d rs ss sp)
  unfolding eval_policies
  Counted-eval_policies d =
      let d1 : Detector = record d { policies = (run_policies rs ss sp d.policies).1 } in
      Counted-if d (run_policies rs ss sp d.policies).0 _ _
        (Counted-same d d1 (hit d1 5) refl (Counted-hit d1 5))
        (Counted-same d d1 (0, d1) refl (Counted-none d1))

  Counted-eval_tail : (d : Detector) → Counted d (eval_tail d rs ss sp now)
  unfolding eval_tail
  Counted-eval_tail d =
      let b = eval_baggage d sp now in
      let same = (eval_baggage-Untouched d sp now).detected in
      let later = eval_policies (b.1) rs ss sp in
      let found = hit (b.1) (b.0) in
      Counted-if d d.read_baggage (if b.0 == 0 then later else found) (eval_policies d rs ss sp)
        (Counted-if d (b.0 == 0) later found
          (Counted-same d (b.1) later same (Counted-eval_policies (b.1)))
          (Counted-same d (b.1) found same (Counted-hit (b.1) (b.0))))
        (Counted-eval_policies d)

  Counted-eval_latency : (d : Detector) → Counted d (eval_latency d rs ss sp now)
  unfolding eval_latency
  Counted-eval_latency d =
      let d1 = clamp_skew true d in
      Counted-if d (ltb 0 d.span_latency_ns) _ _
        (Counted-if d (ltb sp.end_timestamp sp.start_timestamp) _ _
          (Counted-same d d1 (eval_tail d1 rs ss sp now) refl (Counted-eval_tail d1))
          (Counted-if d (ltb d.span_latency_ns (sp.end_timestamp - sp.start_timestamp)) _ _
            (Counted-hit d 2) (Counted-eval_tail d)))
        (Counted-eval_tail d)

  -- A verdict moves its own counter by one, and no other; no verdict moves none.
  pub eval-detected :
      (d : Detector) (k : ℕ)
      → 0 < k
      → let (r, d') = eval d rs ss sp now in
        d'.detected k ≡ (if k == r then add_one (d.detected k) else d.detected k)
  unfolding eval
  eval-detected d =
      Counted-if d (d.keep_on_error && is_error sp) _ _ (Counted-hit d 1) (Counted-eval_latency d)
