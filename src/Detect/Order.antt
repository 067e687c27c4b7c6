-- ===== src/Detect/Order.antt =====
-- internal/detect: which verdict the chain gives.
use retrosampler.Prelude.{ℕ, ◌-◌, ◌/◌, ◌≡◌, refl, ap, arith, Bool, true, false, List, [], ◌∷◌}
use retrosampler.Prelude.{◌&&◌, ◌||◌, ltb, leb, ◌==◌, if◌then◌else◌}
use retrosampler.Prelude.Ints.{ℤ, pos, negsuc, ltb_ℤ, ◌-ℤ◌}
use retrosampler.Fragmenter.Span.{Span}
use retrosampler.Fragmenter.Group.{ScopeSpans, ResourceSpans}
use retrosampler.Detect.Millis.{Millis, absent, value, malformed, read_millis}
use retrosampler.Detect.Policies.{CompiledPolicy, run_policies, is_match}
use retrosampler.Detect.Chain.{
  Detector, hit, is_error, is_positive, is_malformed, is_negative, clamp_elapsed, clamp_age,
  exceeds, note_malformed, baggage_verdict, clamp_skew,
}
use retrosampler.Detect.Counters.{eval_baggage-Untouched}
use retrosampler.Detect.Chain.{eval_baggage, eval_policies, eval_tail, eval, threshold_millis}

-- A quantity that was read is over a limit that is set.
abbrev pub over : Millis → ℤ → Bool
over absent limit = false
over malformed limit = false
over (value v) limit = is_positive limit && ltb_ℤ limit v

-- The age in milliseconds of a trace that began at the T0 that was read.
abbrev pub age_of : ℤ → Millis → Millis
age_of now absent = absent
age_of now malformed = malformed
age_of now (value t0) = value (now -ℤ t0)

abbrev pub any_match : ResourceSpans → ScopeSpans → Span → List CompiledPolicy → Bool
any_match rs ss sp [] = false
any_match rs ss sp (p ∷ ps) = is_match (p.cond rs ss sp) || any_match rs ss sp ps

abbrev pub too_long : Detector → Span → Bool
too_long d sp =
    ltb 0 d.span_latency_ns
    && (leb sp.start_timestamp sp.end_timestamp
        && ltb d.span_latency_ns (sp.end_timestamp - sp.start_timestamp))

-- The verdict as a list of conditions, the strongest first.
abbrev pub verdict : Detector → ResourceSpans → ScopeSpans → Span → ℤ → ℕ
verdict d rs ss sp now =
    if d.keep_on_error && is_error sp
    then 1
    else if too_long d sp
    then 2
    else if d.read_baggage && over (read_millis sp.attributes d.elapsed_key) d.trace_lat_ms
    then 3
    else if d.read_baggage && over (age_of now (read_millis sp.attributes d.t0_key)) d.trace_age_ms
    then 4
    else if any_match rs ss sp d.policies
    then 5
    else 0

run_policies-any_match :
    (rs : ResourceSpans) (ss : ScopeSpans) (sp : Span) (ps : List CompiledPolicy)
    → (run_policies rs ss sp ps).0 ≡ any_match rs ss sp ps
unfolding run_policies
run_policies-any_match rs ss sp [] = refl
run_policies-any_match rs ss sp (p ∷ ps) = ground (arith, run_policies-any_match rs ss sp ps)

exceeds-elapsed :
    (d : Detector) (m : Millis) (limit : ℤ) → exceeds (clamp_elapsed d m).0 limit ≡ over m limit
unfolding exceeds clamp_elapsed
exceeds-elapsed d absent limit = refl
exceeds-elapsed d malformed limit = refl
exceeds-elapsed d (value (pos v)) limit = ground arith
exceeds-elapsed d (value (negsuc v)) limit = ground arith

exceeds-clamp :
    (v limit : ℤ)
    → (is_positive limit && ltb_ℤ limit (if is_negative v then pos 0 else v))
      ≡ (is_positive limit && ltb_ℤ limit v)
exceeds-clamp (pos v) limit = ground arith
exceeds-clamp (negsuc v) limit = ground arith

exceeds-age :
    (now : ℤ) (d : Detector) (m : Millis) (limit : ℤ)
    → exceeds (clamp_age now d m).0 limit ≡ over (age_of now m) limit
unfolding exceeds clamp_age
exceeds-age now d absent limit = refl
exceeds-age now d malformed limit = refl
exceeds-age now d (value t0) limit = exceeds-clamp (now -ℤ t0) limit

eval_baggage-over :
    (d : Detector) (sp : Span) (now : ℤ)
    → (eval_baggage d sp now).0 ≡ (
        if over (read_millis sp.attributes d.elapsed_key) d.trace_lat_ms
        then 3
        else if over (age_of now (read_millis sp.attributes d.t0_key)) d.trace_age_ms
        then 4
        else 0)
eval_baggage-over d sp now =
    let elapsed = read_millis sp.attributes d.elapsed_key in
    let t0 = read_millis sp.attributes d.t0_key in
    let d1 = note_malformed (is_malformed elapsed || is_malformed t0) d in
    unfold eval_baggage baggage_verdict in
    rw (
      exceeds-elapsed d1 elapsed d.trace_lat_ms,
      exceeds-age now (clamp_elapsed d1 elapsed).1 t0 d.trace_age_ms,
    )

module _ (rs : ResourceSpans) (ss : ScopeSpans) (sp : Span) (now : ℤ) where
  -- The verdict of the part of the chain behind the span's own latency.
  abbrev tail_verdict : Detector → ℕ
  tail_verdict d =
      if d.read_baggage && over (read_millis sp.attributes d.elapsed_key) d.trace_lat_ms
      then 3
      else if d.read_baggage
          && over (age_of now (read_millis sp.attributes d.t0_key)) d.trace_age_ms
      then 4
      else if any_match rs ss sp d.policies
      then 5
      else 0

  eval_policies-any_match :
      (d : Detector)
      → (eval_policies d rs ss sp).0 ≡ (if any_match rs ss sp d.policies then 5 else 0)
  unfolding eval_policies hit
  eval_policies-any_match d = ground (arith, run_policies-any_match rs ss sp d.policies)

  eval_tail-verdict : (d : Detector) → (eval_tail d rs ss sp now).0 ≡ tail_verdict d
  unfolding eval_tail hit
  eval_tail-verdict d = ground (
    arith,
    eval_baggage-over d sp now,
    eval_policies-any_match d,
    eval_policies-any_match (eval_baggage d sp now).1,
    ap (any_match rs ss sp) (eval_baggage-Untouched d sp now).policies,
  )

  -- The verdict of Eval is that of the first condition in the order error, span latency, trace latency,
  -- trace age, policy that holds, and 0 where none does. A clamp of a negative duration never changes it.
  pub eval-verdict : (d : Detector) → (eval d rs ss sp now).0 ≡ verdict d rs ss sp now
  unfolding eval hit
  eval-verdict d = ground (arith, eval_tail-verdict d, eval_tail-verdict (clamp_skew true d))

-- A threshold that is set stays set: below a millisecond it counts as one, otherwise it is rounded down.
pub threshold_millis_lem :
    (n : ℕ)
    → threshold_millis (pos n)
      ≡ pos (if n == 0 then 0 else if ltb n 1000000 then 1 else n / 1000000)
unfolding threshold_millis
threshold_millis_lem n = ground arith
