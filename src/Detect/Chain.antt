-- ===== src/Detect/Chain.antt =====
-- internal/detect/detect.go: the Detector and the chain that it runs over a span. The counters are
-- fields, and every method returns the detector with its counters moved.
use retrosampler.Prelude.{
  ℕ, suc, ◌-◌, ◌/◌, ◌%◌, ◌^◌, Bool, true, false, List, [], ◌∷◌, Option, none, some,
}
use retrosampler.Prelude.{◌&&◌, ◌||◌, ltb, ◌==◌, if◌then◌else◌, drop}
use mathlib.Core.List.{reverse}
use retrosampler.Prelude.Bytes.{Bytes, le_value}
use retrosampler.Prelude.Ints.{ℤ, pos, negsuc, ltb_ℤ, ℤ_eq, ◌-ℤ◌}
use retrosampler.Fragmenter.Span.{Span}
use retrosampler.Fragmenter.Group.{ScopeSpans, ResourceSpans}
use retrosampler.Detect.Millis.{Millis, absent, value, malformed, read_millis}
use retrosampler.Detect.Policies.{CompiledPolicy, add_one, run_policies}

abbrev pub reason_error : ℕ
reason_error = 1

abbrev pub reason_span_latency : ℕ
reason_span_latency = 2

abbrev pub reason_trace_latency : ℕ
reason_trace_latency = 3

abbrev pub reason_trace_age : ℕ
reason_trace_age = 4

abbrev pub reason_policy : ℕ
reason_policy = 5

abbrev pub reason_baseline : ℕ
reason_baseline = 6

-- ptrace.StatusCodeError of the OTLP definitions.
abbrev pub status_code_error : ℤ
status_code_error = pos 2

pub record Detector : Type 0 where
  pub keep_on_error : Bool
  pub span_latency_ns : ℕ
  pub trace_lat_ms : ℤ
  pub trace_age_ms : ℤ
  pub t0_key : Bytes
  pub elapsed_key : Bytes
  pub read_baggage : Bool
  pub baseline_threshold : ℕ
  pub policies : List CompiledPolicy
  pub detected : ℕ → ℕ
  pub skew_clamped : ℕ
  pub baggage_malformed : ℕ
  pub divergence_ms : ℤ

abbrev pub is_positive : ℤ → Bool
is_positive v = ltb_ℤ (pos 0) v

-- A time.Duration in whole milliseconds, rounded towards zero.
unfoldable pub milliseconds : ℤ → ℤ
milliseconds (pos n) = pos (n / 1000000)
milliseconds (negsuc n) = if ltb (suc n) 1000000 then pos 0 else negsuc (suc n / 1000000 - 1)

unfoldable pub threshold_millis : ℤ → ℤ
unfolding milliseconds
threshold_millis d =
    if is_positive (milliseconds d) then milliseconds d else if is_positive d then pos 1 else pos 0

unfoldable pub has_policies : List CompiledPolicy → Bool
has_policies [] = false
has_policies (p ∷ ps) = true

unfoldable pub enabled : Detector → Bool
unfolding has_policies
enabled d =
    d.keep_on_error
    || ltb 0 d.span_latency_ns
    || d.read_baggage
    || ltb 0 d.baseline_threshold
    || has_policies d.policies

-- The method `hit`.
unfoldable pub hit : Detector → ℕ → ℕ × Detector
hit d r = (r, record d { detected = λ k. if k == r then add_one (d.detected k) else d.detected k })

abbrev pub clamp_skew : Bool → Detector → Detector
clamp_skew b d = record d { skew_clamped = if b then add_one d.skew_clamped else d.skew_clamped }

abbrev pub is_malformed : Millis → Bool
is_malformed malformed = true
is_malformed absent = false
is_malformed (value v) = false

abbrev pub is_negative : ℤ → Bool
is_negative v = ltb_ℤ v (pos 0)

-- The elapsed time, clamped at 0; none where there is none to use.
unfoldable pub clamp_elapsed : Detector → Millis → Option ℤ × Detector
clamp_elapsed d (value v) =
    (some (if is_negative v then pos 0 else v), clamp_skew (is_negative v) d)
clamp_elapsed d absent = (none, d)
clamp_elapsed d malformed = (none, d)

-- The age of a trace that began at T0, `now` in milliseconds, clamped at 0.
unfoldable pub clamp_age : ℤ → Detector → Millis → Option ℤ × Detector
clamp_age now d (value t0) = (
  some (if is_negative (now -ℤ t0) then pos 0 else now -ℤ t0),
  clamp_skew (is_negative (now -ℤ t0)) d,
)
clamp_age now d absent = (none, d)
clamp_age now d malformed = (none, d)

unfoldable pub store_divergence : Option ℤ → Option ℤ → Detector → Detector
store_divergence (some elapsed) (some age) d = record d { divergence_ms = age -ℤ elapsed }
store_divergence (some elapsed) none d = d
store_divergence none age d = d

-- `threshold > 0 && ok && v > threshold`
unfoldable pub exceeds : Option ℤ → ℤ → Bool
exceeds none threshold = false
exceeds (some v) threshold = is_positive threshold && ltb_ℤ threshold v

unfoldable pub note_malformed : Bool → Detector → Detector
note_malformed bad d = record d {
  baggage_malformed = if bad then add_one d.baggage_malformed else d.baggage_malformed;
}

-- The two returns at the end of evalBaggage.
unfoldable pub baggage_verdict : Detector → Option ℤ → Option ℤ → ℕ
unfolding exceeds
baggage_verdict d elapsed age =
    if exceeds elapsed d.trace_lat_ms
    then reason_trace_latency
    else if exceeds age d.trace_age_ms
    then reason_trace_age
    else 0

unfoldable pub eval_baggage : Detector → Span → ℤ → ℕ × Detector
unfolding clamp_elapsed clamp_age store_divergence note_malformed baggage_verdict
eval_baggage d sp now =
    let elapsed = read_millis sp.attributes d.elapsed_key in
    let t0 = read_millis sp.attributes d.t0_key in
    let e = clamp_elapsed (note_malformed (is_malformed elapsed || is_malformed t0) d) elapsed in
    let a = clamp_age now (e.1) t0 in
    (baggage_verdict d (e.0) (a.0), store_divergence (e.0) (a.0) (a.1))

unfoldable pub eval_policies : Detector → ResourceSpans → ScopeSpans → Span → ℕ × Detector
eval_policies d rs ss sp =
    let r = run_policies rs ss sp d.policies in
    let d1 : Detector = record d { policies = r.1 } in if r.0 then hit d1 reason_policy else (0, d1)

-- The part of the chain behind the span's latency.
unfoldable pub eval_tail : Detector → ResourceSpans → ScopeSpans → Span → ℤ → ℕ × Detector
eval_tail d rs ss sp now =
    let b = eval_baggage d sp now in
    let found = hit (b.1) (b.0) in
    let later = eval_policies (b.1) rs ss sp in
    let skipped = eval_policies d rs ss sp in
    if d.read_baggage then (if b.0 == 0 then later else found) else skipped

-- The part behind keep-on-error: a span that ends before it starts is clamped and fires nothing.
unfoldable pub eval_latency : Detector → ResourceSpans → ScopeSpans → Span → ℤ → ℕ × Detector
eval_latency d rs ss sp now =
    if ltb 0 d.span_latency_ns
    then (if ltb sp.end_timestamp sp.start_timestamp
        then eval_tail (clamp_skew true d) rs ss sp now
        else if ltb d.span_latency_ns (sp.end_timestamp - sp.start_timestamp)
        then hit d reason_span_latency
        else eval_tail d rs ss sp now)
    else eval_tail d rs ss sp now

abbrev pub is_error : Span → Bool
is_error sp = ℤ_eq sp.status.code status_code_error

unfoldable pub eval : Detector → ResourceSpans → ScopeSpans → Span → ℤ → ℕ × Detector
unfolding eval_latency
eval d rs ss sp now =
    if d.keep_on_error && is_error sp then hit d reason_error else eval_latency d rs ss sp now

abbrev pub be_value : Bytes → ℕ
be_value bs = le_value (reverse bs)

-- `binary.BigEndian.Uint64(id[8:])&(1<<56-1)`
unfoldable pub low_56 : Bytes → ℕ
low_56 id = be_value (drop 8 id) % 2 ^ 56

unfoldable pub baseline : Detector → Bytes → Bool × Detector
baseline d id =
    if d.baseline_threshold == 0
    then (false, d)
    else if ltb (low_56 id) d.baseline_threshold
    then (true, (hit d reason_baseline).1)
    else (false, d)
