-- ===== src/Detect/Build.antt =====
-- internal/detect: Build and the accessors of a Detector. The float product behind the baseline's
-- threshold, `uint64(math.Round(rate * 2^56))`, is a parameter.
use retrosampler.Prelude.{ℕ, Bool, ◌||◌, List, []}
use retrosampler.Prelude.{Option, none, some, ltb, if◌then◌else◌, get_elem?, map}
use retrosampler.Prelude.Bytes.{Bytes}
use retrosampler.Prelude.Ints.{ℤ, pos, negsuc, pos_part}
use retrosampler.Detect.Policies.{
  Policy, PolicyError, Condition, CompiledPolicy, Compiled, compiled, refused, compile_policies,
}
use retrosampler.Detect.Chain.{Detector, threshold_millis, is_positive}

-- A rate as Build sees it: whether it is above 0, and the threshold that it gives.
pub record BaselineRate : Type 0 where
  pub above_0 : Bool
  pub scaled : ℕ

pub record DetectConfig : Type 0 where
  pub keep_on_error : Bool
  pub span_latency_threshold : ℤ
  pub trace_latency_threshold : ℤ
  pub trace_age_threshold : ℤ
  pub baseline_rate : BaselineRate
  pub t0_attribute : Bytes
  pub elapsed_ms_attribute : Bytes
  pub policies : List Policy

-- The detector before its policies are compiled; counters begin at 0.
unfoldable pub without_policies : DetectConfig → Detector
without_policies cfg = record {
  keep_on_error = cfg.keep_on_error;
  span_latency_ns =
      if is_positive cfg.span_latency_threshold then pos_part cfg.span_latency_threshold else 0;
  trace_lat_ms = threshold_millis cfg.trace_latency_threshold;
  trace_age_ms = threshold_millis cfg.trace_age_threshold;
  t0_key = cfg.t0_attribute;
  elapsed_key = cfg.elapsed_ms_attribute;
  read_baggage =
      is_positive (threshold_millis cfg.trace_latency_threshold)
      || is_positive (threshold_millis cfg.trace_age_threshold);
  baseline_threshold = if cfg.baseline_rate.above_0 then cfg.baseline_rate.scaled else 0;
  policies = [];
  detected = λ k. 0;
  skew_clamped = 0;
  baggage_malformed = 0;
  divergence_ms = pos 0;
}

pub data Built : Type 0 where
  built : Detector → Built
  rejected : PolicyError → Built

unfoldable pub with_compiled : Detector → Compiled → Built
with_compiled d (compiled ps) = built (record d { policies = ps })
with_compiled d (refused e) = rejected e

unfoldable pub build : Option (Bytes → Option Condition) → DetectConfig → Built
unfolding with_compiled
build parser cfg = with_compiled (without_policies cfg) (compile_policies parser cfg.policies)

unfoldable pub policy_names : Detector → List Bytes
policy_names d = map (λ p. p.name) d.policies

abbrev pub or_0 : (CompiledPolicy → ℕ) → Option CompiledPolicy → ℕ
or_0 count none = 0
or_0 count (some p) = count p

-- An index below 0 or past the end reads 0.
unfoldable pub policy_matches : Detector → ℤ → ℕ
policy_matches d (pos i) = or_0 (λ p. p.matches) (get_elem? d.policies i)
policy_matches d (negsuc i) = 0

unfoldable pub policy_eval_errors : Detector → ℤ → ℕ
policy_eval_errors d (pos i) = or_0 (λ p. p.eval_errors) (get_elem? d.policies i)
policy_eval_errors d (negsuc i) = 0

-- nReasons is ReasonBaseline + 1.
unfoldable pub detected_keeps : Detector → ℕ → ℕ
detected_keeps d reason = if ltb reason 7 then d.detected reason else 0
