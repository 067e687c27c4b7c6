-- ===== src/Tests/DetectRuns.antt =====
-- internal/detect on a span that ends in an error.
use retrosampler.Prelude.{
  ◌^◌, ◌<◌, ◌≡◌, ◌↔◌, arith, true, false, [], ◌∷◌, some, none, refl, Option, All, if◌then◌else◌,
  ◌==◌,
}
use retrosampler.Prelude.Ints.{pos}
use retrosampler.Fragmenter.Value.{string}
use retrosampler.Tests.FragmenterRuns.{checkout_span, one_scope, one_resource}
use retrosampler.Detect.Millis.{value, value_millis, decimal, IsDigit, value_millis-string}
use retrosampler.Detect.Policies.{
  add_one, Policy, Condition, CompiledPolicy, compiled, compile_policies, compile_loop,
  compile_parsed, add_compiled, seen_before, fresh_policy,
}
use retrosampler.Prelude.{List, bytes_eq_iff}
use retrosampler.Prelude.Bytes.{Bytes}
use retrosampler.Detect.Build.{DetectConfig, build, built, with_compiled, without_policies}
use retrosampler.Detect.Compiles.{
  AreParsed, HasFreshNames, compile_policies-AreParsed, enabled-build,
}
use retrosampler.Detect.Chain.{Detector, enabled, eval}
use retrosampler.Detect.Order.{verdict, eval-verdict}
use retrosampler.Detect.Counters.{eval-detected}

abbrev slow_policy : CompiledPolicy
slow_policy = record {
  name = 115 ∷ [];
  cond = λ rs ss sp. some true;
  matches = 0;
  eval_errors = 0;
  warned = false;
}

abbrev some_detector : Detector
some_detector = record {
  keep_on_error = false;
  span_latency_ns = 3000000;
  trace_lat_ms = pos 20;
  trace_age_ms = pos 0;
  t0_key = 116 ∷ [];
  elapsed_key = 109 ∷ [];
  read_baggage = true;
  baseline_threshold = 0;
  policies = slow_policy ∷ [];
  detected = λ k. 4;
  skew_clamped = 0;
  baggage_malformed = 0;
  divergence_ms = pos 0;
}

value_millis-string_example :
    (value_millis (string (52 ∷ 50 ∷ [])) ≡ value (pos 42))
    ↔ ((0 < 2) × All IsDigit (52 ∷ 50 ∷ []) × (42 ≡ decimal (52 ∷ 50 ∷ [])) × (42 < 2 ^ 63))
value_millis-string_example = value_millis-string (52 ∷ 50 ∷ []) 42

eval-verdict_example :
    (eval some_detector one_resource one_scope checkout_span (pos 9)).0
    ≡ verdict some_detector one_resource one_scope checkout_span (pos 9)
eval-verdict_example = eval-verdict one_resource one_scope checkout_span (pos 9) some_detector

eval-detected_example :
    let (r, d') = eval some_detector one_resource one_scope checkout_span (pos 9) in
    d'.detected 2 ≡ (if 2 == r then add_one 4 else 4)
eval-detected_example =
    eval-detected one_resource one_scope checkout_span (pos 9) some_detector 2 (omega arith)

abbrev two_policies : List Policy
two_policies =
    record { name = 97 ∷ []; condition = 120 ∷ [] }
    ∷ (record { name = 98 ∷ []; condition = 121 ∷ [] } ∷ [])

abbrev any_condition : Bytes → Option Condition
any_condition s = some (λ rs ss sp. some false)

abbrev two_compiled : List CompiledPolicy
two_compiled =
    fresh_policy (97 ∷ []) (λ rs ss sp. some false)
    ∷ (fresh_policy (98 ∷ []) (λ rs ss sp. some false) ∷ [])

two_policies_compile : compile_policies (some any_condition) two_policies ≡ compiled two_compiled
unfolding compile_policies compile_loop compile_parsed add_compiled seen_before
two_policies_compile =
    ground (
      arith,
      bytes_eq_iff (97 ∷ []) [],
      bytes_eq_iff (98 ∷ []) [],
      bytes_eq_iff (98 ∷ []) (97 ∷ []),
    )

compile_policies-AreParsed_example :
    AreParsed (some any_condition) two_compiled two_policies × HasFreshNames [] two_policies
compile_policies-AreParsed_example =
    compile_policies-AreParsed (some any_condition) two_policies two_compiled two_policies_compile

abbrev sub_millisecond : DetectConfig
sub_millisecond = record {
  keep_on_error = false;
  span_latency_threshold = pos 0;
  trace_latency_threshold = pos 300000;
  trace_age_threshold = pos 0;
  baseline_rate = record { above_0 = false; scaled = 0 };
  t0_attribute = [];
  elapsed_ms_attribute = 109 ∷ [];
  policies = [];
}

sub_millisecond_builds : build none sub_millisecond ≡ built (without_policies sub_millisecond)
unfolding build with_compiled compile_policies without_policies
sub_millisecond_builds = refl

enabled-build_example : enabled (without_policies sub_millisecond) ≡ true
enabled-build_example =
    enabled-build none sub_millisecond (without_policies sub_millisecond) sub_millisecond_builds
