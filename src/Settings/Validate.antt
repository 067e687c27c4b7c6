-- ===== src/Settings/Validate.antt =====
-- config.go: the processor's configuration, its validation and the defaults of the NATS block. A
-- string is its bytes; a duration and an int are their value.
use retrosampler.Prelude.{
  ℕ, ◌^◌, Bool, true, false, not, ◌&&◌, ◌||◌, List, [], ◌∷◌, Option, none, some, if◌then◌else◌,
  ◌==◌, bytes_eq,
}
use retrosampler.Prelude.Bytes.{Bytes}
use retrosampler.Prelude.Ints.{ℤ, pos, ltb_ℤ}
use retrosampler.Detect.Policies.{
  Policy, PolicyError, Condition, Compiled, compiled, refused, compile_policies,
}

pub record NatsConfig : Type 0 where
  pub url : Bytes
  pub mode : Bytes
  pub subject : Bytes
  pub stream : Bytes
  pub creds_file : Bytes

pub record BusConfig : Type 0 where
  pub kind : Bytes
  pub nats : Option NatsConfig

pub record PolicyConfig : Type 0 where
  pub name : Bytes
  pub condition : Bytes

-- A float64 as Validate sees it: how it compares with 0 and with 1. NaN answers false to both.
pub record Rate : Type 0 where
  pub at_least_0 : Bool
  pub at_most_1 : Bool

pub record Config : Type 0 where
  pub storage_dir : Bytes
  pub window : ℤ
  pub segment_size : ℤ
  pub shards : ℤ
  pub disk_budget : ℤ
  pub watermark_pct : ℤ
  pub window_floor : ℤ
  pub keep_on_error : Bool
  pub span_latency_threshold : ℤ
  pub trace_latency_threshold : ℤ
  pub trace_age_threshold : ℤ
  pub baseline_rate : Rate
  pub policies : List PolicyConfig
  pub t0_attribute : Bytes
  pub elapsed_ms_attribute : Bytes
  pub bus : Option BusConfig

abbrev pub bus_mode_durable : Bytes
bus_mode_durable = b'd' ∷ b'u' ∷ b'r' ∷ b'a' ∷ b'b' ∷ b'l' ∷ b'e' ∷ []

abbrev pub bus_mode_at_most_once : Bytes
bus_mode_at_most_once =
    b'a' ∷ b't' ∷ b'_' ∷ b'm' ∷ b'o' ∷ b's' ∷ b't' ∷ b'_' ∷ b'o' ∷ b'n' ∷ b'c' ∷ b'e' ∷ []

abbrev pub default_subject : Bytes
default_subject =
    b'r' ∷ b'e' ∷ b't' ∷ b'r' ∷ b'o' ∷ b's' ∷ b'a' ∷ b'm' ∷ b'p' ∷ b'l' ∷ b'e' ∷ b'r' ∷ b'.' ∷ b'k'
    ∷ b'e' ∷ b'e' ∷ b'p' ∷ b's' ∷ []

abbrev pub default_stream : Bytes
default_stream =
    b'r' ∷ b'e' ∷ b't' ∷ b'r' ∷ b'o' ∷ b's' ∷ b'a' ∷ b'm' ∷ b'p' ∷ b'l' ∷ b'e' ∷ b'r' ∷ b'-' ∷ b'k'
    ∷ b'e' ∷ b'e' ∷ b'p' ∷ b's' ∷ []

abbrev pub nats_kind : Bytes
nats_kind = b'n' ∷ b'a' ∷ b't' ∷ b's' ∷ []

abbrev pub is_blank : Bytes → Bool
is_blank [] = true
is_blank (c ∷ s) = false

unfoldable pub with_defaults : NatsConfig → NatsConfig
with_defaults n = record n {
  mode = if is_blank n.mode then bus_mode_durable else n.mode;
  subject = if is_blank n.subject then default_subject else n.subject;
  stream = if is_blank n.stream then default_stream else n.stream;
}

abbrev pub is_wildcard : ℕ → Bool
is_wildcard r = r == b'*' || r == b'>' || r == b' ' || r == 9

-- The loop goes over runes; the four that it looks for are ASCII, so they are bytes of their own.
unfoldable pub valid_bus_token : Bytes → Bool
valid_bus_token [] = true
valid_bus_token (r ∷ s) = not (is_wildcard r) && valid_bus_token s

unfoldable pub policy_list : List PolicyConfig → List Policy
policy_list [] = []
policy_list (p ∷ ps) = record { name = p.name; condition = p.condition } ∷ policy_list ps

-- The errors of Validate, in the order of its tests.
pub data ConfigError : Type 0 where
  no_storage_dir no_disk_budget bad_window segment_too_small segment_too_large bad_shards :
      ConfigError
  bad_watermark bad_window_floor bad_span_latency bad_trace_latency bad_trace_age : ConfigError
  bad_baseline_rate no_t0_attribute no_elapsed_attribute : ConfigError
  bad_bus_type no_nats no_url bad_mode bad_subject bad_stream : ConfigError
  bad_policies : PolicyError → ConfigError

abbrev pub or_next : Option ConfigError → Option ConfigError → Option ConfigError
or_next none later = later
or_next (some e) later = some e

abbrev pub is_positive_int : ℤ → Bool
is_positive_int v = ltb_ℤ (pos 0) v

-- The tests on the sizes and the windows.
unfoldable pub check_sizes : Config → Option ConfigError
check_sizes cfg =
    if is_blank cfg.storage_dir
    then some no_storage_dir
    else if not (is_positive_int cfg.disk_budget)
    then some no_disk_budget
    else if not (is_positive_int cfg.window)
    then some bad_window
    else if ltb_ℤ cfg.segment_size (pos (2 ^ 20))
    then some segment_too_small
    else if ltb_ℤ (pos (2 ^ 30)) cfg.segment_size
    then some segment_too_large
    else if ltb_ℤ cfg.shards (pos 0)
    then some bad_shards
    else if not (is_positive_int cfg.watermark_pct) || ltb_ℤ (pos 100) cfg.watermark_pct
    then some bad_watermark
    else if not (is_positive_int cfg.window_floor) || not (ltb_ℤ cfg.window_floor cfg.window)
    then some bad_window_floor
    else none

-- The tests on the thresholds of the detector.
unfoldable pub check_thresholds : Config → Option ConfigError
check_thresholds cfg =
    if ltb_ℤ cfg.span_latency_threshold (pos 0)
    then some bad_span_latency
    else if ltb_ℤ cfg.trace_latency_threshold (pos 0)
    then some bad_trace_latency
    else if ltb_ℤ cfg.trace_age_threshold (pos 0)
    then some bad_trace_age
    else if not (cfg.baseline_rate.at_least_0 && cfg.baseline_rate.at_most_1)
    then some bad_baseline_rate
    else if is_positive_int cfg.trace_age_threshold && is_blank cfg.t0_attribute
    then some no_t0_attribute
    else if is_positive_int cfg.trace_latency_threshold && is_blank cfg.elapsed_ms_attribute
    then some no_elapsed_attribute
    else none

unfoldable pub check_nats : Option NatsConfig → Option ConfigError
check_nats none = some no_nats
check_nats (some n) =
    if is_blank n.url
    then some no_url
    else if not (is_blank n.mode)
        && not (bytes_eq n.mode bus_mode_durable)
        && not (bytes_eq n.mode bus_mode_at_most_once)
    then some bad_mode
    else if not (valid_bus_token n.subject)
    then some bad_subject
    else if not (valid_bus_token n.stream)
    then some bad_stream
    else none

unfoldable pub check_bus : Option BusConfig → Option ConfigError
unfolding check_nats
check_bus none = none
check_bus (some b) =
    if not (bytes_eq b.kind nats_kind) then some bad_bus_type else check_nats b.nats

unfoldable pub check_compiled : Compiled → Option ConfigError
check_compiled (compiled ps) = none
check_compiled (refused e) = some (bad_policies e)

-- detect.CheckPolicies compiles with throwaway settings: `parser` is what ottlspan.NewParser gives.
unfoldable pub check_policies : Option (Bytes → Option Condition) → List Policy → Option ConfigError
unfolding check_compiled
check_policies parser ps = check_compiled (compile_policies parser ps)

-- Validate: the first error, or none.
unfoldable pub validate : Option (Bytes → Option Condition) → Config → Option ConfigError
unfolding check_policies
validate parser cfg = or_next (check_sizes cfg) (
    or_next (check_thresholds cfg)
      (or_next (check_bus cfg.bus) (check_policies parser (policy_list cfg.policies))))
