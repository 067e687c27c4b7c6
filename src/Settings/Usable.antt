-- ===== src/Settings/Usable.antt =====
-- config.go: what a configuration that Validate accepts promises.
use retrosampler.Prelude.{
  ◌^◌, ◌≡◌, ◌≢◌, ◌↔◌, ◌⊎◌, inl, inr, refl, arith, true, false, List, [], ◌∷◌, Option, none, some,
  All, if◌then◌else◌, bytes_eq_iff,
}
use retrosampler.Prelude.Bytes.{Bytes}
use retrosampler.Prelude.Ints.{pos, ◌<ℤ◌, ◌≤ℤ◌}
use retrosampler.Detect.Policies.{
  Policy, CompiledPolicy, Condition, Compiled, compiled, refused, compile_policies,
}
use retrosampler.Settings.Validate.{
  Config, NatsConfig, BusConfig, ConfigError, with_defaults, valid_bus_token, is_wildcard, or_next,
  is_blank,
}
use retrosampler.Settings.Validate.{
  check_sizes, check_thresholds, check_nats, check_bus, check_compiled, check_policies, validate,
  policy_list,
}
use retrosampler.Settings.Validate.{
  bus_mode_durable, bus_mode_at_most_once, default_subject, default_stream, nats_kind,
}

is_blank_iff : (s : Bytes) → (is_blank s ≡ true) ↔ (s ≡ [])
is_blank_iff [] = (λ h. refl, λ h. refl)
is_blank_iff (c ∷ s) = ground arith

abbrev pub HasSizes : Config → Type 0
HasSizes cfg =
    (cfg.storage_dir ≢ [])
    × (pos 0 <ℤ cfg.disk_budget)
    × (pos 0 <ℤ cfg.window)
    × (pos (2 ^ 20) ≤ℤ cfg.segment_size)
    × (cfg.segment_size ≤ℤ pos (2 ^ 30))
    × (pos 0 ≤ℤ cfg.shards)
    × (pos 0 <ℤ cfg.watermark_pct)
    × (cfg.watermark_pct ≤ℤ pos 100)
    × (pos 0 <ℤ cfg.window_floor)
    × (cfg.window_floor <ℤ cfg.window)

check_sizes-HasSizes : (cfg : Config) → (check_sizes cfg ≡ none) ↔ HasSizes cfg
unfolding check_sizes
check_sizes-HasSizes cfg = ground (arith, is_blank_iff cfg.storage_dir)

abbrev pub HasThresholds : Config → Type 0
HasThresholds cfg =
    (pos 0 ≤ℤ cfg.span_latency_threshold)
    × (pos 0 ≤ℤ cfg.trace_latency_threshold)
    × (pos 0 ≤ℤ cfg.trace_age_threshold)
    × (cfg.baseline_rate.at_least_0 ≡ true)
    × (cfg.baseline_rate.at_most_1 ≡ true)
    × (pos 0 <ℤ cfg.trace_age_threshold → cfg.t0_attribute ≢ [])
    × (pos 0 <ℤ cfg.trace_latency_threshold → cfg.elapsed_ms_attribute ≢ [])

check_thresholds-HasThresholds : (cfg : Config) → (check_thresholds cfg ≡ none) ↔ HasThresholds cfg
unfolding check_thresholds
check_thresholds-HasThresholds cfg =
    ground (arith, is_blank_iff cfg.t0_attribute, is_blank_iff cfg.elapsed_ms_attribute)

-- No byte of a subject or of a stream name is a wildcard or a space.
abbrev pub IsToken : Bytes → Type 0
IsToken s = All (λ r. is_wildcard r ≡ false) s

valid_bus_token-IsToken : (s : Bytes) → (valid_bus_token s ≡ true) ↔ IsToken s
unfolding valid_bus_token
valid_bus_token-IsToken [] = (λ h. tt, λ h. refl)
valid_bus_token-IsToken (r ∷ s) = ground (arith, valid_bus_token-IsToken s)

abbrev pub HasNats : Option NatsConfig → Type 0
HasNats none = ⊥
HasNats (some n) =
    (n.url ≢ [])
    × ((n.mode ≡ []) ⊎ ((n.mode ≡ bus_mode_durable) ⊎ (n.mode ≡ bus_mode_at_most_once)))
    × IsToken n.subject
    × IsToken n.stream

check_nats-HasNats : (n : Option NatsConfig) → (check_nats n ≡ none) ↔ HasNats n
unfolding check_nats
check_nats-HasNats none = ground arith
check_nats-HasNats (some n) = ground (
  arith,
  is_blank_iff n.url,
  is_blank_iff n.mode,
  bytes_eq_iff n.mode bus_mode_durable,
  bytes_eq_iff n.mode bus_mode_at_most_once,
  valid_bus_token-IsToken n.subject,
  valid_bus_token-IsToken n.stream,
)

abbrev pub HasBus : Option BusConfig → Type 0
HasBus none = Unit {0}
HasBus (some b) = (b.kind ≡ nats_kind) × HasNats b.nats

check_bus-HasBus : (b : Option BusConfig) → (check_bus b ≡ none) ↔ HasBus b
unfolding check_bus
check_bus-HasBus none = (λ h. tt, λ h. refl)
check_bus-HasBus (some b) = ground (arith, bytes_eq_iff b.kind nats_kind, check_nats-HasNats b.nats)

abbrev pub Compiles : Option (Bytes → Option Condition) → List Policy → Type 0
Compiles parser ps = (out : List CompiledPolicy) × (compile_policies parser ps ≡ compiled out)

check_compiled_lem :
    (c : Compiled) → (check_compiled c ≡ none) ↔ ((out : List CompiledPolicy) × (c ≡ compiled out))
unfolding check_compiled
check_compiled_lem (compiled ps) = (λ h. (ps, refl), λ h. refl)
check_compiled_lem (refused e) = (λ h. ground (arith, h), λ h. ground (arith, h.1))

-- What a configuration must have: the sizes, the thresholds and the bus in range, and policies that compile.
pub record IsUsable (parser : Option (Bytes → Option Condition)) (cfg : Config) : Type 0 where
  pub sizes : HasSizes cfg
  pub thresholds : HasThresholds cfg
  pub bus : HasBus cfg.bus
  pub policies : Compiles parser (policy_list cfg.policies)

or_next-none : (a b : Option ConfigError) → (or_next a b ≡ none) ↔ ((a ≡ none) × (b ≡ none))
or_next-none none b = (λ h. (refl, h), λ h. h.1)
or_next-none (some e) b = ground arith

-- Validate reports no error exactly for a configuration that is usable.
pub validate-IsUsable :
    (parser : Option (Bytes → Option Condition)) (cfg : Config)
    → (validate parser cfg ≡ none) ↔ IsUsable parser cfg
unfolding validate check_policies
validate-IsUsable parser cfg = (
  λ h.
      let (s, rest) = (or_next-none _ _).0 h in
      let (t, rest2) = (or_next-none _ _).0 rest in
      let (b, p) = (or_next-none _ _).0 rest2 in
      record {
        sizes = (check_sizes-HasSizes cfg).0 s;
        thresholds = (check_thresholds-HasThresholds cfg).0 t;
        bus = (check_bus-HasBus cfg.bus).0 b;
        policies = (check_compiled_lem _).0 p;
      },
  λ u. (or_next-none _ _).1 (
    (check_sizes-HasSizes cfg).1 u.sizes,
    (or_next-none _ _).1 (
      (check_thresholds-HasThresholds cfg).1 u.thresholds,
      (or_next-none _ _).1
          ((check_bus-HasBus cfg.bus).1 u.bus, (check_compiled_lem _).1 u.policies),
    ),
  ),
)

abbrev or_default : Bytes → Bytes → Bytes
or_default d s = if is_blank s then d else s

or_default-IsToken :
    (d s : Bytes)
    → d ≢ []
    → IsToken d
    → IsToken s
    → (or_default d s ≢ []) × IsToken (or_default d s)
or_default-IsToken d [] full token h = (full, token)
or_default-IsToken d (c ∷ s) full token h = (λ e. ground (arith, e), h)

or_default_again : (d s : Bytes) → d ≢ [] → or_default d (or_default d s) ≡ or_default d s
or_default_again [] s full = absurd (full refl)
or_default_again (b ∷ d) [] full = refl
or_default_again (b ∷ d) (c ∷ s) full = refl

or_default-mode :
    (s : Bytes)
    → (s ≡ []) ⊎ ((s ≡ bus_mode_durable) ⊎ (s ≡ bus_mode_at_most_once))
    → (or_default bus_mode_durable s ≡ bus_mode_durable)
      ⊎ (or_default bus_mode_durable s ≡ bus_mode_at_most_once)
or_default-mode [] h = inl refl
or_default-mode (c ∷ s) (inl e) = inl (ground (arith, e))
or_default-mode (c ∷ s) (inr h) = h

tokens : (valid_bus_token default_subject ≡ true) × (valid_bus_token default_stream ≡ true)
unfolding valid_bus_token
tokens = (refl, refl)

-- For a NATS block that Validate accepts, withDefaults leaves no choice open: the mode is one of the two,
-- the subject and the stream are not empty and hold no wildcard, the address is as it was, and a second
-- withDefaults changes nothing.
pub with_defaults_lem :
    (n : NatsConfig)
    → check_nats (some n) ≡ none
    → let n' = with_defaults n in
      ((n'.mode ≡ bus_mode_durable) ⊎ (n'.mode ≡ bus_mode_at_most_once))
      × ((n'.subject ≢ []) × IsToken n'.subject)
      × ((n'.stream ≢ []) × IsToken n'.stream)
      × (n'.url ≡ n.url)
      × (with_defaults n' ≡ n')
unfolding with_defaults
with_defaults_lem n h =
    let (_, mode, subject, stream) = (check_nats-HasNats (some n)).0 h in
    (
      or_default-mode n.mode mode,
      or_default-IsToken default_subject n.subject (λ e. ground (arith, e))
          ((valid_bus_token-IsToken default_subject).0 tokens.0) subject,
      or_default-IsToken default_stream n.stream (λ e. ground (arith, e))
          ((valid_bus_token-IsToken default_stream).0 tokens.1) stream,
      refl,
      λ i. record n {
        mode = or_default_again bus_mode_durable n.mode (λ e. ground (arith, e)) i;
        subject = or_default_again default_subject n.subject (λ e. ground (arith, e)) i;
        stream = or_default_again default_stream n.stream (λ e. ground (arith, e)) i;
      },
    )
