-- ===== src/Tests/SettingsRuns.antt =====
-- config.go and the keep messages of internal/bus/natsbus on concrete values.
use retrosampler.Prelude.{ℕ, ◌≡◌, ◌≢◌, ◌↔◌, ◌⊎◌, arith, true, [], ◌∷◌, Option, some, none, length}
use retrosampler.Prelude.Bytes.{Bytes}
use retrosampler.Prelude.Ints.{pos}
use retrosampler.Fragmenter.Group.{zeros}
use retrosampler.Detect.Policies.{Condition}
use retrosampler.Settings.Validate.{
  Config, NatsConfig, validate, with_defaults, check_nats, valid_bus_token,
}
use retrosampler.Settings.Validate.{nats_kind, bus_mode_durable, bus_mode_at_most_once}
use retrosampler.Settings.Usable.{IsUsable, IsToken, validate-IsUsable, with_defaults_lem}
use retrosampler.Bus.Wire.{encode_keep, decode_keep, decode_keep_lem}

abbrev local_nats : NatsConfig
local_nats = record {
  url = b'n' ∷ [];
  mode = [];
  subject = b'k' ∷ [];
  stream = [];
  creds_file = [];
}

abbrev usual_config : Config
usual_config = record {
  storage_dir = b'd' ∷ [];
  window = pos 30000000000;
  segment_size = pos 4194304;
  shards = pos 0;
  disk_budget = pos 1000000000;
  watermark_pct = pos 90;
  window_floor = pos 5000000000;
  keep_on_error = true;
  span_latency_threshold = pos 0;
  trace_latency_threshold = pos 0;
  trace_age_threshold = pos 0;
  baseline_rate = record { at_least_0 = true; at_most_1 = true };
  policies = [];
  t0_attribute = [];
  elapsed_ms_attribute = [];
  bus = some (record { kind = nats_kind; nats = some local_nats });
}

abbrev no_conditions : Option (Bytes → Option Condition)
no_conditions = some (λ s. none)

validate-IsUsable_example :
    (validate no_conditions usual_config ≡ none) ↔ IsUsable no_conditions usual_config
validate-IsUsable_example = validate-IsUsable no_conditions usual_config

local_nats_passes : check_nats (some local_nats) ≡ none
unfolding check_nats valid_bus_token
local_nats_passes = ground arith

with_defaults_lem_example :
    let n' = with_defaults local_nats in
    ((n'.mode ≡ bus_mode_durable) ⊎ (n'.mode ≡ bus_mode_at_most_once))
    × ((n'.subject ≢ []) × IsToken n'.subject)
    × ((n'.stream ≢ []) × IsToken n'.stream)
    × (n'.url ≡ local_nats.url)
    × (with_defaults n' ≡ n')
with_defaults_lem_example = with_defaults_lem local_nats local_nats_passes

decode_keep_lem_example : (decode_keep (zeros 16) ≡ some (zeros 16, 0)) ↔ (
    (length (zeros 16) ≡ 16)
    × ((zeros 16 ≡ encode_keep (zeros 16) 0) ⊎ ((zeros 16 ≡ zeros 16) × (◌≡◌ {A = ℕ} 0 0))))
decode_keep_lem_example = decode_keep_lem (zeros 16) (zeros 16) 0
