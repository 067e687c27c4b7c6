-- ===== src/Detect/Compiles.antt =====
-- internal/detect: what compilePolicies accepts, and which detectors Build makes.
use retrosampler.Prelude.{
  ◌≡◌, ◌≢◌, refl, ap, sym, ◌∙◌, arith, Bool, true, false, ◌&&◌, ◌||◌, List, [], ◌∷◌,
}
use retrosampler.Prelude.{Option, none, some, ltb, All, bytes_eq_iff}
use mathlib.Core.Path.{subst}
use retrosampler.Prelude.Bytes.{Bytes}
use retrosampler.Prelude.Ints.{ℤ, pos, negsuc}
use retrosampler.Detect.Policies.{
  Policy, Condition, CompiledPolicy, Compiled, compiled, refused, compile_policies,
}
use retrosampler.Detect.Policies.{
  compile_loop, compile_parsed, add_compiled, seen_before, fresh_policy,
}
use retrosampler.Detect.Chain.{
  Detector, threshold_millis, milliseconds, enabled, has_policies, is_positive,
}
use retrosampler.Detect.Build.{
  DetectConfig, Built, built, rejected, build, with_compiled, without_policies,
}

-- No name is empty, and none occurs before its place or among the names `seen`.
abbrev pub HasFreshNames : List Bytes → List Policy → Type 0
HasFreshNames seen [] = Unit {0}
HasFreshNames seen (p ∷ ps) =
    (p.name ≢ []) × All (λ s. p.name ≢ s) seen × HasFreshNames (p.name ∷ seen) ps

seen_before-All :
    (name : Bytes) (seen : List Bytes) → seen_before name seen ≡ false → All (λ s. name ≢ s) seen
unfolding seen_before
seen_before-All name [] h = tt
seen_before-All name (s ∷ seen) h =
    (ground (arith, h, bytes_eq_iff name s), seen_before-All name seen (ground (arith, h)))

-- The policy has the name of the configured one and what the parser makes of its condition, and no counts.
abbrev pub IsParsed : Option (Bytes → Option Condition) → CompiledPolicy → Policy → Type 0
IsParsed none c p = ⊥
IsParsed (some parse) c p =
    (cond : Condition) × (parse p.condition ≡ some cond) × (c ≡ fresh_policy p.name cond)

-- Each policy is the configured one at its place, parsed.
abbrev pub AreParsed :
    Option (Bytes → Option Condition) → List CompiledPolicy → List Policy → Type 0
AreParsed parser [] [] = Unit {0}
AreParsed parser [] (p ∷ ps) = ⊥
AreParsed parser (c ∷ cs) [] = ⊥
AreParsed parser (c ∷ cs) (p ∷ ps) = IsParsed parser c p × AreParsed parser cs ps

abbrev policies_of : Compiled → List CompiledPolicy
policies_of (compiled ps) = ps
policies_of (refused e) = []

add_compiled_inv :
    (c : CompiledPolicy) (rest : Compiled) (out : List CompiledPolicy)
    → add_compiled c rest ≡ compiled out
    → (others : List CompiledPolicy) × (rest ≡ compiled others)
      × (compiled (c ∷ others) ≡ compiled out)
unfolding add_compiled
add_compiled_inv c (compiled others) out h = (others, refl, h)
add_compiled_inv c (refused e) out h = ground (arith, h)

module _ (parse : Bytes → Option Condition) where
  compile_parsed_inv :
      (name : Bytes) (o : Option Condition) (rest : Compiled) (out : List CompiledPolicy)
      → compile_parsed parse name o rest ≡ compiled out
      → (cond : Condition) × (others : List CompiledPolicy) × (o ≡ some cond)
        × (rest ≡ compiled others)
        × (out ≡ fresh_policy name cond ∷ others)
  unfolding compile_parsed
  compile_parsed_inv name none rest out h = ground (arith, h)
  compile_parsed_inv name (some cond) rest out h =
      let (others, e, f) = add_compiled_inv (fresh_policy name cond) rest out h in
      (cond, others, refl, e, sym (ap policies_of f))

  compile_loop_step :
      (seen : List Bytes) (p : Policy) (ps : List Policy) (out : List CompiledPolicy)
      → compile_loop parse seen (p ∷ ps) ≡ compiled out
      → (p.name ≢ [])
        × (seen_before p.name seen ≡ false)
        × (compile_parsed parse p.name (parse p.condition) (compile_loop parse (p.name ∷ seen) ps)
            ≡ compiled out)
  unfolding compile_loop
  compile_loop_step seen p ps out h = ground (arith, h, bytes_eq_iff p.name [])

  compile_loop-nil : (seen : List Bytes) → compile_loop parse seen [] ≡ compiled []
  unfolding compile_loop
  compile_loop-nil seen = refl

  compile_loop-AreParsed :
      (seen : List Bytes) (ps : List Policy) (out : List CompiledPolicy)
      → compile_loop parse seen ps ≡ compiled out
      → AreParsed (some parse) out ps × HasFreshNames seen ps
  compile_loop-AreParsed seen [] out h = (
    subst (λ o. AreParsed (some parse) o []) (ap policies_of (sym (compile_loop-nil seen) ∙ h)) tt,
    tt,
  )
  compile_loop-AreParsed seen (p ∷ ps) out h =
      let (full, fresh, parsed) = compile_loop_step seen p ps out h in
      let (cond, others, parses, rest, e) =
        compile_parsed_inv p.name (parse p.condition) _ out parsed in
      let (same, later) = compile_loop-AreParsed (p.name ∷ seen) ps others rest in
      (
        subst (λ o. AreParsed (some parse) o (p ∷ ps)) (sym e) ((cond, parses, refl), same),
        (full, seen_before-All p.name seen fresh, later),
      )

-- When compilePolicies reports no error, there is one policy for each of the configuration, in its order, with its
-- name, what the parser gives for its condition and no counts; no name is empty and no two are the same.
pub compile_policies-AreParsed :
    (parser : Option (Bytes → Option Condition)) (ps : List Policy) (out : List CompiledPolicy)
    → compile_policies parser ps ≡ compiled out
    → AreParsed parser out ps × HasFreshNames [] ps
unfolding compile_policies
compile_policies-AreParsed parser [] out h =
    (subst (λ o. AreParsed parser o []) (ap policies_of h) tt, tt)
compile_policies-AreParsed none (p ∷ ps) out h = ground (arith, h)
compile_policies-AreParsed (some parse) (p ∷ ps) out h =
    compile_loop-AreParsed parse [] (p ∷ ps) out h

is_positive-threshold_millis : (v : ℤ) → is_positive (threshold_millis v) ≡ is_positive v
unfolding threshold_millis milliseconds
is_positive-threshold_millis (pos n) = ground arith
is_positive-threshold_millis (negsuc n) = ground arith

abbrev pub has_some : List Policy → Bool
has_some [] = false
has_some (p ∷ ps) = true

AreParsed-has_policies :
    (parser : Option (Bytes → Option Condition)) (out : List CompiledPolicy) (ps : List Policy)
    → AreParsed parser out ps
    → has_policies out ≡ has_some ps
unfolding has_policies
AreParsed-has_policies parser [] [] h = refl
AreParsed-has_policies parser [] (p ∷ ps) h = absurd h
AreParsed-has_policies parser (c ∷ out) [] h = absurd h
AreParsed-has_policies parser (c ∷ out) (p ∷ ps) h = refl

-- Whether a configuration asks for anything.
abbrev pub is_active : DetectConfig → Bool
is_active cfg =
    cfg.keep_on_error
    || is_positive cfg.span_latency_threshold
    || is_positive cfg.trace_latency_threshold
    || is_positive cfg.trace_age_threshold
    || (cfg.baseline_rate.above_0 && ltb 0 cfg.baseline_rate.scaled)
    || has_some cfg.policies

with_compiled_inv :
    (d' d : Detector) (c : Compiled)
    → with_compiled d' c ≡ built d
    → (out : List CompiledPolicy) × (c ≡ compiled out)
      × (built (record d' { policies = out }) ≡ built d)
unfolding with_compiled
with_compiled_inv d' d (compiled out) h = (out, refl, h)
with_compiled_inv d' d (refused e) h = ground (arith, h)

abbrev detector_or : Detector → Built → Detector
detector_or other (built d) = d
detector_or other (rejected e) = other

enabled-without_policies :
    (cfg : DetectConfig) (out : List CompiledPolicy)
    → has_policies out ≡ has_some cfg.policies
    → enabled (record (without_policies cfg) { policies = out }) ≡ is_active cfg
unfolding enabled without_policies
enabled-without_policies cfg out h = ground (
  arith,
  h,
  is_positive-threshold_millis cfg.trace_latency_threshold,
  is_positive-threshold_millis cfg.trace_age_threshold,
)

-- A detector that Build makes is enabled exactly when its configuration has a condition that is on: a
-- positive threshold of any length counts, and a negative one does not.
pub enabled-build :
    (parser : Option (Bytes → Option Condition)) (cfg : DetectConfig) (d : Detector)
    → build parser cfg ≡ built d
    → enabled d ≡ is_active cfg
unfolding build enabled without_policies
enabled-build parser cfg d h =
    let (out, ok, same) =
      with_compiled_inv (without_policies cfg) d (compile_policies parser cfg.policies) h in
    let same_policies = (compile_policies-AreParsed parser cfg.policies out ok).0 in
    ap enabled (ap (detector_or d) (sym same))
    ∙ enabled-without_policies cfg out
        (AreParsed-has_policies parser out cfg.policies same_policies)
