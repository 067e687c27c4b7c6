-- ===== src/Detect/Policies.antt =====
-- internal/detect/ottl.go: named OTTL policies. The parser and the conditions that it returns are
-- third-party code: a condition is a function that may fail, and the parser is a parameter.
use retrosampler.Prelude.{
  ℕ, ◌+◌, ◌%◌, ◌^◌, Bool, true, false, List, [], ◌∷◌, Option, none, some, ◌||◌,
}
use retrosampler.Prelude.{if◌then◌else◌, bytes_eq}
use retrosampler.Prelude.Bytes.{Bytes}
use retrosampler.Fragmenter.Span.{Span}
use retrosampler.Fragmenter.Group.{ScopeSpans, ResourceSpans}

pub record Policy : Type 0 where
  pub name : Bytes
  pub condition : Bytes

-- Eval of an ottl.Condition: none for an error.
abbrev pub Condition : Type 0
Condition = ResourceSpans → ScopeSpans → Span → Option Bool

pub record CompiledPolicy : Type 0 where
  pub name : Bytes
  pub cond : Condition
  pub matches : ℕ
  pub eval_errors : ℕ
  pub warned : Bool

pub data PolicyError : Type 0 where
  no_parser : PolicyError
  empty_name : PolicyError
  duplicate_name : Bytes → PolicyError
  bad_condition : Bytes → PolicyError

pub data Compiled : Type 0 where
  compiled : List CompiledPolicy → Compiled
  refused : PolicyError → Compiled

-- Add(1) on an atomic.Uint64.
abbrev pub add_one : ℕ → ℕ
add_one n = (n + 1) % 2 ^ 64

unfoldable pub seen_before : Bytes → List Bytes → Bool
seen_before name [] = false
seen_before name (s ∷ seen) = bytes_eq name s || seen_before name seen

abbrev pub fresh_policy : Bytes → Condition → CompiledPolicy
fresh_policy name cond = record {
  name = name;
  cond = cond;
  matches = 0;
  eval_errors = 0;
  warned = false;
}

unfoldable pub add_compiled : CompiledPolicy → Compiled → Compiled
add_compiled p (compiled ps) = compiled (p ∷ ps)
add_compiled p (refused e) = refused e

module _ (parse : Bytes → Option Condition) where
  unfoldable pub compile_parsed : Bytes → Option Condition → Compiled → Compiled
  unfolding add_compiled
  compile_parsed name none rest = refused (bad_condition name)
  compile_parsed name (some cond) rest = add_compiled (fresh_policy name cond) rest

  -- The loop of compilePolicies, with the names seen so far.
  unfoldable pub compile_loop : List Bytes → List Policy → Compiled
  unfolding compile_parsed seen_before
  compile_loop seen [] = compiled []
  compile_loop seen (p ∷ ps) =
      let rest = compile_loop (p.name ∷ seen) ps in
      if bytes_eq p.name []
      then refused empty_name
      else if seen_before p.name seen
      then refused (duplicate_name p.name)
      else compile_parsed p.name (parse p.condition) rest

-- ottlspan.NewParser gives a parser, or none for its error; with no policies it is not called.
unfoldable pub compile_policies : Option (Bytes → Option Condition) → List Policy → Compiled
compile_policies parser [] = compiled []
compile_policies none (p ∷ ps) = refused no_parser
compile_policies (some parse) (p ∷ ps) = compile_loop parse [] (p ∷ ps)

-- What one policy does with the answer of its condition, before the rest of the chain runs.
unfoldable pub note_answer : CompiledPolicy → Option Bool → CompiledPolicy
note_answer p none = record p { eval_errors = add_one p.eval_errors; warned = true }
note_answer p (some true) = record p { matches = add_one p.matches }
note_answer p (some false) = p

unfoldable pub is_match : Option Bool → Bool
is_match none = false
is_match (some m) = m

module _ (rs : ResourceSpans) (ss : ScopeSpans) (sp : Span) where
  -- Whether some policy matched, and the policies with their counters moved.
  unfoldable pub run_policies : List CompiledPolicy → Bool × List CompiledPolicy
  unfolding note_answer is_match
  run_policies [] = (false, [])
  run_policies (p ∷ ps) =
      let rest = run_policies ps in
      let p' = note_answer p (p.cond rs ss sp) in
      if is_match (p.cond rs ss sp) then (true, p' ∷ ps) else (rest.0, p' ∷ rest.1)
