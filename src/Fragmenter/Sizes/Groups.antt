-- ===== src/Fragmenter/Sizes/Groups.antt =====
-- internal/fragmenter/spanenc.go: the size of a trace's fragment, and the runs that it is written in.
use retrosampler.Prelude.{ℕ, zero, suc, ◌+◌, ◌*◌, ◌≡◌, refl, arith, List, [], ◌∷◌}
use retrosampler.Prelude.{length, All}
use retrosampler.Prelude.Bytes.{Bytes}
use retrosampler.Fragmenter.Proto.{msg}
use retrosampler.Fragmenter.Span.{
  put_span, size_span, put_resource, size_resource, put_scope, size_scope,
}
use retrosampler.Fragmenter.Group.{
  ScopeSpans, ResourceSpans, Traces, SpanRef, Run, run_refs, get_at,
}
use retrosampler.Fragmenter.Group.{no_span, no_scope_spans, no_resource_spans, runs_by}
use retrosampler.Fragmenter.Group.{
  span_at, size_spans, put_spans, size_ss_run, put_ss_run, scope_at, size_ss_runs,
}
use retrosampler.Fragmenter.Group.{
  put_ss_runs, size_rs_run, put_rs_run, resource_at, size_rs_runs, put_rs_runs,
}
use retrosampler.Fragmenter.Group.{size_group, put_group}
use retrosampler.Fragmenter.Sizes.Scalars.{length-msg, length-str}
use retrosampler.Fragmenter.Sizes.Attrs.{empty_bytes_pairs}
use retrosampler.Fragmenter.Sizes.Spans.{
  HasIdSizes, empty_bytes_span, length-put_span, length-put_resource, length-put_scope,
}

-- Every span of a batch has ids of Go's sizes.
abbrev pub AllSpans : Traces → Type 0
AllSpans td = All (λ rs. All (λ ss. All HasIdSizes ss.spans) rs.scope_spans) td

All-get_at {ℓ κ} :
    {A : Type ℓ} (P : A → Type κ) (other : A) (xs : List A) (i : ℕ)
    → P other
    → All P xs
    → P (get_at other xs i)
unfolding get_at
All-get_at P other [] i h all = h
All-get_at P other (x ∷ xs) zero h all = all.0
All-get_at P other (x ∷ xs) (suc i) h all = All-get_at P other xs i h all.1

-- The empty byte strings in what refs name, run by run.
module _ (ss : ScopeSpans) where
  abbrev pub empty_bytes_spans : List SpanRef → ℕ
  empty_bytes_spans [] = 0
  empty_bytes_spans (r ∷ refs) = empty_bytes_span (span_at ss r) + empty_bytes_spans refs

  abbrev pub empty_bytes_ss : List SpanRef → ℕ
  empty_bytes_ss refs = empty_bytes_pairs ss.scope.attributes + empty_bytes_spans refs

module _ (rs : ResourceSpans) where
  abbrev pub empty_bytes_ss_runs : List Run → ℕ
  empty_bytes_ss_runs [] = 0
  empty_bytes_ss_runs (run ∷ runs) =
      empty_bytes_ss (scope_at rs run) (run_refs run) + empty_bytes_ss_runs runs

  abbrev pub empty_bytes_rs : List SpanRef → ℕ
  empty_bytes_rs refs =
      empty_bytes_pairs rs.resource.attributes + empty_bytes_ss_runs (runs_by (λ r. r.ss) refs)

module _ (td : Traces) where
  abbrev empty_bytes_rs_runs : List Run → ℕ
  empty_bytes_rs_runs [] = 0
  empty_bytes_rs_runs (run ∷ runs) =
      empty_bytes_rs (resource_at td run) (run_refs run) + empty_bytes_rs_runs runs

  unfoldable pub empty_bytes_group : List SpanRef → ℕ
  empty_bytes_group refs = empty_bytes_rs_runs (runs_by (λ r. r.rs) refs)

module _ (ss : ScopeSpans) (ids : All HasIdSizes ss.spans) where
  span_at-HasIdSizes : (r : SpanRef) → HasIdSizes (span_at ss r)
  unfolding span_at
  span_at-HasIdSizes r = All-get_at HasIdSizes no_span ss.spans r.sp (refl, refl, refl, tt) ids

  length-put_spans :
      (e : Bytes) (refs : List SpanRef)
      → length (put_spans ss e refs) + 2 * empty_bytes_spans ss refs ≡ length e + size_spans ss refs
  unfolding put_spans size_spans
  length-put_spans e [] = omega arith
  length-put_spans e (r ∷ refs) =
      let sp = span_at ss r in
      let e1 = msg e 2 (size_span sp) in
      omega (
        arith,
        length-msg e 2 (omega arith) (size_span sp),
        length-put_span e1 sp (span_at-HasIdSizes r),
        length-put_spans (put_span e1 sp) refs,
      )

  length-put_ss_run :
      (e : Bytes) (refs : List SpanRef)
      → length (put_ss_run ss e refs) + 2 * empty_bytes_ss ss refs ≡ length e + size_ss_run ss refs
  unfolding put_ss_run size_ss_run
  length-put_ss_run e refs =
      let e1 = msg e 1 (size_scope ss.scope) in
      let e2 = put_scope e1 ss.scope in
      omega (
        arith,
        length-msg e 1 (omega arith) (size_scope ss.scope),
        length-put_scope e1 ss.scope,
        length-put_spans e2 refs,
        length-str (put_spans ss e2 refs) 3 (omega arith) ss.schema_url,
      )

module _ (rs : ResourceSpans) (ids : All (λ ss. All HasIdSizes ss.spans) rs.scope_spans) where
  scope_at-ids : (run : Run) → All HasIdSizes (scope_at rs run).spans
  unfolding scope_at
  scope_at-ids run =
      All-get_at (λ ss. All HasIdSizes ss.spans) no_scope_spans rs.scope_spans run.first.ss tt ids

  length-put_ss_runs :
      (e : Bytes) (runs : List Run)
      → length (put_ss_runs rs e runs) + 2 * empty_bytes_ss_runs rs runs
        ≡ length e + size_ss_runs rs runs
  unfolding put_ss_runs size_ss_runs
  length-put_ss_runs e [] = omega arith
  length-put_ss_runs e (run ∷ runs) =
      let ss = scope_at rs run in
      let size = size_ss_run ss (run_refs run) in
      let e1 = msg e 2 size in
      omega (
        arith,
        length-msg e 2 (omega arith) size,
        length-put_ss_run ss (scope_at-ids run) e1 (run_refs run),
        length-put_ss_runs (put_ss_run ss e1 (run_refs run)) runs,
      )

  length-put_rs_run :
      (e : Bytes) (refs : List SpanRef)
      → length (put_rs_run rs e refs) + 2 * empty_bytes_rs rs refs ≡ length e + size_rs_run rs refs
  unfolding put_rs_run size_rs_run
  length-put_rs_run e refs =
      let e1 = msg e 1 (size_resource rs.resource) in
      let e2 = put_resource e1 rs.resource in
      let runs = runs_by (λ r. r.ss) refs in
      omega (
        arith,
        length-msg e 1 (omega arith) (size_resource rs.resource),
        length-put_resource e1 rs.resource,
        length-put_ss_runs e2 runs,
        length-str (put_ss_runs rs e2 runs) 3 (omega arith) rs.schema_url,
      )

module _ (td : Traces) (ids : AllSpans td) where
  resource_at-ids :
      (run : Run) → All (λ ss. All HasIdSizes ss.spans) (resource_at td run).scope_spans
  unfolding resource_at
  resource_at-ids run =
      All-get_at (λ rs. All (λ ss. All HasIdSizes ss.spans) rs.scope_spans) no_resource_spans td
        run.first.rs tt ids

  length-put_rs_runs :
      (e : Bytes) (runs : List Run)
      → length (put_rs_runs td e runs) + 2 * empty_bytes_rs_runs td runs
        ≡ length e + size_rs_runs td runs
  unfolding put_rs_runs size_rs_runs
  length-put_rs_runs e [] = omega arith
  length-put_rs_runs e (run ∷ runs) =
      let rs = resource_at td run in
      let size = size_rs_run rs (run_refs run) in
      let e1 = msg e 1 size in
      omega (
        arith,
        length-msg e 1 (omega arith) size,
        length-put_rs_run rs (resource_at-ids run) e1 (run_refs run),
        length-put_rs_runs (put_rs_run rs e1 (run_refs run)) runs,
      )

  -- For a batch whose ids have the sizes of Go's arrays, putGroup writes as many bytes as sizeGroup
  -- says, less two for each empty byte string among the attributes that it writes. Without such a
  -- string the two agree, and with one the fragment is shorter than its length prefixes announce.
  pub length-put_group :
      (e : Bytes) (refs : List SpanRef)
      → length (put_group td e refs) + 2 * empty_bytes_group td refs ≡ length e + size_group td refs
  unfolding put_group size_group empty_bytes_group
  length-put_group e refs = length-put_rs_runs e (runs_by (λ r. r.rs) refs)
