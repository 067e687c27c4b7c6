-- ===== src/Fragmenter/Group.antt =====
-- internal/fragmenter/spanenc.go: one trace's fragment, a TracesData of the spans that refs name.
use retrosampler.Prelude.{ℕ, zero, suc, ◌+◌, List, [], ◌∷◌, Option, ◌==◌, if◌then◌else◌}
use retrosampler.Prelude.Bytes.{Bytes}
use retrosampler.Prelude.Ints.{pos}
use retrosampler.Fragmenter.Proto.{str, msg, size_len, size_str}
use retrosampler.Fragmenter.Value.{Pairs}
use retrosampler.Fragmenter.Span.{Span, Resource, Scope, size_span, put_span}
use retrosampler.Fragmenter.Span.{size_resource, put_resource, size_scope, put_scope}

pub record ScopeSpans : Type 0 where
  pub scope : Scope
  pub spans : List Span
  pub schema_url : Bytes

pub record ResourceSpans : Type 0 where
  pub resource : Resource
  pub scope_spans : List ScopeSpans
  pub schema_url : Bytes

abbrev pub Traces : Type 0
Traces = List ResourceSpans

-- `next` is none where the source has -1.
pub record SpanRef : Type 0 where
  pub rs : ℕ
  pub ss : ℕ
  pub sp : ℕ
  pub next : Option ℕ

-- The `At` of a pdata slice, which panics out of range; the refs of a batch are in range. What stands
-- in for the panic is `other`.
unfoldable pub get_at {ℓ} : {A : Type ℓ} → A → List A → ℕ → A
get_at other [] i = other
get_at other (x ∷ xs) zero = x
get_at other (x ∷ xs) (suc i) = get_at other xs i

abbrev pub zeros : ℕ → Bytes
zeros zero = []
zeros (suc n) = 0 ∷ zeros n

abbrev pub no_span : Span
no_span = record {
  trace_id = zeros 16;
  span_id = zeros 8;
  parent_span_id = zeros 8;
  trace_state = [];
  name = [];
  kind = pos 0;
  start_timestamp = 0;
  end_timestamp = 0;
  attributes = Pairs.end;
  dropped_attributes = 0;
  events = [];
  dropped_events = 0;
  links = [];
  dropped_links = 0;
  status = record { message = []; code = pos 0 };
  flags = 0;
}

abbrev pub no_scope_spans : ScopeSpans
no_scope_spans = record {
  scope = record { name = []; version = []; attributes = Pairs.end; dropped_attributes = 0 };
  spans = [];
  schema_url = [];
}

abbrev pub no_resource_spans : ResourceSpans
no_resource_spans = record {
  resource = record { attributes = Pairs.end; dropped_attributes = 0 };
  scope_spans = [];
  schema_url = [];
}

-- A run of refs is never empty: its first ref and the rest.
pub record Run : Type 0 where
  pub first : SpanRef
  pub others : List SpanRef

unfoldable pub add_to_runs : (SpanRef → ℕ) → SpanRef → List Run → List Run
add_to_runs field r [] = record { first = r; others = [] } ∷ []
add_to_runs field r (run ∷ runs) =
    if field run.first == field r
    then record { first = r; others = run.first ∷ run.others } ∷ runs
    else record { first = r; others = [] } ∷ (run ∷ runs)

-- The loops `for i := 0; i < len(refs)` with `for j < len(refs) && refs[j].x == refs[i].x`: the maximal
-- runs of refs that agree in one field.
unfoldable pub runs_by : (SpanRef → ℕ) → List SpanRef → List Run
unfolding add_to_runs
runs_by field [] = []
runs_by field (r ∷ refs) = add_to_runs field r (runs_by field refs)

abbrev pub run_refs : Run → List SpanRef
run_refs run = run.first ∷ run.others

module _ (ss : ScopeSpans) where
  unfoldable pub span_at : SpanRef → Span
  unfolding get_at
  span_at r = get_at no_span ss.spans r.sp

  unfoldable pub size_spans : List SpanRef → ℕ
  size_spans [] = 0
  size_spans (r ∷ refs) = size_len 2 (size_span (span_at r)) + size_spans refs

  unfoldable pub put_spans : Bytes → List SpanRef → Bytes
  put_spans e [] = e
  put_spans e (r ∷ refs) = put_spans (put_span (msg e 2 (size_span (span_at r))) (span_at r)) refs

  unfoldable pub size_ss_run : List SpanRef → ℕ
  size_ss_run refs = size_len 1 (size_scope ss.scope) + size_spans refs + size_str 3 ss.schema_url

  -- The body of the innermost loop of putGroup, behind its first msg.
  unfoldable pub put_ss_run : Bytes → List SpanRef → Bytes
  put_ss_run e refs =
      let e1 = put_scope (msg e 1 (size_scope ss.scope)) ss.scope in
      str (put_spans e1 refs) 3 ss.schema_url

module _ (rs : ResourceSpans) where
  unfoldable pub scope_at : Run → ScopeSpans
  unfolding get_at
  scope_at run = get_at no_scope_spans rs.scope_spans run.first.ss

  unfoldable pub size_ss_runs : List Run → ℕ
  size_ss_runs [] = 0
  size_ss_runs (run ∷ runs) =
      size_len 2 (size_ss_run (scope_at run) (run_refs run)) + size_ss_runs runs

  unfoldable pub put_ss_runs : Bytes → List Run → Bytes
  put_ss_runs e [] = e
  put_ss_runs e (run ∷ runs) =
      put_ss_runs
        (put_ss_run (scope_at run) (msg e 2 (size_ss_run (scope_at run) (run_refs run)))
          (run_refs run))
        runs

  unfoldable pub size_rs_run : List SpanRef → ℕ
  size_rs_run refs =
      size_len 1 (size_resource rs.resource)
      + size_ss_runs (runs_by (λ r. r.ss) refs)
      + size_str 3 rs.schema_url

  unfoldable pub put_rs_run : Bytes → List SpanRef → Bytes
  put_rs_run e refs =
      let e1 = put_resource (msg e 1 (size_resource rs.resource)) rs.resource in
      str (put_ss_runs e1 (runs_by (λ r. r.ss) refs)) 3 rs.schema_url

module _ (td : Traces) where
  unfoldable pub resource_at : Run → ResourceSpans
  unfolding get_at
  resource_at run = get_at no_resource_spans td run.first.rs

  unfoldable pub size_rs_runs : List Run → ℕ
  size_rs_runs [] = 0
  size_rs_runs (run ∷ runs) =
      size_len 1 (size_rs_run (resource_at run) (run_refs run)) + size_rs_runs runs

  unfoldable pub put_rs_runs : Bytes → List Run → Bytes
  put_rs_runs e [] = e
  put_rs_runs e (run ∷ runs) =
      put_rs_runs
        (put_rs_run (resource_at run) (msg e 1 (size_rs_run (resource_at run) (run_refs run)))
          (run_refs run))
        runs

  unfoldable pub size_group : List SpanRef → ℕ
  size_group refs = size_rs_runs (runs_by (λ r. r.rs) refs)

  unfoldable pub put_group : Bytes → List SpanRef → Bytes
  put_group e refs = put_rs_runs e (runs_by (λ r. r.rs) refs)
