-- ===== src/Tests/BatchRuns.antt =====
-- internal/fragmenter/fragmenter.go on a batch of three spans of two traces.
use retrosampler.Prelude.{
  ℕ, ◌^◌, ◌<◌, ◌≡◌, arith, Bool, true, [], ◌∷◌, map, Option, some, length, get_or,
}
use retrosampler.Prelude.Bytes.{Bytes}
use retrosampler.Fragmenter.Span.{Span}
use retrosampler.Fragmenter.Group.{
  ResourceSpans, ScopeSpans, Traces, no_span, no_scope_spans, no_resource_spans,
}
use retrosampler.Fragmenter.Batch.Defs.{fragment, visits}
use retrosampler.Fragmenter.Batch.Steps.{trace_of}
use retrosampler.Fragmenter.Batch.Picked.{no_fragment}
use retrosampler.Fragmenter.Batch.Fragments.{IsFragment, fragment_lem}

abbrev span_of : ℕ → Span
span_of n = record no_span { trace_id = n ∷ []; start_timestamp = n }

abbrev batch : Traces
batch =
    record no_resource_spans {
      scope_spans = record no_scope_spans { spans = span_of 7 ∷ span_of 8 ∷ [] } ∷ [];
    }
    ∷ record no_resource_spans {
      scope_spans = record no_scope_spans { spans = span_of 7 ∷ [] } ∷ [];
    }
    ∷ []

abbrev detect_start : Option (ResourceSpans → ScopeSpans → Span → ℕ)
detect_start = some (λ rs ss span. span.start_timestamp)

abbrev baseline_all : Option (Bytes → Bool)
baseline_all = some (λ id. true)

few_spans : length (visits batch) < 2 ^ 31
unfolding visits
few_spans = omega arith

fragment_lem_example :
    let fs = fragment detect_start baseline_all batch in
    ((n : ℕ) → n < length fs → IsFragment detect_start baseline_all batch (get_or no_fragment fs n))
    × (((m n : ℕ)
          → m < length fs
          → n < length fs
          → (get_or no_fragment fs m).id ≡ (get_or no_fragment fs n).id
          → m ≡ n)
        × ((k : ℕ)
            → k < length (visits batch)
            → (n : ℕ) × (n < length fs)
              × ((get_or no_fragment fs n).id ≡ get_or [] (map trace_of (visits batch)) k)))
fragment_lem_example = fragment_lem detect_start baseline_all batch few_spans
