-- ===== src/Fragmenter/Batch/Defs.antt =====
-- internal/fragmenter/fragmenter.go: Fragment, over the arena of refs that it clears at entry.
use retrosampler.Prelude.{
  ℕ, zero, suc, ◌+◌, ◌-◌, ◌^◌, Bool, false, List, [], ◌∷◌, ◌++◌, Option, none, some,
}
use retrosampler.Prelude.{ltb, ◌==◌, if◌then◌else◌, length, get_or, set_at}
use retrosampler.Prelude.Bytes.{Bytes}
use retrosampler.Shards.Assoc.{lookup, insert}
use retrosampler.Fragmenter.Span.{Span}
use retrosampler.Fragmenter.Group.{ResourceSpans, ScopeSpans, Traces, SpanRef, put_group}

unfoldable pub idx32 : ℕ → ℕ
idx32 n = if ltb (2 ^ 31 - 1) n then 2 ^ 31 - 1 else n

-- A span where the loops come to it: the three indices, and its owners.
pub record Visit : Type 0 where
  pub i : ℕ
  pub j : ℕ
  pub k : ℕ
  pub rs : ResourceSpans
  pub ss : ScopeSpans
  pub span : Span

-- The three loops, from an index on, over what is left of the slice.
unfoldable pub visit_spans : ResourceSpans → ScopeSpans → ℕ → ℕ → ℕ → List Span → List Visit
visit_spans rs ss i j k [] = []
visit_spans rs ss i j k (span ∷ spans) =
    record { i = i; j = j; k = k; rs = rs; ss = ss; span = span }
    ∷ visit_spans rs ss i j (k + 1) spans

unfoldable pub visit_scopes : ResourceSpans → ℕ → ℕ → List ScopeSpans → List Visit
unfolding visit_spans
visit_scopes rs i j [] = []
visit_scopes rs i j (ss ∷ sss) = visit_spans rs ss i j 0 ss.spans ++ visit_scopes rs i (j + 1) sss

unfoldable pub visit_resources : ℕ → List ResourceSpans → List Visit
unfolding visit_scopes
visit_resources i [] = []
visit_resources i (rs ∷ rss) = visit_scopes rs i 0 rs.scope_spans ++ visit_resources (i + 1) rss

unfoldable pub visits : Traces → List Visit
unfolding visit_resources
visits td = visit_resources 0 td

pub record Arena : Type 0 where
  pub groups : List (Bytes × ℕ)
  pub ids : List Bytes
  pub heads : List ℕ
  pub tails : List ℕ
  pub reasons : List ℕ
  pub bases : List Bool
  pub refs : List SpanRef

abbrev pub no_groups : Arena
no_groups = record {
  groups = [];
  ids = [];
  heads = [];
  tails = [];
  reasons = [];
  bases = [];
  refs = [];
}

abbrev pub no_ref : SpanRef
no_ref = record { rs = 0; ss = 0; sp = 0; next = none }

abbrev pub ref_at : List SpanRef → ℕ → SpanRef
ref_at refs i = get_or no_ref refs i

unfoldable pub new_ref : Visit → SpanRef
new_ref v = record { rs = idx32 v.i; ss = idx32 v.j; sp = idx32 v.k; next = none }

-- `f.refs[t].next = r`.
unfoldable pub set_next : ℕ → ℕ → List SpanRef → List SpanRef
set_next t r refs = set_at t (record (ref_at refs t) { next = some r }) refs

-- `baseline != nil && baseline(id)`.
unfoldable pub base_of : Option (Bytes → Bool) → Bytes → Bool
base_of none id = false
base_of (some baseline) id = baseline id

-- Of a span, what detect answers, and 0 where it is nil.
unfoldable pub reason_of : Option (ResourceSpans → ScopeSpans → Span → ℕ) → Visit → ℕ
reason_of none v = 0
reason_of (some detect) v = detect v.rs v.ss v.span

module _ (detect : Option (ResourceSpans → ScopeSpans → Span → ℕ))
    (baseline : Option (Bytes → Bool)) where
  -- A trace that has no group yet, or the link from its last ref: the arena and the group's index.
  unfoldable pub join_group : Bytes → Option ℕ → ℕ → Arena → Arena × ℕ
  unfolding set_next base_of
  join_group id none r a =
      let g = idx32 (length a.ids) in
      (
        record a {
          groups = insert id g a.groups;
          ids = a.ids ++ (id ∷ []);
          heads = a.heads ++ (r ∷ []);
          tails = a.tails ++ (r ∷ []);
          reasons = a.reasons ++ (0 ∷ []);
          bases = a.bases ++ (base_of baseline id ∷ []);
        },
        g,
      )
  join_group id (some g) r a =
      (record a { refs = set_next (get_or 0 a.tails g) r a.refs; tails = set_at g r a.tails }, g)

  -- Detection is skipped once the group has a reason.
  unfoldable pub detect_once : Visit → Arena × ℕ → Arena
  unfolding reason_of
  detect_once v (a, g) = record a {
    reasons =
        if get_or 0 a.reasons g == 0 then set_at g (reason_of detect v) a.reasons else a.reasons;
  }

  -- The body of the innermost loop.
  unfoldable pub add_span : Visit → Arena → Arena
  unfolding new_ref join_group detect_once
  add_span v a = detect_once v (
      join_group v.span.trace_id (lookup v.span.trace_id a.groups) (idx32 (length a.refs))
        (record a { refs = a.refs ++ (new_ref v ∷ []) }))

  unfoldable pub add_spans : List Visit → Arena → Arena
  unfolding add_span
  add_spans [] a = a
  add_spans (v ∷ vs) a = add_spans vs (add_span v a)

-- `for r := f.heads[g]; r >= 0; r = f.refs[r].next`, for at most `fuel` refs.
unfoldable pub flatten : ℕ → List SpanRef → Option ℕ → List SpanRef
flatten zero refs r = []
flatten (suc fuel) refs none = []
flatten (suc fuel) refs (some r) = ref_at refs r ∷ flatten fuel refs (ref_at refs r).next

abbrev pub flat_of : Arena → ℕ → List SpanRef
flat_of a g = flatten (length a.refs) a.refs (some (get_or 0 a.heads g))

-- What the callback gets of each group: the trace, its fragment, its reason and its baseline verdict.
pub record Fragment : Type 0 where
  pub id : Bytes
  pub frag : Bytes
  pub reason : ℕ
  pub base : Bool

unfoldable pub emit : Traces → Arena → ℕ → List Bytes → List Fragment
unfolding flatten
emit td a g [] = []
emit td a g (id ∷ ids) =
    record {
      id = id;
      frag = put_group td [] (flat_of a g);
      reason = get_or 0 a.reasons g;
      base = get_or false a.bases g;
    }
    ∷ emit td a (g + 1) ids

unfoldable pub fragment :
    Option (ResourceSpans → ScopeSpans → Span → ℕ) → Option (Bytes → Bool) → Traces → List Fragment
unfolding add_spans emit visits
fragment detect baseline td =
    let a = add_spans detect baseline (visits td) no_groups in emit td a 0 a.ids
