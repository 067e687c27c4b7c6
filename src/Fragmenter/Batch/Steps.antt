-- ===== src/Fragmenter/Batch/Steps.antt =====
-- internal/fragmenter/fragmenter.go: the loops over the spans of a batch.
use mathlib.Core.Path.{subst}
use native.Mathlib.Decide.{ℕ_discrete}
use retrosampler.Prelude.{
  ℕ, zero, suc, ◌+◌, ◌^◌, ◌<◌, ◌≡◌, ◌≢◌, refl, sym, ap, ◌∙◌, arith, Bool, List, [], ◌∷◌, ◌++◌, map,
  Option, none, some, append-nil, append_assoc,
}
use retrosampler.Prelude.{
  ◌==◌, if◌then◌else◌, length, length-append, get_or, set_at, get_or-set_at, get_or-append_length,
  length-set_at, bytes_eq_iff,
}
use retrosampler.Prelude.Bytes.{Bytes}
use retrosampler.Shards.Assoc.{lookup}
use retrosampler.Fragmenter.Span.{Span}
use retrosampler.Fragmenter.Group.{ResourceSpans, ScopeSpans, SpanRef}
use retrosampler.Fragmenter.Batch.Defs.{
  Visit, Arena, ref_at, no_ref, new_ref, set_next, idx32, reason_of, join_group, detect_once,
  add_span, add_spans, no_groups,
}
use retrosampler.Fragmenter.Batch.Chains.{positions}
use retrosampler.Fragmenter.Batch.Grouped.{
  IsGrouped, first_reason, first_reason-append, old_group, idx32_id,
}
use retrosampler.Fragmenter.Batch.NewGroup.{new_group}

abbrev pub trace_of : Visit → Bytes
trace_of v = v.span.trace_id

-- The place of a span in the batch, as a ref has it.
abbrev pub Spot : Type 0
Spot = ℕ × ℕ × ℕ

abbrev pub spot : SpanRef → Spot
spot r = (r.rs, r.ss, r.sp)

abbrev pub spot_of : Visit → Spot
spot_of v = (idx32 v.i, idx32 v.j, idx32 v.k)

map-append {ℓ κ} :
    {A : Type ℓ} {B : Type κ} (f : A → B) (xs ys : List A) → map f (xs ++ ys) ≡ map f xs ++ map f ys
map-append f [] ys = refl
map-append f (x ∷ xs) ys = ap (λ r. f x ∷ r) (map-append f xs ys)

map-set_at :
    {A B : Type 0} (f : A → B) (other y : A) (i : ℕ) (xs : List A)
    → f y ≡ f (get_or other xs i)
    → map f (set_at i y xs) ≡ map f xs
map-set_at f other y i [] e = refl
map-set_at f other y zero (x ∷ xs) e = ap (λ h. h ∷ map f xs) e
map-set_at f other y (suc i) (x ∷ xs) e = ap (λ r. f x ∷ r) (map-set_at f other y i xs e)

module _ (detect : Option (ResourceSpans → ScopeSpans → Span → ℕ))
    (baseline : Option (Bytes → Bool)) where
  detect_once-IsGrouped :
      (xs : List Bytes) (ws : List Visit) (a : Arena) (v : Visit) (g : ℕ)
      → IsGrouped detect baseline xs ws a
      → g < length a.ids
      → get_or [] a.ids g ≡ trace_of v
      → IsGrouped detect baseline xs (ws ++ (v ∷ [])) (detect_once detect baseline v (a, g))
  unfolding detect_once
  detect_once-IsGrouped xs ws a v g h g_lt is_id =
      let mine : get_or 0 a.reasons g ≡ first_reason detect (get_or [] a.ids g) ws =
        h.verdicts g g_lt in
      let set : (i : ℕ)
          → get_or 0 (set_at g (reason_of detect v) a.reasons) i
            ≡ (if g == i then reason_of detect v else get_or 0 a.reasons i) =
        λ i.
          get_or-set_at 0 (reason_of detect v) a.reasons g i (omega (arith, g_lt, h.reasons_len)) in
      let other_trace : (j : Bytes)
          → trace_of v ≢ j
          → first_reason detect j (ws ++ (v ∷ [])) ≡ first_reason detect j ws =
        λ j apart.
          ground (arith, first_reason-append detect j ws v, bytes_eq_iff (trace_of v) j, apart) in
      record {
        len = h.len;
        few = h.few;
        heads_len = h.heads_len;
        tails_len = h.tails_len;
        reasons_len = ground (arith, h.reasons_len, length-set_at g (reason_of detect v) a.reasons);
        bases_len = h.bases_len;
        known = h.known;
        unknown = λ j f.
            let apart : trace_of v ≢ j = λ same.
              ground (arith, ap (λ k. lookup k a.groups) (is_id ∙ same), h.found g g_lt, f) in
            ((h.unknown j f).0, other_trace j apart ∙ (h.unknown j f).1);
        found = h.found;
        traces = h.traces;
        verdicts = λ i lt. elim (ℕ_discrete g i) [
          | yes here ↦
              subst
                (λ k.
                  get_or 0
                    (if get_or 0 a.reasons g == 0
                      then set_at g (reason_of detect v) a.reasons
                      else a.reasons)
                    k
                  ≡ first_reason detect (get_or [] a.ids k) (ws ++ (v ∷ [])))
                here
                (ground (
                  arith,
                  set g,
                  mine,
                  first_reason-append detect (get_or [] a.ids g) ws v,
                  bytes_eq_iff (trace_of v) (get_or [] a.ids g),
                  is_id,
                ))
          | no apart ↦
              let not_id : trace_of v ≢ get_or [] a.ids i = λ same. apart (
                ground (
                  arith,
                  h.found i lt,
                  h.found g g_lt,
                  ap (λ k. lookup k a.groups) (is_id ∙ same),
                )) in
              ground (arith, set i, apart, h.verdicts i lt, other_trace (get_or [] a.ids i) not_id)
        ];
        samples = h.samples;
      }

  -- The body of the innermost loop.
  add_span-cases :
      (xs : List Bytes) (ws : List Visit) (a : Arena) (v : Visit) (old : Option ℕ)
      → IsGrouped detect baseline xs ws a
      → length a.refs < 2 ^ 31
      → lookup (trace_of v) a.groups ≡ old
      → IsGrouped detect baseline (xs ++ (trace_of v ∷ [])) (ws ++ (v ∷ [])) (
          detect_once detect baseline v (
            join_group detect baseline
              (trace_of v)
              old
              (length a.refs)
              (record a { refs = a.refs ++ (new_ref v ∷ []) })))
  unfolding join_group new_ref
  add_span-cases xs ws a v none h small e =
      let g = length a.ids in
      let fits : idx32 g ≡ g = idx32_id g (omega (arith, small, h.few)) in
      let ids = a.ids ++ (trace_of v ∷ []) in
      detect_once-IsGrouped _ ws _ v (idx32 g)
        (new_group detect baseline xs ws a (new_ref v) (trace_of v) h refl small e)
        (omega (arith, fits, length-append a.ids (trace_of v ∷ [])))
        (ap (get_or [] ids) fits ∙ get_or-append_length [] (trace_of v) a.ids)
  add_span-cases xs ws a v (some g) h small e =
      let (lt, is_id) = h.known (trace_of v) g e in
      detect_once-IsGrouped _ ws _ v g
        (old_group detect baseline xs ws a (new_ref v) (trace_of v) g h refl e) lt is_id

  add_span-IsGrouped :
      (xs : List Bytes) (ws : List Visit) (a : Arena) (v : Visit)
      → IsGrouped detect baseline xs ws a
      → length a.refs < 2 ^ 31
      → IsGrouped detect baseline
          (xs ++ (trace_of v ∷ []))
          (ws ++ (v ∷ []))
          (add_span detect baseline v a)
  unfolding add_span
  add_span-IsGrouped xs ws a v h small =
      subst
        (λ r. IsGrouped detect baseline (xs ++ (trace_of v ∷ [])) (ws ++ (v ∷ [])) (
          detect_once detect baseline v (
            join_group detect baseline (trace_of v) (lookup (trace_of v) a.groups) r
              (record a { refs = a.refs ++ (new_ref v ∷ []) }))))
        (sym (idx32_id (length a.refs) small))
        (add_span-cases xs ws a v (lookup (trace_of v) a.groups) h small refl)

  add_spans-from :
      (vs : List Visit) (xs : List Bytes) (ws : List Visit) (a : Arena)
      → IsGrouped detect baseline xs ws a
      → length xs + length vs < 2 ^ 31
      → IsGrouped detect baseline
          (xs ++ map trace_of vs)
          (ws ++ vs)
          (add_spans detect baseline vs a)
  unfolding add_spans
  add_spans-from [] xs ws a h small =
      subst (λ x. IsGrouped detect baseline x (ws ++ []) a) (sym (append-nil xs))
        (subst (λ w. IsGrouped detect baseline xs w a) (sym (append-nil ws)) h)
  add_spans-from (v ∷ vs) xs ws a h small =
      let one = add_span-IsGrouped xs ws a v h (omega (arith, small, h.len)) in
      let rest =
        add_spans-from vs (xs ++ (trace_of v ∷ [])) (ws ++ (v ∷ [])) (add_span detect baseline v a)
          one (omega (arith, small, length-append xs (trace_of v ∷ []))) in
      subst
        (λ x. IsGrouped detect baseline x (ws ++ (v ∷ vs)) (add_spans detect baseline (v ∷ vs) a))
        (append_assoc xs (trace_of v ∷ []) (map trace_of vs))
        (subst
          (λ w.
            IsGrouped detect baseline ((xs ++ (trace_of v ∷ [])) ++ map trace_of vs) w
              (add_spans detect baseline (v ∷ vs) a))
          (append_assoc ws (v ∷ []) vs) rest)

  -- The groups of a whole batch.
  pub add_spans-IsGrouped :
      (vs : List Visit)
      → length vs < 2 ^ 31
      → IsGrouped detect baseline (map trace_of vs) vs (add_spans detect baseline vs no_groups)
  unfolding lookup positions first_reason
  add_spans-IsGrouped vs small =
      add_spans-from vs [] [] no_groups
        (record {
          len = refl;
          few = omega arith;
          heads_len = refl;
          tails_len = refl;
          reasons_len = refl;
          bases_len = refl;
          known = λ id g e. cc;
          unknown = λ id e. (refl, refl);
          found = λ g lt. absurd (omega (arith, lt));
          traces = λ g lt. absurd (omega (arith, lt));
          verdicts = λ g lt. absurd (omega (arith, lt));
          samples = λ g lt. absurd (omega (arith, lt));
        })
        (omega (arith, small))

  join_group-spots :
      (id : Bytes) (old : Option ℕ) (r : ℕ) (a : Arena)
      → map spot (join_group detect baseline id old r a).0.refs ≡ map spot a.refs
  unfolding join_group set_next
  join_group-spots id none r a = refl
  join_group-spots id (some g) r a =
      map-set_at spot no_ref (record (ref_at a.refs (get_or 0 a.tails g)) { next = some r })
        (get_or 0 a.tails g) a.refs refl

  detect_once-refs : (v : Visit) (p : Arena × ℕ) → (detect_once detect baseline v p).refs ≡ p.0.refs
  unfolding detect_once
  detect_once-refs v (a, g) = refl

  -- The refs stand for the spans in the order of the loops.
  pub add_spans-spots :
      (vs : List Visit) (a : Arena)
      → map spot (add_spans detect baseline vs a).refs ≡ map spot a.refs ++ map spot_of vs
  unfolding add_spans add_span new_ref
  add_spans-spots [] a = sym (append-nil (map spot a.refs))
  add_spans-spots (v ∷ vs) a =
      let a1 = record a { refs = a.refs ++ (new_ref v ∷ []) } in
      let joined =
        join_group detect baseline (trace_of v) (lookup (trace_of v) a.groups)
          (idx32 (length a.refs)) a1 in
      add_spans-spots vs (add_span detect baseline v a)
      ∙ ap (λ r. map spot r ++ map spot_of vs) (detect_once-refs v joined)
      ∙ ap (λ r. r ++ map spot_of vs)
          (join_group-spots (trace_of v) _ _ a1 ∙ map-append spot a.refs (new_ref v ∷ []))
      ∙ append_assoc (map spot a.refs) (spot_of v ∷ []) (map spot_of vs)
