-- ===== src/Fragmenter/Batch/Fragments.antt =====
-- internal/fragmenter/fragmenter.go: what the callback of Fragment gets.
use mathlib.Core.Path.{subst}
use retrosampler.Prelude.{
  ℕ, zero, suc, ◌+◌, ◌^◌, ◌<◌, ◌≡◌, refl, sym, ap, ◌∙◌, arith, Bool, false, List, [], ◌∷◌, map,
  Option, none, some,
}
use retrosampler.Prelude.{length, get_or}
use retrosampler.Prelude.Bytes.{Bytes}
use retrosampler.Shards.Assoc.{lookup}
use retrosampler.Fragmenter.Span.{Span}
use retrosampler.Fragmenter.Group.{ResourceSpans, ScopeSpans, Traces, SpanRef, put_group}
use retrosampler.Fragmenter.Batch.Defs.{
  Visit, Arena, Fragment, ref_at, base_of, add_spans, no_groups, flat_of, emit, fragment, visits,
}
use retrosampler.Fragmenter.Batch.Chains.{positions, length-positions, flatten-Chain}
use retrosampler.Fragmenter.Batch.Grouped.{IsGrouped, first_reason}
use retrosampler.Fragmenter.Batch.Steps.{
  trace_of, spot, spot_of, add_spans-IsGrouped, add_spans-spots,
}
use retrosampler.Fragmenter.Batch.Picked.{
  picked, no_spot, no_fragment, map_spot, map-positions, positions-occurs, length-map,
}

length-emit :
    (td : Traces) (a : Arena) (g : ℕ) (ids : List Bytes) → length (emit td a g ids) ≡ length ids
unfolding emit
length-emit td a g [] = refl
length-emit td a g (id ∷ ids) = ap suc (length-emit td a (g + 1) ids)

emit-at :
    (td : Traces) (a : Arena) (g : ℕ) (ids : List Bytes) (n : ℕ)
    → n < length ids
    → get_or no_fragment (emit td a g ids) n ≡ record {
      id = get_or [] ids n;
      frag = put_group td [] (flat_of a (g + n));
      reason = get_or 0 a.reasons (g + n);
      base = get_or false a.bases (g + n);
    }
unfolding emit
emit-at td a g [] n lt = absurd (omega (arith, lt))
emit-at td a g (id ∷ ids) zero lt =
    ap
      (λ k. record {
        id = id;
        frag = put_group td [] (flat_of a k);
        reason = get_or 0 a.reasons k;
        base = get_or false a.bases k;
      })
      (omega arith)
emit-at td a g (id ∷ ids) (suc n) lt =
    emit-at td a (g + 1) ids n (omega (arith, lt))
    ∙ ap
        (λ k. record {
          id = get_or [] ids n;
          frag = put_group td [] (flat_of a k);
          reason = get_or 0 a.reasons k;
          base = get_or false a.bases k;
        })
        (omega arith)

module _ (detect : Option (ResourceSpans → ScopeSpans → Span → ℕ))
    (baseline : Option (Bytes → Bool)) (td : Traces) where
  -- A fragment is that of the spans of its trace, in their order, with the trace's verdicts.
  pub record IsFragment (f : Fragment) : Type 0 where
    pub refs : List SpanRef
    pub spots : map spot refs ≡ map spot_of (picked f.id (visits td))
    pub bytes : f.frag ≡ put_group td [] refs
    pub verdict : f.reason ≡ first_reason detect f.id (visits td)
    pub sample : f.base ≡ base_of baseline f.id

  flat-IsFragment :
      (vs : List Visit) (a : Arena) (g : ℕ)
      → IsGrouped detect baseline (map trace_of vs) vs a
      → map spot a.refs ≡ map spot_of vs
      → g < length a.ids
      → map spot (flat_of a g) ≡ map spot_of (picked (get_or [] a.ids g) vs)
  flat-IsFragment vs a g h same lt =
      let tr = h.traces g lt in
      let fuel : length tr.others < length a.refs = omega (
        arith,
        ap length tr.whole,
        length-positions (get_or [] a.ids g) (map trace_of vs),
        h.len,
      ) in
      ap (map spot)
        (flatten-Chain (length a.refs) tr.way tr.end fuel ∙ ap (map (ref_at a.refs)) (sym tr.whole))
      ∙ map_spot a.refs (positions (get_or [] a.ids g) (map trace_of vs))
      ∙ ap (λ s. map (get_or no_spot s) (positions (get_or [] a.ids g) (map trace_of vs))) same
      ∙ map-positions (get_or [] a.ids g) vs

  abbrev grouped : Arena
  grouped = add_spans detect baseline (visits td) no_groups

  abbrev fragments : List Fragment
  fragments = fragment detect baseline td

  fragment-at :
      (n : ℕ)
      → n < length grouped.ids
      → get_or no_fragment fragments n ≡ record {
        id = get_or [] grouped.ids n;
        frag = put_group td [] (flat_of grouped n);
        reason = get_or 0 grouped.reasons n;
        base = get_or false grouped.bases n;
      }
  unfolding fragment
  fragment-at n lt =
      emit-at td grouped 0 grouped.ids n lt
      ∙ ap
          (λ k. record {
            id = get_or [] grouped.ids n;
            frag = put_group td [] (flat_of grouped k);
            reason = get_or 0 grouped.reasons k;
            base = get_or false grouped.bases k;
          })
          (omega arith)

  length-fragments : length fragments ≡ length grouped.ids
  unfolding fragment
  length-fragments = length-emit td grouped 0 grouped.ids

  -- The id of every span has a group, and its fragment.
  occurring :
      (k : ℕ)
      → k < length (visits td)
      → IsGrouped detect baseline (map trace_of (visits td)) (visits td) grouped
      → let id = get_or [] (map trace_of (visits td)) k in
        (o : Option ℕ)
        → lookup id grouped.groups ≡ o
        → (n : ℕ) × (n < length fragments) × ((get_or no_fragment fragments n).id ≡ id)
  occurring k lt h none e = absurd (
      positions-occurs _ (map trace_of (visits td)) k
        (omega (arith, lt, length-map trace_of (visits td))) refl (h.unknown _ e).0)
  occurring k lt h (some n) e =
      let (n_lt, is_id) = h.known _ n e in
      (n, omega (arith, n_lt, length-fragments), ap (λ f. f.id) (fragment-at n n_lt) ∙ is_id)

  -- For a batch of fewer than 2 ^ 31 spans, the callback gets for each trace one fragment: no two have the same
  -- id, the id of every span has one, and each is the encoding of exactly the spans of its trace, in the order
  -- of the batch, with the first reason that detect gives for them and the baseline's verdict on the id.
  pub fragment_lem :
      length (visits td) < 2 ^ 31
      → let fs = fragments in
        ((n : ℕ) → n < length fs → IsFragment (get_or no_fragment fs n))
        × (((m n : ℕ)
              → m < length fs
              → n < length fs
              → (get_or no_fragment fs m).id ≡ (get_or no_fragment fs n).id
              → m ≡ n)
            × ((k : ℕ)
                → k < length (visits td)
                → (n : ℕ) × (n < length fs)
                  × ((get_or no_fragment fs n).id ≡ get_or [] (map trace_of (visits td)) k)))
  fragment_lem small =
      let h = add_spans-IsGrouped detect baseline (visits td) small in
      let same : map spot grouped.refs ≡ map spot_of (visits td) =
        add_spans-spots detect baseline (visits td) no_groups in
      let inside : (n : ℕ) → n < length fragments → n < length grouped.ids =
        λ n lt. omega (arith, lt, length-fragments) in
      let id_at : (n : ℕ)
          → n < length grouped.ids
          → (get_or no_fragment fragments n).id ≡ get_or [] grouped.ids n =
        λ n lt. ap (λ f. f.id) (fragment-at n lt) in
      (
        (λ n lt.
            let n_lt = inside n lt in
            subst IsFragment (sym (fragment-at n n_lt)) (record {
              refs = flat_of grouped n;
              spots = flat-IsFragment (visits td) grouped n h same n_lt;
              bytes = refl;
              verdict = h.verdicts n n_lt;
              sample = h.samples n n_lt;
            })),
        (
          (λ m n m_lt n_lt e.
              let ids = sym (id_at m (inside m m_lt)) ∙ e ∙ id_at n (inside n n_lt) in
              ground (
                arith,
                h.found m (inside m m_lt),
                h.found n (inside n n_lt),
                ap (λ k. lookup k grouped.groups) ids,
              )),
          λ k lt.
              occurring k lt h (lookup (get_or [] (map trace_of (visits td)) k) grouped.groups)
                refl,
        ),
      )
