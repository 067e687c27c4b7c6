-- ===== src/Fragmenter/Batch/Grouped.antt =====
-- internal/fragmenter/fragmenter.go: the body of the loops keeps the groups.
use native.Mathlib.Decide.{ℕ_discrete}
use retrosampler.Prelude.{
  ℕ, ◌+◌, ◌^◌, ◌<◌, ◌≤◌, ◌≡◌, ◌≢◌, refl, sym, ap, ◌∙◌, arith, Bool, false, List, [], ◌∷◌, ◌++◌,
  Option, none, some, append-nil,
}
use retrosampler.Prelude.{
  Bool-cases, inl, inr, ◌==◌, if◌then◌else◌, length, length-append, get_or, set_at, get_or-set_at,
  get_or-append_lt, length-set_at, bytes_eq, bytes_eq→eq,
}
use retrosampler.Prelude.Bytes.{Bytes}
use retrosampler.Shards.Assoc.{lookup}
use retrosampler.Fragmenter.Span.{Span}
use retrosampler.Fragmenter.Group.{ResourceSpans, ScopeSpans, SpanRef}
use retrosampler.Fragmenter.Batch.Defs.{
  Visit, Arena, no_ref, set_next, idx32, base_of, reason_of, join_group,
}
use retrosampler.Fragmenter.Batch.Chains.{positions, positions-append}
use retrosampler.Fragmenter.Batch.Groups.{
  IsTrace, IsTrace-at, IsTrace-append, IsTrace-set, IsTrace-extend, length-set_next,
}

pub idx32_id : (n : ℕ) → n < 2 ^ 31 → idx32 n ≡ n
unfolding idx32
idx32_id n h = ground (arith, h)

module _ (detect : Option (ResourceSpans → ScopeSpans → Span → ℕ)) where
  -- The first answer of detect that is not 0, over the spans of a trace.
  unfoldable pub first_reason : Bytes → List Visit → ℕ
  first_reason id [] = 0
  first_reason id (v ∷ vs) =
      let rest = first_reason id vs in
      let d = if bytes_eq v.span.trace_id id then reason_of detect v else 0 in
      if d == 0 then rest else d

  pub first_reason-append :
      (id : Bytes) (vs : List Visit) (v : Visit)
      → first_reason id (vs ++ (v ∷ [])) ≡ (
          if first_reason id vs == 0
          then (if bytes_eq v.span.trace_id id then reason_of detect v else 0)
          else first_reason id vs)
  unfolding first_reason
  first_reason-append id [] v = ground arith
  first_reason-append id (w ∷ vs) v = ground (arith, first_reason-append id vs v)

module _ (detect : Option (ResourceSpans → ScopeSpans → Span → ℕ))
    (baseline : Option (Bytes → Bool)) where
  -- The arena after spans of the traces `xs`, of which `ws` went through detection.
  pub record IsGrouped (xs : List Bytes) (ws : List Visit) (a : Arena) : Type 0 where
    pub len : length a.refs ≡ length xs
    pub few : length a.ids ≤ length a.refs
    pub heads_len : length a.heads ≡ length a.ids
    pub tails_len : length a.tails ≡ length a.ids
    pub reasons_len : length a.reasons ≡ length a.ids
    pub bases_len : length a.bases ≡ length a.ids
    pub known :
        (id : Bytes) (g : ℕ)
        → lookup id a.groups ≡ some g
        → (g < length a.ids) × (get_or [] a.ids g ≡ id)
    pub unknown :
        (id : Bytes)
        → lookup id a.groups ≡ none
        → (positions id xs ≡ []) × (first_reason detect id ws ≡ 0)
    pub found : (g : ℕ) → g < length a.ids → lookup (get_or [] a.ids g) a.groups ≡ some g
    pub traces :
        (g : ℕ)
        → g < length a.ids
        → IsTrace xs a.refs (get_or [] a.ids g) (get_or 0 a.heads g) (get_or 0 a.tails g)
    pub verdicts :
        (g : ℕ)
        → g < length a.ids
        → get_or 0 a.reasons g ≡ first_reason detect (get_or [] a.ids g) ws
    pub samples :
        (g : ℕ) → g < length a.ids → get_or false a.bases g ≡ base_of baseline (get_or [] a.ids g)

  module _ (xs : List Bytes) (ws : List Visit) (a : Arena) (r : SpanRef) (id : Bytes) (g : ℕ)
      (h : IsGrouped xs ws a) (e : lookup id a.groups ≡ some g) where
    unknown_old :
        (j : Bytes)
        → lookup j a.groups ≡ none
        → (positions j (xs ++ (id ∷ [])) ≡ []) × (first_reason detect j ws ≡ 0)
    unknown_old j f =
        let apart : bytes_eq id j ≡ false = elim (Bool-cases (bytes_eq id j)) [
          | inl same ↦
              absurd (ground (arith, ap (λ k. lookup k a.groups) (bytes_eq→eq id j same), e, f))
          | inr other ↦ other
        ] in
        (
          ground (
            arith,
            positions-append j xs id,
            apart,
            (h.unknown j f).0,
            append-nil (positions j xs),
          ),
          (h.unknown j f).1,
        )

    -- The tail of the group, to which the ref is linked.
    abbrev tail : ℕ
    tail = get_or 0 a.tails g

    own : IsTrace xs a.refs id (get_or 0 a.heads g) tail
    own = let (g_lt, is_id) = h.known id g e in IsTrace-at is_id refl refl (h.traces g g_lt)

    -- A trace of another group goes on as it was.
    other_trace :
        (i : ℕ)
        → i < length a.ids
        → g ≢ i
        → IsTrace
            (xs ++ (id ∷ []))
            (set_next tail (length a.refs) (a.refs ++ (r ∷ [])))
            (get_or [] a.ids i)
            (get_or 0 a.heads i)
            (get_or 0 a.tails i)
    other_trace i lt apart =
        let tr = h.traces i lt in
        let not_id : get_or [] a.ids i ≢ id =
          λ same. apart (ground (arith, h.found i lt, ap (λ k. lookup k a.groups) same, e)) in
        let apart_tails : tail ≢ get_or 0 a.tails i =
          λ same. not_id (sym tr.mine ∙ ap (get_or [] xs) (sym same) ∙ (own).mine) in
        IsTrace-set _ (a.refs ++ (r ∷ [])) _ _ (get_or 0 a.tails i) tail (length a.refs)
          (omega (arith, (own).inside, length-append a.refs (r ∷ [])))
          (ap (λ y. y.next) (get_or-append_lt no_ref a.refs (r ∷ []) tail (own).inside) ∙ (own).end)
          apart_tails
          (IsTrace-append xs a.refs (get_or [] a.ids i) id (get_or 0 a.heads i) (get_or 0 a.tails i)
            r h.len not_id tr)

    traces_old :
        r.next ≡ none
        → (i : ℕ) → i < length a.ids
        → IsTrace
            (xs ++ (id ∷ []))
            (set_next tail (length a.refs) (a.refs ++ (r ∷ [])))
            (get_or [] a.ids i)
            (get_or 0 a.heads i)
            (get_or 0 (set_at g (length a.refs) a.tails) i)
    traces_old fresh i lt =
        let (g_lt, is_id) = h.known id g e in
        let moved =
          get_or-set_at 0 (length a.refs) a.tails g i (omega (arith, g_lt, h.tails_len)) in
        elim (ℕ_discrete g i) [
          | yes here ↦
              IsTrace-at (sym (ap (get_or [] a.ids) (sym here) ∙ is_id))
                (ap (get_or 0 a.heads) here) (sym (ground (arith, moved, here)))
                (IsTrace-extend xs a.refs id (get_or 0 a.heads g) tail r h.len fresh own)
          | no apart ↦
              IsTrace-at refl refl (sym (ground (arith, moved, apart))) (other_trace i lt apart)
        ]

  -- A ref of a group that is there.
  pub old_group :
      (xs : List Bytes) (ws : List Visit) (a : Arena) (r : SpanRef) (id : Bytes) (g : ℕ)
      → IsGrouped xs ws a
      → r.next ≡ none
      → lookup id a.groups ≡ some g
      → IsGrouped
          (xs ++ (id ∷ []))
          ws
          (join_group detect baseline id
            (some g)
            (length a.refs)
            (record a { refs = a.refs ++ (r ∷ []) })).0
  unfolding join_group
  old_group xs ws a r id g h fresh e =
      let n = length a.refs in
      let refs1 = a.refs ++ (r ∷ []) in
      let len1 : length refs1 ≡ n + 1 = length-append a.refs (r ∷ []) in
      let linked = length-set_next (get_or 0 a.tails g) n refs1 in
      record {
        len = omega (arith, linked, len1, h.len, length-append xs (id ∷ []));
        few = omega (arith, linked, len1, h.few);
        heads_len = h.heads_len;
        tails_len = length-set_at g n a.tails ∙ h.tails_len;
        reasons_len = h.reasons_len;
        bases_len = h.bases_len;
        known = h.known;
        unknown = unknown_old xs ws a r id g h e;
        found = h.found;
        traces = traces_old xs ws a r id g h e fresh;
        verdicts = h.verdicts;
        samples = h.samples;
      }
