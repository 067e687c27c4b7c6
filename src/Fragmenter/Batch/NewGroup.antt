-- ===== src/Fragmenter/Batch/NewGroup.antt =====
-- internal/fragmenter/fragmenter.go: a span of a trace that has no group yet.
use mathlib.Core.Path.{subst}
use native.Mathlib.Decide.{dec_lt}
use retrosampler.Prelude.{
  ℕ, ◌^◌, ◌<◌, ◌≡◌, ◌≢◌, refl, sym, ap, ◌∙◌, arith, Bool, false, List, [], ◌∷◌, ◌++◌, Option, none,
  some, append-nil,
}
use retrosampler.Prelude.{
  Bool-cases, inl, inr, if◌then◌else◌, length, length-append, get_or, get_or-append_lt,
  get_or-append_length, bytes_eq, bytes_eq_iff, bytes_eq→eq, bytes_eq_refl,
}
use retrosampler.Prelude.Bytes.{Bytes}
use retrosampler.Shards.Assoc.{lookup, insert, lookup-insert}
use retrosampler.Fragmenter.Span.{Span}
use retrosampler.Fragmenter.Group.{ResourceSpans, ScopeSpans, SpanRef}
use retrosampler.Fragmenter.Batch.Defs.{Visit, Arena, idx32, base_of, join_group}
use retrosampler.Fragmenter.Batch.Chains.{positions, positions-append}
use retrosampler.Fragmenter.Batch.Groups.{IsTrace, IsTrace-at, IsTrace-append, IsTrace-new}
use retrosampler.Fragmenter.Batch.Grouped.{IsGrouped, idx32_id, first_reason}

at_length :
    {A : Type 0} (other y : A) (xs : List A) (n : ℕ)
    → length xs ≡ n
    → get_or other (xs ++ (y ∷ [])) n ≡ y
at_length other y xs n e =
    subst (λ k. get_or other (xs ++ (y ∷ [])) k ≡ y) e (get_or-append_length other y xs)

-- What holds at each place of a list and at its end holds at each place of the list with one more entry.
at_snoc :
    (P : ℕ → Type 0) (ids : List Bytes) (id : Bytes)
    → ((i : ℕ) → i < length ids → P i)
    → P (length ids)
    → (i : ℕ) → i < length (ids ++ (id ∷ []))
    → P i
at_snoc P ids id old new i lt = elim (dec_lt i (length ids)) [
  | yes before ↦ old i before
  | no here ↦ subst P (omega (arith, lt, here, length-append ids (id ∷ []))) new
]

id_before :
    (ids : List Bytes) (id : Bytes) (i : ℕ)
    → i < length ids
    → get_or [] (ids ++ (id ∷ [])) i ≡ get_or [] ids i
id_before ids id = get_or-append_lt [] ids (id ∷ [])

id_last : (ids : List Bytes) (id : Bytes) → get_or [] (ids ++ (id ∷ [])) (length ids) ≡ id
id_last ids id = get_or-append_length [] id ids

-- A column that has a function of the id for each group has it also with one more group.
column-snoc :
    {A : Type 0} (d : A) (F : Bytes → A) (ids : List Bytes) (id : Bytes) (col : List A) (v : A)
    → length col ≡ length ids
    → v ≡ F id
    → ((i : ℕ) → i < length ids → get_or d col i ≡ F (get_or [] ids i))
    → (i : ℕ) → i < length (ids ++ (id ∷ []))
    → get_or d (col ++ (v ∷ [])) i ≡ F (get_or [] (ids ++ (id ∷ [])) i)
column-snoc d F ids id col v len e old =
    at_snoc (λ i. get_or d (col ++ (v ∷ [])) i ≡ F (get_or [] (ids ++ (id ∷ [])) i)) ids id
      (λ i lt.
        get_or-append_lt d col (v ∷ []) i (omega (arith, lt, len))
        ∙ old i lt
        ∙ sym (ap F (id_before ids id i lt)))
      (at_length d v col (length ids) len ∙ e ∙ sym (ap F (id_last ids id)))

module _ (detect : Option (ResourceSpans → ScopeSpans → Span → ℕ))
    (baseline : Option (Bytes → Bool)) where
  module _ (xs : List Bytes) (ws : List Visit) (a : Arena) (r : SpanRef) (id : Bytes)
      (h : IsGrouped detect baseline xs ws a) (small : length a.refs < 2 ^ 31)
      (e : lookup id a.groups ≡ none) where
    -- The groups with the new one.
    abbrev groups1 : List (Bytes × ℕ)
    groups1 = insert id (idx32 (length a.ids)) a.groups

    inserted :
        (j : Bytes)
        → lookup j groups1 ≡ (if bytes_eq id j then some (length a.ids) else lookup j a.groups)
    inserted j = ground (
      arith,
      lookup-insert id j (idx32 (length a.ids)) a.groups,
      idx32_id (length a.ids) (omega (arith, small, h.few)),
    )

    not_id : (i : ℕ) → i < length a.ids → get_or [] a.ids i ≢ id
    not_id i lt same = ground (arith, h.found i lt, ap (λ k. lookup k a.groups) same, e)

    known_new :
        (j : Bytes) (i : ℕ)
        → lookup j groups1 ≡ some i
        → (i < length (a.ids ++ (id ∷ []))) × (get_or [] (a.ids ++ (id ∷ [])) i ≡ j)
    known_new j i f = elim (Bool-cases (bytes_eq id j)) [
      | inl same ↦
          let at_end : i ≡ length a.ids = ground (arith, sym (inserted j) ∙ f, same) in
          (
            omega (arith, at_end, length-append a.ids (id ∷ [])),
            ap (get_or [] (a.ids ++ (id ∷ []))) at_end ∙ id_last a.ids id ∙ bytes_eq→eq id j same,
          )
      | inr other ↦
          let (lt, is_j) = h.known j i (ground (arith, sym (inserted j) ∙ f, other)) in
          (omega (arith, lt, length-append a.ids (id ∷ [])), id_before a.ids id i lt ∙ is_j)
    ]

    unknown_new :
        (j : Bytes)
        → lookup j groups1 ≡ none
        → (positions j (xs ++ (id ∷ [])) ≡ []) × (first_reason detect j ws ≡ 0)
    unknown_new j f = elim (Bool-cases (bytes_eq id j)) [
      | inl same ↦ absurd (ground (arith, sym (inserted j) ∙ f, same))
      | inr other ↦
          let (unseen, silent) = h.unknown j (ground (arith, sym (inserted j) ∙ f, other)) in
          (
            ground (arith, positions-append j xs id, other, append-nil (positions j xs), unseen),
            silent,
          )
    ]

    found_new :
        (i : ℕ)
        → i < length (a.ids ++ (id ∷ []))
        → lookup (get_or [] (a.ids ++ (id ∷ [])) i) groups1 ≡ some i
    found_new =
        at_snoc (λ i. lookup (get_or [] (a.ids ++ (id ∷ [])) i) groups1 ≡ some i) a.ids id
          (λ i lt.
            let apart : bytes_eq id (get_or [] a.ids i) ≡ false =
              ground (arith, bytes_eq_iff id (get_or [] a.ids i), not_id i lt) in
            ap (λ k. lookup k groups1) (id_before a.ids id i lt)
            ∙ inserted (get_or [] a.ids i)
            ∙ ground (arith, apart, h.found i lt))
          (ap (λ k. lookup k groups1) (id_last a.ids id)
            ∙ inserted id
            ∙ ground (arith, bytes_eq_refl id))

    traces_new :
        r.next ≡ none
        → (i : ℕ) → i < length (a.ids ++ (id ∷ []))
        → IsTrace
            (xs ++ (id ∷ []))
            (a.refs ++ (r ∷ []))
            (get_or [] (a.ids ++ (id ∷ [])) i)
            (get_or 0 (a.heads ++ (length a.refs ∷ [])) i)
            (get_or 0 (a.tails ++ (length a.refs ∷ [])) i)
    traces_new fresh =
        let n = length a.refs in
        at_snoc
          (λ i.
            IsTrace (xs ++ (id ∷ [])) (a.refs ++ (r ∷ [])) (get_or [] (a.ids ++ (id ∷ [])) i)
              (get_or 0 (a.heads ++ (n ∷ [])) i) (get_or 0 (a.tails ++ (n ∷ [])) i))
          a.ids id
          (λ i lt.
            IsTrace-at (sym (id_before a.ids id i lt))
              (sym (get_or-append_lt 0 a.heads (n ∷ []) i (omega (arith, lt, h.heads_len))))
              (sym (get_or-append_lt 0 a.tails (n ∷ []) i (omega (arith, lt, h.tails_len))))
              (IsTrace-append xs a.refs _ id _ _ r h.len (not_id i lt) (h.traces i lt)))
          (IsTrace-at (sym (id_last a.ids id)) (sym (at_length 0 n a.heads _ h.heads_len))
            (sym (at_length 0 n a.tails _ h.tails_len))
            (IsTrace-new xs a.refs id r h.len fresh (h.unknown id e).0))

  -- A ref of a new group.
  pub new_group :
      (xs : List Bytes) (ws : List Visit) (a : Arena) (r : SpanRef) (id : Bytes)
      → IsGrouped detect baseline xs ws a
      → r.next ≡ none
      → length a.refs < 2 ^ 31
      → lookup id a.groups ≡ none
      → IsGrouped detect baseline
          (xs ++ (id ∷ []))
          ws
          (join_group detect baseline id none
            (length a.refs)
            (record a { refs = a.refs ++ (r ∷ []) })).0
  unfolding join_group
  new_group xs ws a r id h fresh small e =
      let n = length a.refs in
      let len1 = length-append a.ids (id ∷ []) in
      record {
        len = omega (arith, length-append a.refs (r ∷ []), h.len, length-append xs (id ∷ []));
        few = omega (arith, len1, h.few, length-append a.refs (r ∷ []));
        heads_len = omega (arith, len1, h.heads_len, length-append a.heads (n ∷ []));
        tails_len = omega (arith, len1, h.tails_len, length-append a.tails (n ∷ []));
        reasons_len = omega (arith, len1, h.reasons_len, length-append a.reasons (0 ∷ []));
        bases_len =
            omega (arith, len1, h.bases_len, length-append a.bases (base_of baseline id ∷ []));
        known = known_new xs ws a r id h small e;
        unknown = unknown_new xs ws a r id h small e;
        found = found_new xs ws a r id h small e;
        traces = traces_new xs ws a r id h small e fresh;
        verdicts =
            column-snoc 0 (λ k. first_reason detect k ws) a.ids id a.reasons 0 h.reasons_len
              (sym ((h.unknown id e).1)) h.verdicts;
        samples =
            column-snoc false (base_of baseline) a.ids id a.bases (base_of baseline id) h.bases_len
              refl h.samples;
      }
