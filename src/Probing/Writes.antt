-- ===== src/Probing/Writes.antt =====
-- An open-addressing table whose slots hold their keys: what a write, a burial and a fresh table hold.
use mathlib.Core.Path.{subst}
use native.Mathlib.Decide.{ℕ_discrete}
use retrosampler.Prelude.{ℕ, ◌+◌, ◌^◌, ◌<◌, ◌≡◌, ◌≢◌, sym, ap, ◌∙◌, arith, List, none, some}
use retrosampler.Prelude.{
  Bool-cases, Option-cases, inl, inr, ◌==◌, if◌then◌else◌, length, get_or, set_at, get_or-set_at,
  length-set_at, replicate, length-replicate, get_or-replicate, count-set_at, count-replicate,
  bytes_eq, bytes_eq→eq, bytes_eq_refl,
}
use retrosampler.Prelude.Bytes.{Bytes}
use retrosampler.Probing.Search.{View, vacant, tomb, full}
use retrosampler.Probing.Table.{
  view_in, probe_in, Reaches, IsProbed, scan, scan_found, scan_missing, scan_at, scan_nowhere,
  count_full, is_full, full-injective,
}

module _ {A : Type 0} (view : A → View) (other : A) (start : ℕ → Bytes → ℕ) where
  -- A table of the same size in which no slot is newly vacant keeps the way to a slot.
  pub Reaches-mono :
      (xs ys : List A) (id : Bytes) (j : ℕ)
      → length ys ≡ length xs
      → ((k : ℕ) → view_in view other start ys k ≡ vacant → view_in view other start xs k ≡ vacant)
      → Reaches view other start xs id j
      → Reaches view other start ys id j
  Reaches-mono xs ys id j e h o =
      let same : (p : ℕ) → probe_in view other start ys id p ≡ probe_in view other start xs id p =
        λ p. ground (arith, e) in
      record {
        probe = o.probe;
        from = o.from;
        until = ground (arith, o.until, e);
        slot = same o.probe ∙ o.slot;
        occupied = λ r lo hi v.
            o.occupied r lo hi (ap (view_in view other start xs) (sym (same r)) ∙ h _ v);
      }

  module _ (xs : List A) (t : IsProbed view other start xs) (j : ℕ) (lt : j < length xs) (s : A)
      (taken : view s ≢ vacant) where
    abbrev ys : List A
    ys = set_at j s xs

    at_set : (k : ℕ) → get_or other (set_at j s xs) k ≡ (if j == k then s else get_or other xs k)
    at_set k = get_or-set_at other s xs j k lt

    written : get_or other (set_at j s xs) j ≡ s
    written = ground (arith, at_set j)

    kept : (k : ℕ) → j ≢ k → get_or other (set_at j s xs) k ≡ get_or other xs k
    kept k apart = ground (arith, at_set k, apart)

    filled :
        (k : ℕ) → view_in view other start ys k ≡ vacant → view_in view other start xs k ≡ vacant
    filled k v = elim (ℕ_discrete j k) [
      | yes here ↦ absurd (taken (ap view (sym written ∙ ap (get_or other ys) here) ∙ v))
      | no apart ↦ ap view (sym (kept k apart)) ∙ v
    ]

    -- A slot may be given to a key that reaches it and stands in no other slot.
    pub set_at-IsProbed :
        ((k : Bytes)
          → view s ≡ full k
          → Reaches view other start xs k j
            × ((i : ℕ) → i < length xs → view_in view other start xs i ≡ full k → i ≡ j))
        → IsProbed view other start (set_at j s xs)
    set_at-IsProbed h =
        let len = length-set_at j s xs in
        record {
          bits = t.bits;
          size = len ∙ t.size;
          reach = λ i k i_lt v. Reaches-mono xs ys k i len filled (elim (ℕ_discrete j i) [
            | yes here ↦
                subst (Reaches view other start xs k) here
                  (h k (ap view (sym written ∙ ap (get_or other ys) here) ∙ v)).0
            | no apart ↦ t.reach i k (omega (arith, i_lt, len)) (ap view (sym (kept i apart)) ∙ v)
          ]);
          unique = λ a b k a_lt b_lt va vb. elim (ℕ_discrete j a) [
            | yes ja ↦ elim (ℕ_discrete j b) [
              | yes jb ↦ sym ja ∙ jb
              | no jb ↦
                  sym ja
                  ∙ sym (
                      (h k (ap view (sym written ∙ ap (get_or other ys) ja) ∙ va)).1 b
                        (omega (arith, b_lt, len)) (ap view (sym (kept b jb)) ∙ vb))
            ]
            | no ja ↦ elim (ℕ_discrete j b) [
              | yes jb ↦
                  (h k (ap view (sym written ∙ ap (get_or other ys) jb) ∙ vb)).1 a
                    (omega (arith, a_lt, len)) (ap view (sym (kept a ja)) ∙ va)
                  ∙ jb
              | no jb ↦
                  t.unique a b k (omega (arith, a_lt, len)) (omega (arith, b_lt, len))
                    (ap view (sym (kept a ja)) ∙ va) (ap view (sym (kept b jb)) ∙ vb)
            ]
          ];
        }

    -- A key that neither the old slot nor the new one holds is where it was.
    pub scan-set_at_other :
        (id : Bytes)
        → IsProbed view other start (set_at j s xs)
        → view_in view other start xs j ≢ full id
        → view s ≢ full id
        → scan view other start id (set_at j s xs) ≡ scan view other start id xs
    scan-set_at_other id t' was now =
        let len = length-set_at j s xs in
        elim (Option-cases (scan view other start id xs)) [
          | inl missing ↦
              scan_nowhere view other start ys id (λ i i_lt v. elim (ℕ_discrete j i) [
                | yes here ↦ now (ap view (sym written ∙ ap (get_or other ys) here) ∙ v)
                | no apart ↦
                    scan_missing view other start id xs missing i (omega (arith, i_lt, len))
                      (ap view (sym (kept i apart)) ∙ v)
              ])
              ∙ sym missing
          | inr (a, found) ↦
              let (i, i_lt, at, v) = scan_found view other start id xs a found in
              let apart : j ≢ i = λ e. was (ap (view_in view other start xs) e ∙ ap view at ∙ v) in
              scan_at view other start ys id i t' (omega (arith, i_lt, len))
                (ap view (kept i apart ∙ at) ∙ v)
              ∙ ap some (kept i apart ∙ at)
              ∙ sym found
        ]

    pub scan-set_at_same :
        (id : Bytes)
        → IsProbed view other start (set_at j s xs)
        → view s ≡ full id
        → scan view other start id (set_at j s xs) ≡ some s
    scan-set_at_same id t' v =
        scan_at view other start ys id j t' (omega (arith, lt, length-set_at j s xs))
          (ap view written ∙ v)
        ∙ ap some written

  -- The table once slot `j`, which no other key holds, is given to a key that reaches it.
  pub write-scan :
      (xs : List A) (j : ℕ) (s : A) (id : Bytes)
      → IsProbed view other start xs
      → j < length xs
      → view s ≡ full id
      → Reaches view other start xs id j
      → ((k : Bytes) → view_in view other start xs j ≡ full k → k ≡ id)
      → ((i : ℕ) → i < length xs → view_in view other start xs i ≡ full id → i ≡ j)
      → IsProbed view other start (set_at j s xs)
        × ((k : Bytes)
            → scan view other start k (set_at j s xs)
              ≡ (if bytes_eq id k then some s else scan view other start k xs))
  write-scan xs j s id t lt v way mine only =
      let taken : view s ≢ vacant = λ e. ground (arith, e, v) in
      let t' = set_at-IsProbed xs t j lt s taken (λ k w.
        let same : id ≡ k = full-injective id k (sym v ∙ w) in
        subst
          (λ k.
            Reaches view other start xs k j
            × ((i : ℕ) → i < length xs → view_in view other start xs i ≡ full k → i ≡ j))
          same (way, only)) in
      (
        t',
        λ k. elim (Bool-cases (bytes_eq id k)) [
          | inl same ↦
              rw same
                (scan-set_at_same xs t j lt s taken k t' (v ∙ ap full (bytes_eq→eq id k same)))
          | inr apart ↦ rw apart (
              scan-set_at_other xs t j lt s taken k t'
                (λ w. ground (arith, apart, bytes_eq_refl k, mine k w))
                (λ w. ground (arith, apart, bytes_eq_refl k, full-injective id k (sym v ∙ w))))
        ],
      )

  -- The table once the slot of a key is a tombstone.
  pub bury-scan :
      (xs : List A) (j : ℕ) (s : A) (id : Bytes)
      → IsProbed view other start xs
      → j < length xs
      → view s ≡ tomb
      → view_in view other start xs j ≡ full id
      → IsProbed view other start (set_at j s xs)
        × ((k : Bytes)
            → scan view other start k (set_at j s xs)
              ≡ (if bytes_eq id k then none else scan view other start k xs))
  bury-scan xs j s id t lt v was =
      let taken : view s ≢ vacant = λ e. ground (arith, e, v) in
      let t' = set_at-IsProbed xs t j lt s taken (λ k w. ground (arith, v, w)) in
      (
        t',
        λ k. elim (Bool-cases (bytes_eq id k)) [
          | inl same ↦
              let e = bytes_eq→eq id k same in
              rw same (
                scan_nowhere view other start (set_at j s xs) k (λ i i_lt w. elim (ℕ_discrete j i) [
                  | yes here ↦ ground (arith, v, w, here, written xs t j lt s taken)
                  | no apart ↦ apart (
                      sym (
                        t.unique i j k (omega (arith, i_lt, length-set_at j s xs)) lt
                          (ap view (sym (kept xs t j lt s taken i apart)) ∙ w) (was ∙ ap full e)))
                ]))
          | inr apart ↦ rw apart (
              scan-set_at_other xs t j lt s taken k t'
                (λ w. ground (arith, apart, bytes_eq_refl k, full-injective id k (sym was ∙ w)))
                (λ w. ground (arith, v, w)))
        ],
      )

  -- A fresh table holds nothing.
  pub blank-scan :
      (n k : ℕ)
      → n ≡ 2 ^ k
      → view other ≡ vacant
      → IsProbed view other start (replicate n other)
        × ((id : Bytes) → scan view other start id (replicate n other) ≡ none)
        × (count_full view other start (replicate n other) ≡ 0)
  unfolding count_full
  blank-scan n k e v =
      let len : length (replicate n other) ≡ n = length-replicate n other in
      let none_full : (i : ℕ) (id : Bytes)
          → i < length (replicate n other)
          → view_in view other start (replicate n other) i ≢ full id =
        λ i id lt w.
          ground (arith, get_or-replicate other other n i (omega (arith, lt, len)), v, w) in
      (
        record {
          bits = k;
          size = len ∙ e;
          reach = λ i id lt w. absurd (none_full i id lt w);
          unique = λ i j id lt _ w. absurd (none_full i id lt w);
        },
        λ id. scan_nowhere view other start (replicate n other) id (λ i lt w. none_full i id lt w),
        count-replicate (λ x. is_full (view x)) n other (ground (arith, v)),
      )

  -- A write to one slot changes the number of held slots by what it does there.
  pub count_full-set_at :
      (xs : List A) (j : ℕ) (s : A)
      → j < length xs
      → count_full view other start (set_at j s xs)
          + (if is_full (view_in view other start xs j) then 1 else 0)
        ≡ count_full view other start xs + (if is_full (view s) then 1 else 0)
  unfolding count_full
  count_full-set_at xs j s lt = count-set_at (λ x. is_full (view x)) other s xs j lt
