-- ===== src/Shards/Decided/Compact.antt =====
-- internal/shards/decided.go: evict's compaction of the ring.
use retrosampler.Prelude.{ℕ, ◌+◌, ◌-◌, ◌*◌, ◌%◌, ◌^◌, ◌≤◌, ◌<◌, ◌≡◌, refl, sym, ap, ◌∙◌, arith, []}
use mathlib.Core.Path.{subst}
use retrosampler.Prelude.{
  Bool-cases, ◌⊎◌, inl, inr, ltb, ◌==◌, length, drop, drop-length, get_or-drop, length-drop,
}
use retrosampler.Probing.Search.{Open}
use retrosampler.Shards.Decided.Defs.{
  DecidedSet, no_entry, decided_tomb, view_at, probe_at, compact_ring,
}
use retrosampler.Shards.Decided.Table.{IsTable, id_at, ref_at, seq}
use retrosampler.Shards.Decided.Insert.{OnProbe-mono}
use retrosampler.Shards.Decided.Live.{IsIntact, live_entries}

-- The set with the first `lo` entries cut off its ring.
abbrev shifted : DecidedSet → ℕ → ℕ → DecidedSet
shifted d lo base = record d { base_seq = base; ring = drop lo d.ring; head = 0 }

shift_id : (d : DecidedSet) (lo i : ℕ) → id_at (shifted d lo (d.base_seq + lo)) i ≡ id_at d (lo + i)
shift_id d lo i = ap (λ e. e.id) (get_or-drop no_entry lo d.ring i)

shift_ref :
    (d : DecidedSet) (lo hi j : ℕ)
    → lo ≤ hi
    → (ref_at d j ≡ 0)
      ⊎ ((ref_at d j ≡ decided_tomb) ⊎ ((i : ℕ) × (lo ≤ i) × (i < hi) × (ref_at d j ≡ seq d i)))
    → (ref_at d j ≡ 0)
      ⊎ ((ref_at d j ≡ decided_tomb)
          ⊎ ((i : ℕ) × (0 ≤ i)
              × (i < hi - lo)
              × (ref_at d j ≡ seq (shifted d lo (d.base_seq + lo)) i)))
shift_ref d lo hi j h (inl z) = inl z
shift_ref d lo hi j h (inr (inl b)) = inr (inl b)
shift_ref d lo hi j h (inr (inr (i, a, b, r))) =
    inr (inr (i - lo, omega arith, omega (arith, a, b), omega (arith, r, a)))

-- The references stay what they are: the numbers of the entries do not move.
shift-IsTable :
    (d : DecidedSet) (lo hi : ℕ)
    → IsTable d lo hi
    → IsTable (shifted d lo (d.base_seq + lo)) 0 (hi - lo)
shift-IsTable d lo hi t =
    let d' = shifted d lo (d.base_seq + lo) in
    let le : lo ≤ hi = omega (arith, t.lives) in
    record {
      bits = t.bits;
      size = t.size;
      within = omega (arith, t.within, length-drop lo d.ring);
      seqs = omega (arith, t.seqs, le);
      refs = λ j lt. shift_ref d lo hi j le (t.refs j lt);
      reach = λ i lo_i i_hi.
          let (j, lt, r, way) = t.reach (lo + i) (omega arith) (omega (arith, i_hi)) in
          (
            j,
            lt,
            omega (arith, r),
            subst (λ id. Open (view_at d') (probe_at d' id) id 0 (length d.slots) j)
                (sym (shift_id d lo i))
                (OnProbe-mono d d' (id_at d (lo + i)) j refl (λ k e. e) way),
          );
      unique = λ i j k i_hi j_lt k_lt rj rk.
          t.unique (lo + i) j k (omega (arith, i_hi)) j_lt k_lt (omega (arith, rj))
            (omega (arith, rk));
      distinct = λ i k lo_i i_hi lo_k k_hi e.
          let same =
            t.distinct (lo + i) (lo + k) (omega arith) (omega (arith, i_hi)) (omega arith)
              (omega (arith, k_hi)) (sym (shift_id d lo i) ∙ e ∙ shift_id d lo k) in
          omega (arith, same);
      lives = omega (arith, t.lives);
    }

-- The same live entries in a well-formed set, with as many numbers given out.
abbrev pub Same : DecidedSet → DecidedSet → Type 0
Same d d' =
    IsIntact d'
    × (live_entries d' ≡ live_entries d)
    × (d'.base_seq + length d'.ring ≡ d.base_seq + length d.ring)

shift-Same :
    (d : DecidedSet) → IsIntact d → Same d (shifted d d.head ((d.base_seq + d.head) % 2 ^ 64))
shift-Same d t =
    let len = length-drop d.head d.ring in
    let fits : (d.base_seq + d.head) % 2 ^ 64 ≡ d.base_seq + d.head =
      omega (arith, t.seqs, t.lives) in
    let moved =
      subst (λ n. IsTable (shifted d d.head (d.base_seq + d.head)) 0 n) (sym len)
        (shift-IsTable d d.head (length d.ring) t) in
    subst (λ b. Same d (shifted d d.head b)) (sym fits) (moved, refl, omega (arith, len, t.lives))

pub compact_ring-Same : (d : DecidedSet) → IsIntact d → Same d (compact_ring d)
unfolding compact_ring
compact_ring-Same d t = elim (Bool-cases (d.head == length d.ring)) [
  | inl all ↦
      let nothing : drop d.head d.ring ≡ [] = ground (arith, all, drop-length d.ring) in
      rw all (
        subst
          (λ r. Same d (record d { base_seq = (d.base_seq + d.head) % 2 ^ 64; ring = r; head = 0 }))
          nothing (shift-Same d t))
  | inr some_left ↦ elim (Bool-cases (ltb (length d.ring) (2 * d.head))) [
    | inl half ↦ rw some_left (rw half (shift-Same d t))
    | inr few ↦ rw some_left (rw few (t, refl, refl))
  ]
]
