-- ===== src/Shards/Decided/Bury.antt =====
-- internal/shards/decided.go: what a round of evict does to the table.
use retrosampler.Prelude.{ℕ, ◌+◌, ◌<◌, ◌≡◌, ◌≢◌, sym, ap, ◌∙◌, arith}
use native.Mathlib.Decide.{ℕ_discrete}
use retrosampler.Prelude.{
  inl, inr, ◌==◌, if◌then◌else◌, length, get_or, set_at, get_or-set_at, length-set_at, weight,
  count-set_at,
}
use retrosampler.Shards.Decided.Defs.{DecidedSet, decided_tomb, find_slot, bury}
use retrosampler.Shards.Decided.Table.{
  IsTable, id_at, ref_at, seq, is_live, find_slot_sound, find_slot_complete,
}
use retrosampler.Shards.Decided.Insert.{OnProbe-mono}

-- The set after slot `j` becomes a tombstone.
abbrev pub buried : DecidedSet → ℕ → ℕ → ℕ → DecidedSet
buried d j tombs head = record d {
  slots = set_at j decided_tomb d.slots;
  tombs = tombs;
  head = head;
}

-- A table whose slot of the first entry becomes a tombstone holds the other entries.
bury_slot-IsTable :
    (d : DecidedSet) (lo hi j tombs head : ℕ)
    → IsTable d lo hi
    → lo < hi
    → j < length d.slots
    → ref_at d j ≡ seq d lo
    → IsTable (buried d j tombs head) (lo + 1) hi
bury_slot-IsTable d lo hi j tombs head t lo_hi lt first =
    let set : (k : ℕ)
        → get_or 0 (set_at j decided_tomb d.slots) k
          ≡ (if j == k then decided_tomb else ref_at d k) =
      λ k. get_or-set_at 0 decided_tomb d.slots j k lt in
    let len = length-set_at j decided_tomb d.slots in
    let d' = buried d j tombs head in
    let filled : (k : ℕ) → ref_at d' k ≡ 0 → ref_at d k ≡ 0 = λ k e. ground (arith, set k, e) in
    let old : (i k : ℕ) → i < hi → ref_at d' k ≡ seq d i → (j ≢ k) × (ref_at d k ≡ seq d i) =
      λ i k i_hi e. ground (arith, set k, e, i_hi, t.seqs) in
    record {
      bits = t.bits;
      size = len ∙ t.size;
      within = t.within;
      seqs = t.seqs;
      refs = λ k k_lt. elim (ℕ_discrete j k) [
        | yes here ↦ inr (inl (ground (arith, set k, here)))
        | no apart ↦ elim (t.refs k (omega (arith, len, k_lt))) [
          | inl z ↦ inl (ground (arith, set k, apart, z))
          | inr (inl b) ↦ inr (inl (ground (arith, set k, apart, b)))
          | inr (inr (i, a, b, r)) ↦
              let later : lo ≢ i = λ e. apart (
                t.unique lo j k lo_hi lt (omega (arith, len, k_lt)) first
                  (r ∙ ap (seq d) (sym e))) in
              inr (inr (i, omega (arith, later, a), b, ground (arith, set k, apart, r)))
        ]
      ];
      reach = λ i lo_i i_hi.
          let (k, k_lt, r, way) = t.reach i (omega (arith, lo_i)) i_hi in
          (
            k,
            omega (arith, len, k_lt),
            ground (arith, set k, r, first, lo_i),
            OnProbe-mono d d' (id_at d i) k len filled way,
          );
      unique = λ i a b i_hi a_lt b_lt ra rb.
          t.unique i a b i_hi (omega (arith, len, a_lt)) (omega (arith, len, b_lt))
            (old i a i_hi ra).1 (old i b i_hi rb).1;
      distinct = λ i k lo_i i_hi lo_k k_hi e.
          t.distinct i k (omega (arith, lo_i)) i_hi (omega (arith, lo_k)) k_hi e;
      lives =
          let w0 : weight is_live (ref_at d j) ≡ 1 = ground (arith, first, t.seqs, lo_hi) in
          let w1 : weight is_live decided_tomb ≡ 0 = ground arith in
          omega (arith, count-set_at is_live 0 decided_tomb d.slots j lt, t.lives, w0, w1);
    }

-- A round of evict takes the entry at the head out of the table.
pub bury-IsTable :
    (d : DecidedSet) (hi : ℕ) → IsTable d d.head hi → d.head < hi → IsTable (bury d) (d.head + 1) hi
unfolding bury
bury-IsTable d hi t h =
    let found = find_slot_complete d d.head hi t d.head (omega arith) h in
    let (lt, (i, lo_i, i_hi, r, e)) = find_slot_sound d d.head hi t (id_at d d.head) found in
    let same : i ≡ d.head = t.distinct i d.head lo_i i_hi (omega arith) h e in
    rw found (
      bury_slot-IsTable d d.head hi (find_slot d (id_at d d.head)).0 (d.tombs + 1) (d.head + 1) t h
        lt (r ∙ ap (seq d) same))
