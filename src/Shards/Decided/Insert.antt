-- ===== src/Shards/Decided/Insert.antt =====
-- internal/shards/decided.go: what a write to the table keeps.
use retrosampler.Prelude.{ℕ, ◌+◌, ◌-◌, ◌^◌, ◌≤◌, ◌<◌, ◌≡◌, ◌≢◌, sym, ap, ◌∙◌, arith, false, List}
use mathlib.Core.Path.{subst}
use native.Mathlib.Decide.{dec_lt, ℕ_discrete}
use retrosampler.Prelude.{
  inl, inr, ◌⊎◌, ◌==◌, if◌then◌else◌, length, get_or, set_at, get_or-set_at, length-set_at, weight,
  count-set_at,
}
use retrosampler.Prelude.Bytes.{Bytes}
use retrosampler.Probing.Search.{vacant}
use retrosampler.Shards.Decided.Defs.{
  Entry, DecidedSet, decided_tomb, start_slot, slot_view, view_at, probe_at, no_entry,
}
use retrosampler.Shards.Decided.Table.{
  IsTable, id_at, ref_at, seq, is_live, OnProbe, slot_view-zero,
}

slot_view-vacant : (d : DecidedSet) (ref : ℕ) → slot_view d ref ≡ vacant → ref ≡ 0
unfolding slot_view
slot_view-vacant d ref h = ground (arith, h)

start_slot-length :
    (d d' : DecidedSet) (id : Bytes)
    → length d'.slots ≡ length d.slots
    → start_slot d id ≡ start_slot d' id
unfolding start_slot
start_slot-length d d' id e = ground (arith, e)

-- A table of the same size in which no slot is newly empty keeps the way to a slot.
pub OnProbe-mono :
    (d d' : DecidedSet) (id : Bytes) (j : ℕ)
    → length d'.slots ≡ length d.slots
    → ((k : ℕ) → ref_at d' k ≡ 0 → ref_at d k ≡ 0)
    → OnProbe d id j
    → OnProbe d' id j
OnProbe-mono d d' id j e h o =
    let same : (p : ℕ) → probe_at d' id p ≡ probe_at d id p =
      λ p. ground (arith, e, start_slot-length d d' id e) in
    record {
      probe = o.probe;
      from = o.from;
      until = ground (arith, o.until, e);
      slot = same o.probe ∙ o.slot;
      occupied = λ r lo hi v.
          o.occupied r lo hi
            (ap (view_at d) (sym (same r)) ∙ slot_view-zero d _ (h _ (slot_view-vacant d' _ v)));
    }

module _ (d : DecidedSet) (lo hi : ℕ) (t : IsTable d lo hi) (j : ℕ) (lt : j < length d.slots) where
  ref_at-set : (v k : ℕ) → get_or 0 (set_at j v d.slots) k ≡ (if j == k then v else ref_at d k)
  ref_at-set v k = get_or-set_at 0 v d.slots j k lt

  -- A reference in the table is that of one of its entries.
  seq_lt :
      (i k : ℕ)
      → k < length d.slots
      → ref_at d k ≡ seq d i
      → seq d i < 2 ^ 64 - 1
      → (lo ≤ i) × (i < hi)
  seq_lt i k k_lt e small = elim (t.refs k k_lt) [
    | inl z ↦ absurd (omega (arith, z, e))
    | inr (inl b) ↦ absurd (omega (arith, b, e, small))
    | inr (inr (i', a, b, r)) ↦ (omega (arith, r, e, a), omega (arith, r, e, b))
  ]

-- The set after slot `j` is given to the entry `hi`, with the ring and the count of tombstones of that moment.
abbrev pub given : DecidedSet → ℕ → ℕ → List Entry → ℕ → DecidedSet
given d hi j ring tombs = record d {
  slots = set_at j (seq d hi) d.slots;
  ring = ring;
  tombs = tombs;
}

module _ (d : DecidedSet) (lo hi : ℕ) (t : IsTable d lo hi) (j : ℕ) (lt : j < length d.slots) where
  -- The new reference stands in one slot, and each old one where it stood.
  insert_unique :
      (ring : List Entry) (tombs : ℕ)
      → d.base_seq + hi + 1 < 2 ^ 64 - 2
      → let d' = given d hi j ring tombs in
        (i a b : ℕ)
        → i < hi + 1
        → a < length d'.slots
        → b < length d'.slots
        → ref_at d' a ≡ seq d' i
        → ref_at d' b ≡ seq d' i
        → a ≡ b
  insert_unique ring tombs small i a b i_hi a_lt b_lt ra rb =
      let d' = given d hi j ring tombs in
      let set = ref_at-set d lo hi t j lt (seq d hi) in
      let len = length-set_at j (seq d hi) d.slots in
      let old : (k : ℕ) → j ≢ k → ref_at d' k ≡ seq d i → ref_at d k ≡ seq d i =
        λ k apart e. ground (arith, set k, apart, e) in
      let a_lt' : a < length d.slots = omega (arith, len, a_lt) in
      let b_lt' : b < length d.slots = omega (arith, len, b_lt) in
      elim (ℕ_discrete j a) [
        | yes ja ↦ elim (ℕ_discrete j b) [
          | yes jb ↦ sym ja ∙ jb
          | no jb ↦
              let same_seq : seq d i ≡ seq d hi = sym ra ∙ ground (arith, set a, ja) in
              absurd (
                omega (
                  arith,
                  seq_lt d lo hi t j lt i b b_lt' (old b jb rb) (omega (arith, same_seq, small)),
                  same_seq,
                ))
        ]
        | no ja ↦ elim (ℕ_discrete j b) [
          | yes jb ↦
              let same_seq : seq d i ≡ seq d hi = sym rb ∙ ground (arith, set b, jb) in
              absurd (
                omega (
                  arith,
                  seq_lt d lo hi t j lt i a a_lt' (old a ja ra) (omega (arith, same_seq, small)),
                  same_seq,
                ))
          | no jb ↦
              t.unique i a b
                (seq_lt d lo hi t j lt i a a_lt' (old a ja ra) (omega (arith, i_hi, small))).1 a_lt'
                b_lt' (old a ja ra) (old b jb rb)
        ]
      ]

-- The ring may have grown at its end: the old entries have the ids that they had, and the new one's is none of them.
module _ (d : DecidedSet) (lo hi j : ℕ) (ring : List Entry) (tombs : ℕ) (t : IsTable d lo hi)
    (lt : j < length d.slots) (small : d.base_seq + hi + 1 < 2 ^ 64 - 2)
    (same : (i : ℕ) → i < hi → (get_or no_entry ring i).id ≡ id_at d i) where
  abbrev d1 : DecidedSet
  d1 = given d hi j ring tombs

  slots_len : length d1.slots ≡ length d.slots
  slots_len = length-set_at j (seq d hi) d.slots

  not_emptied : (k : ℕ) → ref_at d1 k ≡ 0 → ref_at d k ≡ 0
  not_emptied k e = ground (arith, ref_at-set d lo hi t j lt (seq d hi) k, e)

  refs_given :
      lo ≤ hi
      → (k : ℕ) → k < length d1.slots
      → (ref_at d1 k ≡ 0)
        ⊎ ((ref_at d1 k ≡ decided_tomb)
            ⊎ ((i : ℕ) × (lo ≤ i) × (i < hi + 1) × (ref_at d1 k ≡ seq d1 i)))
  refs_given lo_hi k k_lt =
      let set = ref_at-set d lo hi t j lt (seq d hi) k in
      elim (ℕ_discrete j k) [
        | yes here ↦ inr (inr (hi, lo_hi, omega arith, ground (arith, set, here)))
        | no apart ↦ elim (t.refs k (omega (arith, slots_len, k_lt))) [
          | inl z ↦ inl (ground (arith, set, apart, z))
          | inr (inl b) ↦ inr (inl (ground (arith, set, apart, b)))
          | inr (inr (i, a, b, r)) ↦
              inr (inr (i, a, omega (arith, b), ground (arith, set, apart, r)))
        ]
      ]

  reach_given :
      is_live (ref_at d j) ≡ false
      → OnProbe d ((get_or no_entry ring hi).id) j
      → (i : ℕ) → lo ≤ i
      → i < hi + 1
      → (k : ℕ) × (k < length d1.slots) × (ref_at d1 k ≡ seq d1 i) × OnProbe d1 (id_at d1 i) k
  reach_given dead o i lo_i i_hi = elim (dec_lt i hi) [
    | yes old ↦
        let (k, k_lt, r, way) = t.reach i lo_i old in
        (
          k,
          omega (arith, slots_len, k_lt),
          ground (arith, ref_at-set d lo hi t j lt (seq d hi) k, r, dead, old, small),
          subst (λ key. OnProbe d1 key k) (sym (same i old))
              (OnProbe-mono d d1 (id_at d i) k slots_len not_emptied way),
        )
    | no new ↦
        let last : i ≡ hi = omega (arith, new, i_hi) in
        (
          j,
          omega (arith, slots_len, lt),
          ground (arith, ref_at-set d lo hi t j lt (seq d hi) j, last),
          subst (λ n. OnProbe d1 (id_at d1 n) j) (sym last)
              (OnProbe-mono d d1 ((get_or no_entry ring hi).id) j slots_len not_emptied o),
        )
  ]

  distinct_given :
      ((i : ℕ) → lo ≤ i → i < hi → id_at d i ≢ (get_or no_entry ring hi).id)
      → (i k : ℕ) → lo ≤ i
      → i < hi + 1
      → lo ≤ k
      → k < hi + 1
      → id_at d1 i ≡ id_at d1 k
      → i ≡ k
  distinct_given fresh i k lo_i i_hi lo_k k_hi e = elim (dec_lt i hi) [
    | yes i_old ↦ elim (dec_lt k hi) [
      | yes k_old ↦ t.distinct i k lo_i i_old lo_k k_old (sym (same i i_old) ∙ e ∙ same k k_old)
      | no k_new ↦
          let last : k ≡ hi = omega (arith, k_new, k_hi) in
          absurd (fresh i lo_i i_old (sym (same i i_old) ∙ e ∙ ap (id_at d1) last))
    ]
    | no i_new ↦
        let last : i ≡ hi = omega (arith, i_new, i_hi) in
        elim (dec_lt k hi) [
          | yes k_old ↦
              absurd (fresh k lo_k k_old (sym (same k k_old) ∙ sym e ∙ ap (id_at d1) last))
          | no k_new ↦ omega (arith, last, k_new, k_hi)
        ]
  ]

-- A table that holds the entries from `lo` up to `hi` holds `hi` too, once a free slot on its probe sequence
-- has its reference.
pub insert-IsTable :
    (d : DecidedSet) (lo hi j : ℕ) (ring : List Entry) (tombs : ℕ)
    → IsTable d lo hi
    → lo ≤ hi
    → j < length d.slots
    → is_live (ref_at d j) ≡ false
    → OnProbe d ((get_or no_entry ring hi).id) j
    → hi < length ring
    → d.base_seq + hi + 1 < 2 ^ 64 - 2
    → ((i : ℕ) → i < hi → (get_or no_entry ring i).id ≡ id_at d i)
    → ((i : ℕ) → lo ≤ i → i < hi → id_at d i ≢ (get_or no_entry ring hi).id)
    → IsTable (given d hi j ring tombs) lo (hi + 1)
insert-IsTable d lo hi j ring tombs t lo_hi lt dead o in_ring small same fresh = record {
  bits = t.bits;
  size = length-set_at j (seq d hi) d.slots ∙ t.size;
  within = omega (arith, in_ring);
  seqs = omega (arith, small);
  refs = refs_given d lo hi j ring tombs t lt small same lo_hi;
  reach = reach_given d lo hi j ring tombs t lt small same dead o;
  unique = insert_unique d lo hi t j lt ring tombs small;
  distinct = distinct_given d lo hi j ring tombs t lt small same fresh;
  lives =
      let w0 : weight is_live (ref_at d j) ≡ 0 = ground (arith, dead) in
      let w1 : weight is_live (seq d hi) ≡ 1 = ground (arith, small) in
      omega (arith, count-set_at is_live 0 (seq d hi) d.slots j lt, t.lives, w0, w1);
}
