-- ===== src/Shards/Decided/Table.antt =====
-- internal/shards/decided.go: when the table holds the references of a range of the ring.
use Prim.Native.Nat.{bit_and}
use native.Mathlib.Nat.{one-le-pow, mod-lt, mod-add-mod}
use retrosampler.Prelude.{
  ℕ, ◌+◌, ◌-◌, ◌%◌, ◌^◌, ◌≤◌, ◌<◌, ◌≡◌, ◌≢◌, sym, ap, ◌∙◌, arith, Bool, true, false, not, ◌&&◌, [],
  none,
}
use mathlib.Core.Path.{subst}
use retrosampler.Prelude.{Bool-cases, ◌⊎◌, inl, inr, ◌==◌, length, get_or, count, count_lt}
use retrosampler.Prelude.Bytes.{Bytes}
use retrosampler.Probing.Masks.{bit_and-mask, turn}
use retrosampler.Probing.Search.{
  View, vacant, tomb, full, search_from, Open, NotFull, HasSpot, search_from-Sound,
  search_from_complete, search_from-Spot,
}
use retrosampler.Shards.Decided.Defs.{
  DecidedSet, decided_tomb, table_mask, start_slot, entry_at, slot_view, view_at, probe_at,
  slot_or_0, find_slot,
}

abbrev pub id_at : DecidedSet → ℕ → Bytes
id_at d i = (entry_at d i).id

abbrev pub ref_at : DecidedSet → ℕ → ℕ
ref_at d j = get_or 0 d.slots j

-- The reference of entry `i`.
abbrev pub seq : DecidedSet → ℕ → ℕ
seq d i = d.base_seq + i + 1

abbrev pub is_live : ℕ → Bool
is_live ref = not (ref == 0) && not (ref == decided_tomb)

-- Slot `j` is on the probe sequence of `id`, and no slot before it is empty.
abbrev pub OnProbe : DecidedSet → Bytes → ℕ → Type 0
OnProbe d id j = Open (view_at d) (probe_at d id) id 0 (length d.slots) j

-- The live references of the table are those of the entries from `lo` up to `hi`, once each, and each stands
-- where a search for its id comes to it; the ids differ, and the numbers do not wrap.
pub record IsTable (d : DecidedSet) (lo hi : ℕ) : Type 0 where
  pub bits : ℕ
  pub size : length d.slots ≡ 2 ^ bits
  pub within : hi ≤ length d.ring
  pub seqs : d.base_seq + hi < 2 ^ 64 - 2
  pub refs :
      (j : ℕ)
      → j < length d.slots
      → (ref_at d j ≡ 0)
        ⊎ ((ref_at d j ≡ decided_tomb) ⊎ ((i : ℕ) × (lo ≤ i) × (i < hi) × (ref_at d j ≡ seq d i)))
  pub reach :
      (i : ℕ)
      → lo ≤ i
      → i < hi
      → (j : ℕ) × (j < length d.slots) × (ref_at d j ≡ seq d i) × OnProbe d (id_at d i) j
  pub unique :
      (i j k : ℕ)
      → i < hi
      → j < length d.slots
      → k < length d.slots
      → ref_at d j ≡ seq d i
      → ref_at d k ≡ seq d i
      → j ≡ k
  pub distinct : (i k : ℕ) → lo ≤ i → i < hi → lo ≤ k → k < hi → id_at d i ≡ id_at d k → i ≡ k
  pub lives : count is_live d.slots + lo ≡ hi

slot_view-seq :
    (d : DecidedSet) (i : ℕ)
    → d.base_seq + i < 2 ^ 64 - 2
    → slot_view d (seq d i) ≡ full (id_at d i)
unfolding slot_view
slot_view-seq d i h =
    let index : (d.base_seq + i + 1 + (2 ^ 64 - 1 - d.base_seq)) % 2 ^ 64 ≡ i = omega (arith, h) in
    ground (arith, h, ap (λ k. full (id_at d k)) index)

probe_at-mod :
    (d : DecidedSet) (id : Bytes) (p k : ℕ)
    → length d.slots ≡ 2 ^ k
    → probe_at d id p ≡ (start_slot d id + p) % 2 ^ k
probe_at-mod d id p k e =
    ap (λ n. bit_and (start_slot d id + p) (table_mask n)) e ∙ bit_and-mask (start_slot d id + p) k

pub slot_view-zero : (d : DecidedSet) (ref : ℕ) → ref ≡ 0 → slot_view d ref ≡ vacant
unfolding slot_view
slot_view-zero d ref h = ground (arith, h)

slot_view-tomb : (d : DecidedSet) (ref : ℕ) → ref ≡ decided_tomb → slot_view d ref ≡ tomb
unfolding slot_view
slot_view-tomb d ref h = ground (arith, h)

abbrev key_of : View → Bytes
key_of vacant = []
key_of tomb = []
key_of (full k) = k

-- A slot without a live reference is not full, and the other way round.
slot_view-is_live :
    (d : DecidedSet) (j : ℕ)
    → is_live (ref_at d j) ≡ false
    → NotFull (view_at d) (probe_at d []) [] j
unfolding slot_view
slot_view-is_live d j h k e = ground (arith, h, e)

is_live-NotFull :
    (d : DecidedSet) (id : Bytes) (j : ℕ)
    → NotFull (view_at d) (probe_at d id) id j
    → is_live (ref_at d j) ≡ false
unfolding slot_view
is_live-NotFull d id j free = elim (Bool-cases (is_live (ref_at d j))) [
  | inl live ↦ absurd (
      free (entry_at d ((ref_at d j + (2 ^ 64 - 1 - d.base_seq)) % 2 ^ 64)).id
        (ground (arith, live)))
  | inr dead ↦ dead
]

module _ (d : DecidedSet) (lo hi : ℕ) (t : IsTable d lo hi) where
  pub slots_positive : 0 < length d.slots
  slots_positive = ground (arith, t.size, one-le-pow t.bits 2 (omega arith))

  rounds : table_mask (length d.slots) + 1 ≡ length d.slots
  rounds = omega (arith, slots_positive)

  probe_at_lt : (id : Bytes) (p : ℕ) → probe_at d id p < length d.slots
  probe_at_lt id p = ground (
    arith,
    probe_at-mod d id p t.bits t.size,
    t.size,
    mod-lt (start_slot d id + p) (one-le-pow t.bits 2 (omega arith)),
  )

  view_entry :
      (j : ℕ) (id : Bytes)
      → j < length d.slots
      → view_at d j ≡ full id
      → (i : ℕ) × (lo ≤ i) × (i < hi) × (ref_at d j ≡ seq d i) × (id_at d i ≡ id)
  view_entry j id lt e = elim (t.refs j lt) [
    | inl z ↦ ground (arith, e, slot_view-zero d (ref_at d j) z)
    | inr (inl b) ↦ ground (arith, e, slot_view-tomb d (ref_at d j) b)
    | inr (inr (i, lo_i, i_hi, r)) ↦ (
      i,
      lo_i,
      i_hi,
      r,
      ap key_of (sym (ap (slot_view d) r ∙ slot_view-seq d i (omega (arith, i_hi, t.seqs))) ∙ e),
    )
  ]

  Open-lt : (id : Bytes) (j n : ℕ) → Open (view_at d) (probe_at d id) id 0 n j → j < length d.slots
  Open-lt id j n o = ground (arith, probe_at_lt id o.probe, o.slot)

  -- What findSlot finds is the slot of the entry with the id.
  pub find_slot_sound :
      (id : Bytes)
      → (find_slot d id).1 ≡ true
      → let j = (find_slot d id).0 in
        (j < length d.slots)
        × ((i : ℕ) × (lo ≤ i) × (i < hi) × (ref_at d j ≡ seq d i) × (id_at d i ≡ id))
  unfolding find_slot
  find_slot_sound id h =
      let (j, e, v, o) = search_from-Sound (view_at d) (probe_at d id) id _ 0 none h in
      let same : slot_or_0
            (search_from (view_at d) (probe_at d id) id (table_mask (length d.slots) + 1) 0 none).0
          ≡ j =
        ap slot_or_0 e in
      let lt = Open-lt id j _ o in rw same (lt, view_entry j id lt v)

  -- The entries in the table are found.
  pub find_slot_complete : (i : ℕ) → lo ≤ i → i < hi → (find_slot d (id_at d i)).1 ≡ true
  unfolding find_slot
  find_slot_complete i lo_i i_hi =
      let (j, lt, r, o) = t.reach i lo_i i_hi in
      search_from_complete (view_at d) (probe_at d (id_at d i)) (id_at d i) _ 0 none j
        (subst (λ n. Open (view_at d) (probe_at d (id_at d i)) (id_at d i) 0 n j) (sym rounds) o)
        (ap (slot_view d) r ∙ slot_view-seq d i (omega (arith, i_hi, t.seqs)))

  pub find_slot-absent :
      (id : Bytes) → ((i : ℕ) → lo ≤ i → i < hi → id_at d i ≢ id) → (find_slot d id).1 ≡ false
  find_slot-absent id fresh = elim (Bool-cases (find_slot d id).1) [
    | inl found ↦
        let (_, (i, lo_i, i_hi, r, e)) = find_slot_sound id found in absurd (fresh i lo_i i_hi e)
    | inr missing ↦ missing
  ]

  has_spot :
      (id : Bytes)
      → count is_live d.slots < length d.slots
      → HasSpot (view_at d) (probe_at d id) id (table_mask (length d.slots) + 1) 0 none
  has_spot id room =
      let (j, lt, dead) = count_lt is_live 0 d.slots room in
      let (q, q_lt, e) =
        turn (start_slot d id % 2 ^ t.bits) j (2 ^ t.bits)
          (mod-lt _ (one-le-pow t.bits 2 (omega arith))) (ground (arith, lt, t.size)) in
      inr (
        q,
        omega arith,
        ground (arith, q_lt, rounds, t.size),
        λ k f. slot_view-is_live d j dead k (
            ap (view_at d) (
              sym (
                probe_at-mod d id q t.bits t.size
                ∙ sym (mod-add-mod (start_slot d id) (2 ^ t.bits) q)
                ∙ e))
            ∙ f),
      )

  -- Where findSlot does not find the id, it gives a slot that holds no entry and that a search for the id
  -- comes to.
  pub find_slot-Spot :
      (id : Bytes)
      → count is_live d.slots < length d.slots
      → (find_slot d id).1 ≡ false
      → let j = (find_slot d id).0 in
        (j < length d.slots) × (is_live (ref_at d j) ≡ false) × OnProbe d id j
  unfolding find_slot
  find_slot-Spot id room h =
      let (j, e, spot) =
        search_from-Spot (view_at d) (probe_at d id) id _ 0 none (has_spot id room) h in
      let same : slot_or_0
            (search_from (view_at d) (probe_at d id) id (table_mask (length d.slots) + 1) 0 none).0
          ≡ j =
        ap slot_or_0 e in
      rw same (elim spot [
        | inl old ↦ ground (arith, old)
        | inr (free, o) ↦ (
          Open-lt id j _ o,
          is_live-NotFull d id j free,
          subst (λ n. Open (view_at d) (probe_at d id) id 0 n j) rounds o,
        )
      ])
