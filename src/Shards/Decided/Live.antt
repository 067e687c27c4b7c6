-- ===== src/Shards/Decided/Live.antt =====
-- internal/shards/decided.go: the live entries, in the order of their deadlines' insertion.
use retrosampler.Prelude.{
  ℕ, zero, suc, ◌+◌, ◌-◌, ◌≤◌, ◌<◌, ◌≡◌, sym, ap, ◌∙◌, arith, Bool, true, false, ◌||◌, List, [],
  ◌∷◌,
}
use retrosampler.Prelude.{
  Bool-cases, inl, inr, length, drop, get_or, get_or-drop, length-drop, bytes_eq, bytes_eq→eq,
  bytes_eq_iff,
}
use retrosampler.Prelude.Bytes.{Bytes}
use retrosampler.Shards.Decided.Defs.{Entry, DecidedSet, no_entry, has, find_slot}
use retrosampler.Shards.Decided.Table.{IsTable, id_at, find_slot_complete, find_slot-absent}

abbrev pub live_entries : DecidedSet → List Entry
live_entries d = drop d.head d.ring

abbrev pub is_member : Bytes → List Entry → Bool
is_member id [] = false
is_member id (e ∷ es) = bytes_eq e.id id || is_member id es

-- The table holds exactly the live entries.
abbrev pub IsIntact : DecidedSet → Type 0
IsIntact d = IsTable d d.head (length d.ring)

is_member-index :
    (id : Bytes) (es : List Entry)
    → is_member id es ≡ true
    → (i : ℕ) × (i < length es) × ((get_or no_entry es i).id ≡ id)
is_member-index id [] h = ground (arith, h)
is_member-index id (e ∷ es) h = elim (Bool-cases (bytes_eq e.id id)) [
  | inl same ↦ (0, omega arith, bytes_eq→eq e.id id same)
  | inr other ↦
      let (i, lt, same) = is_member-index id es (ground (arith, h, other)) in
      (suc i, omega (arith, lt), same)
]

index-is_member :
    (id : Bytes) (es : List Entry) (i : ℕ)
    → i < length es
    → (get_or no_entry es i).id ≡ id
    → is_member id es ≡ true
index-is_member id [] i lt h = absurd (omega (arith, lt))
index-is_member id (e ∷ es) zero lt h = ground (arith, h, bytes_eq_iff e.id id)
index-is_member id (e ∷ es) (suc i) lt h =
    ground (arith, index-is_member id es i (omega (arith, lt)) h)

pub member_entry :
    (d : DecidedSet) (id : Bytes)
    → is_member id (live_entries d) ≡ true
    → (i : ℕ) × (d.head ≤ i) × (i < length d.ring) × (id_at d i ≡ id)
member_entry d id h =
    let (i, lt, same) = is_member-index id (live_entries d) h in
    (
      d.head + i,
      omega arith,
      omega (arith, lt, length-drop d.head d.ring),
      ap (λ e. e.id) (sym (get_or-drop no_entry d.head d.ring i)) ∙ same,
    )

pub entry_member :
    (d : DecidedSet) (id : Bytes) (i : ℕ)
    → d.head ≤ i
    → i < length d.ring
    → id_at d i ≡ id
    → is_member id (live_entries d) ≡ true
entry_member d id i lo hi same =
    let shift : d.head + (i - d.head) ≡ i = omega (arith, lo) in
    index-is_member id (live_entries d) (i - d.head)
      (omega (arith, lo, hi, length-drop d.head d.ring))
      (ap (λ e. e.id) (get_or-drop no_entry d.head d.ring (i - d.head)) ∙ ap (id_at d) shift ∙ same)

-- In a well-formed set, findSlot finds exactly the ids of the live entries.
pub find_slot-is_member :
    (d : DecidedSet) (id : Bytes) → IsIntact d → (find_slot d id).1 ≡ is_member id (live_entries d)
find_slot-is_member d id t = elim (Bool-cases (is_member id (live_entries d))) [
  | inl member ↦
      let (i, lo, hi, same) = member_entry d id member in
      ap (λ k. (find_slot d k).1) (sym same)
      ∙ find_slot_complete d d.head (length d.ring) t i lo hi
      ∙ sym member
  | inr other ↦
      find_slot-absent d d.head (length d.ring) t id
        (λ i lo hi e. ground (arith, other, entry_member d id i lo hi e))
      ∙ sym other
]

-- A well-formed set has exactly the ids of its live entries.
pub has-is_member :
    (d : DecidedSet) (id : Bytes) → IsIntact d → has d id ≡ is_member id (live_entries d)
unfolding has
has-is_member d id t = find_slot-is_member d id t
