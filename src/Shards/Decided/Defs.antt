-- ===== src/Shards/Decided/Defs.antt =====
-- internal/shards/decided.go: decidedSet, an open-addressing table of references into a ring of entries.
-- A length is not negative, so lenU64 keeps it and tableMask takes one off, or gives 0 for 0.
use Prim.Native.Nat.{bit_and, bit_xor}
use retrosampler.Prelude.{
  ℕ, zero, suc, ◌+◌, ◌-◌, ◌*◌, ◌/◌, ◌%◌, ◌^◌, Bool, true, false, not, List, [], ◌∷◌, ◌++◌, Option,
  none, some,
}
use retrosampler.Prelude.{
  ltb, leb, ◌==◌, if◌then◌else◌, length, take, drop, get_or, set_at, replicate,
}
use retrosampler.Prelude.Bytes.{Bytes, le_value}
use retrosampler.Prelude.Ints.{ℤ, pos, ltb_ℤ}
use retrosampler.Probing.Search.{View, vacant, tomb, full, search_from}
use retrosampler.Probing.Sizes.{len_bits, table_size}
use retrosampler.Shards.Route.{fib_seed}

abbrev pub decided_initial_slots : ℕ
decided_initial_slots = 1024

abbrev pub decided_empty : ℕ
decided_empty = 0

abbrev pub decided_tomb : ℕ
decided_tomb = 2 ^ 64 - 1

pub record Entry : Type 0 where
  pub id : Bytes
  pub deadline : ℤ

pub record DecidedSet : Type 0 where
  pub slots : List ℕ
  pub ring : List Entry
  pub head : ℕ
  pub base_seq : ℕ
  pub tombs : ℕ

-- The capacity of the ring is not modelled: it changes no value.
unfoldable pub new_decided_set : DecidedSet
new_decided_set = record {
  slots = replicate decided_initial_slots 0;
  ring = [];
  head = 0;
  base_seq = 0;
  tombs = 0;
}

abbrev pub table_mask : ℕ → ℕ
table_mask n = n - 1

unfoldable pub fib_hash : Bytes → ℕ
fib_hash id = (bit_xor (le_value (take 8 id)) (le_value (drop 8 id)) * fib_seed) % 2 ^ 64

unfoldable pub start_slot : DecidedSet → Bytes → ℕ
start_slot d id =
    let mask = table_mask (length d.slots) in
    bit_and (fib_hash id / 2 ^ (64 - len_bits 64 mask)) mask

abbrev pub no_entry : Entry
no_entry = record { id = []; deadline = pos 0 }

abbrev pub entry_at : DecidedSet → ℕ → Entry
entry_at d i = get_or no_entry d.ring i

-- `d.ring[ref-1-d.baseSeq]`: a reference out of range, at which the source panics, reads as no entry; a
-- well-formed set has none.
unfoldable pub slot_view : DecidedSet → ℕ → View
slot_view d ref =
    if ref == decided_empty
    then vacant
    else if ref == decided_tomb
    then tomb
    else full (entry_at d ((ref + (2 ^ 64 - 1 - d.base_seq)) % 2 ^ 64)).id

abbrev pub view_at : DecidedSet → ℕ → View
view_at d j = slot_view d (get_or 0 d.slots j)

-- Both summands are below the length of the table, so the sum does not wrap.
abbrev pub probe_at : DecidedSet → Bytes → ℕ → ℕ
probe_at d id p = bit_and (start_slot d id + p) (table_mask (length d.slots))

abbrev pub slot_or_0 : Option ℕ → ℕ
slot_or_0 none = 0
slot_or_0 (some j) = j

unfoldable pub find_slot : DecidedSet → Bytes → ℕ × Bool
find_slot d id =
    let r = search_from (view_at d) (probe_at d id) id (table_mask (length d.slots) + 1) 0 none in
    (slot_or_0 r.0, r.1)

unfoldable pub live_len : DecidedSet → ℕ
live_len d = length d.ring - d.head

-- The loop of rehash over the live entries, from entry `i` on.
unfoldable pub insert_live : ℕ → ℕ → DecidedSet → DecidedSet
unfolding find_slot
insert_live zero i d = d
insert_live (suc n) i d = insert_live n (i + 1) (record d {
  slots = set_at (find_slot d (entry_at d i).id).0 ((d.base_seq + i + 1) % 2 ^ 64) d.slots;
})

unfoldable pub rehash : DecidedSet → DecidedSet
unfolding insert_live table_size live_len
rehash d = insert_live (live_len d) d.head (record d {
  slots = replicate (table_size (4 * live_len d) decided_initial_slots (live_len d)) 0;
  tombs = 0;
})

unfoldable pub push : DecidedSet → Entry → DecidedSet
push d e = record d { ring = d.ring ++ (e ∷ []) }

unfoldable pub make_room : DecidedSet → DecidedSet
unfolding rehash live_len
make_room d = if leb (3 * length d.slots) ((live_len d + d.tombs) * 4) then rehash d else d

-- What mark does once the slot is known to be free. The count of tombstones stops at 0, as ℕ does.
unfoldable pub occupy : DecidedSet → ℕ → Entry → DecidedSet
unfolding push
occupy d i e =
    push
      (record d {
        slots = set_at i ((d.base_seq + length d.ring + 1) % 2 ^ 64) d.slots;
        tombs = if get_or 0 d.slots i == decided_tomb then d.tombs - 1 else d.tombs;
      })
      e

unfoldable pub mark : DecidedSet → Bytes → ℤ → Bool × DecidedSet
unfolding make_room find_slot occupy
mark d id deadline =
    let d1 = make_room d in
    let r = find_slot d1 id in
    if r.1 then (false, d1) else (true, occupy d1 r.0 (record { id = id; deadline = deadline }))

unfoldable pub has : DecidedSet → Bytes → Bool
unfolding find_slot
has d id = (find_slot d id).1

-- One round of the loop of evict, whose deadline has passed.
unfoldable pub bury : DecidedSet → DecidedSet
unfolding find_slot
bury d =
    let r = find_slot d (entry_at d d.head).id in
    record d {
      slots = if r.1 then set_at r.0 decided_tomb d.slots else d.slots;
      tombs = if r.1 then d.tombs + 1 else d.tombs;
      head = d.head + 1;
    }

abbrev pub is_expired : ℤ → Entry → Bool
is_expired now e = not (ltb_ℤ now e.deadline)

-- The loop, for the entries that are left in the ring, and the number that it evicts.
unfoldable pub evict_loop : ℕ → ℤ → DecidedSet → ℕ × DecidedSet
unfolding bury
evict_loop zero now d = (0, d)
evict_loop (suc n) now d =
    let rest = evict_loop n now (bury d) in
    if is_expired now (entry_at d d.head) then (rest.0 + 1, rest.1) else (0, d)

unfoldable pub compact_ring : DecidedSet → DecidedSet
compact_ring d =
    if d.head == length d.ring
    then record d { base_seq = (d.base_seq + d.head) % 2 ^ 64; ring = []; head = 0 }
    else if ltb (length d.ring) (2 * d.head)
    then record d { base_seq = (d.base_seq + d.head) % 2 ^ 64; ring = drop d.head d.ring; head = 0 }
    else d

unfoldable pub evict : ℤ → DecidedSet → ℕ × DecidedSet
unfolding evict_loop compact_ring live_len
evict now d = let r = evict_loop (live_len d) now d in (r.0, compact_ring r.1)
