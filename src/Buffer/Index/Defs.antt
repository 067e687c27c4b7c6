-- ===== src/Buffer/Index/Defs.antt =====
-- internal/buffer/index.go: index, an open-addressing table of traces, each with a chain of locs in an arena.
-- Indices are below 2 ^ 31, so the conversions of lenU64, tableMask and probeIdx keep the values they get.
use Prim.Native.Nat.{bit_and, bit_xor}
use retrosampler.Prelude.{
  ℕ, zero, suc, ◌+◌, ◌-◌, ◌*◌, ◌/◌, ◌%◌, ◌^◌, Bool, true, false, List, [], ◌∷◌, ◌++◌, Option, none,
  some,
}
use retrosampler.Prelude.{ltb, leb, if◌then◌else◌, length, take, drop, get_or, set_at, replicate}
use retrosampler.Prelude.Bytes.{Bytes, le_value}
use retrosampler.Probing.Search.{View, vacant, tomb, full}
use retrosampler.Probing.Sizes.{len_bits, table_size}
use retrosampler.Probing.Table.{find_in}

abbrev pub initial_slots : ℕ
initial_slots = 1024

abbrev pub arena_compact_floor : ℕ
arena_compact_floor = 1024

abbrev pub hash_seed : ℕ
hash_seed = 0x9E3779B97F4A7C15

-- `next` is none for -1.
pub record Loc : Type 0 where
  pub gen : ℕ
  pub off : ℕ
  pub len : ℕ
  pub next : Option ℕ

-- A slot's head or tail: 0, -1, or an arena index plus one.
pub data Ref : Type 0 where
  nowhere : Ref
  buried : Ref
  ref_of : ℕ → Ref

pub record Slot : Type 0 where
  pub id : Bytes
  pub head : Ref
  pub tail : Ref

pub record Index : Type 0 where
  pub slots : List Slot
  pub arena : List Loc
  pub free : Option ℕ
  pub free_len : ℕ
  pub live_count : ℕ
  pub tombs : ℕ
  pub cursor : ℕ

abbrev pub no_loc : Loc
no_loc = record { gen = 0; off = 0; len = 0; next = none }

abbrev pub empty_slot : Slot
empty_slot = record { id = []; head = nowhere; tail = nowhere }

unfoldable pub new_index : Index
new_index = record {
  slots = replicate initial_slots empty_slot;
  arena = [];
  free = none;
  free_len = 0;
  live_count = 0;
  tombs = 0;
  cursor = 0;
}

unfoldable pub arena_idx : ℕ → ℕ
arena_idx n = if ltb (2 ^ 31 - 1) n then 0 else n

-- Both negative values, of an empty slot and of a tombstone, are none.
abbrev pub idx_of : Ref → Option ℕ
idx_of nowhere = none
idx_of buried = none
idx_of (ref_of i) = some i

unfoldable pub hash_key : Bytes → ℕ
hash_key id = (bit_xor (le_value (take 8 id)) (le_value (drop 8 id)) * hash_seed) % 2 ^ 64

-- In a table of `n` slots.
unfoldable pub start_at : ℕ → Bytes → ℕ
unfolding hash_key
start_at n id = bit_and (hash_key id / 2 ^ (64 - len_bits 64 (n - 1))) (n - 1)

-- The cases of the switch of findSlot.
abbrev pub slot_view : Slot → View
slot_view s = elim s.head [ nowhere ↦ vacant | buried ↦ tomb | ref_of i ↦ full s.id ]

unfoldable pub find_slot : Index → Bytes → Option ℕ × Bool
find_slot x id = find_in slot_view empty_slot start_at x.slots id

abbrev pub slot_at : Index → ℕ → Slot
slot_at x j = get_or empty_slot x.slots j

-- An arena index out of range, at which the source panics, reads as no loc; a well-formed index has none.
abbrev pub at : Index → ℕ → Loc
at x i = get_or no_loc x.arena i

-- The index -1, at which the source panics, stands past the end.
abbrev pub or_past : Option ℕ → ℕ → ℕ
or_past none n = n
or_past (some i) n = i

-- A loc as it enters the arena: `l.next = -1`.
abbrev pub unlinked : Loc → Loc
unlinked l = record l { next = none }

-- What alloc does with the head of the free list.
unfoldable pub alloc_at : Option ℕ → Index → Loc → ℕ × Index
unfolding arena_idx
alloc_at none x l = (arena_idx (length x.arena), record x { arena = x.arena ++ (unlinked l ∷ []) })
alloc_at (some i) x l = (
  i,
  record x {
    free = (at x i).next;
    free_len = x.free_len - 1;
    arena = set_at i (unlinked l) x.arena;
  },
)

unfoldable pub alloc : Index → Loc → ℕ × Index
unfolding alloc_at
alloc x l = alloc_at x.free x l

-- `x.arena[i].next = n`.
abbrev pub set_next : ℕ → Option ℕ → List Loc → List Loc
set_next i n a = set_at i (record (get_or no_loc a i) { next = n }) a

-- One round of the loop of rehash, over an old slot with that head.
unfoldable pub reinsert_slot : Ref → Slot → Index → Index
unfolding find_slot
reinsert_slot nowhere s x = x
reinsert_slot buried s x = x
reinsert_slot (ref_of i) s x = record x {
  slots = set_at (or_past (find_slot x s.id).0 (length x.slots)) s x.slots;
  live_count = x.live_count + 1;
}

unfoldable pub reinsert : List Slot → Index → Index
unfolding reinsert_slot
reinsert [] x = x
reinsert (s ∷ old) x = reinsert old (reinsert_slot s.head s x)

unfoldable pub rehash : ℕ → Index → Index
unfolding reinsert
rehash size x =
    reinsert x.slots (record x { slots = replicate size empty_slot; live_count = 0; tombs = 0 })

-- The loop over sizes is on fuel.
unfoldable pub grow : Index → Index
unfolding rehash
grow x = rehash (table_size (4 * x.live_count) 1 x.live_count) x

-- What put does once it has the slot `j` of a trace that is known.
unfoldable pub link : Index → ℕ → Loc → Index
unfolding alloc
link x j l =
    let s = slot_at x j in
    let a = alloc x l in
    record (a.1) {
      arena = set_next (or_past (idx_of s.tail) (length a.1.arena)) (some a.0) a.1.arena;
      slots = set_at j (record s { tail = ref_of a.0 }) x.slots;
    }

abbrev pub is_buried : Ref → Bool
is_buried nowhere = false
is_buried buried = true
is_buried (ref_of i) = false

-- What put does once it has a slot for a new trace. The count of tombstones stops at 0, as ℕ does.
unfoldable pub enter : Index → ℕ → Bytes → Loc → Index
unfolding alloc
enter x j id l =
    let a = alloc x l in
    record (a.1) {
      slots = set_at j (record { id = id; head = ref_of a.0; tail = ref_of a.0 }) x.slots;
      tombs = if is_buried (slot_at x j).head then x.tombs - 1 else x.tombs;
      live_count = x.live_count + 1;
    }

unfoldable pub make_room : Index → Index
unfolding grow
make_room x = if leb (3 * length x.slots) ((x.live_count + x.tombs) * 4) then grow x else x

unfoldable pub put : Bytes → Loc → Index → Index
unfolding make_room find_slot link enter
put id l x =
    let y = make_room x in
    let r = find_slot y id in
    let j = or_past r.0 (length y.slots) in if r.1 then link y j l else enter y j id l

unfoldable pub head : Index → Bytes → Option ℕ
unfolding find_slot
head x id =
    let r = find_slot x id in
    if r.1 then idx_of (slot_at x (or_past r.0 (length x.slots))).head else none

unfoldable pub live : Index → ℕ
live x = x.live_count

-- The loop of Collect over a chain, on fuel.
unfoldable pub read : ℕ → List Loc → Option ℕ → List Loc
read zero a o = []
read (suc n) a none = []
read (suc n) a (some i) = unlinked (get_or no_loc a i) ∷ read n a (get_or no_loc a i).next

-- Where the fragments of a trace are, in order.
unfoldable pub places : Index → Bytes → List Loc
unfolding head read
places x id = read (length x.arena) x.arena (head x id)
