-- ===== src/Buffer/Index/Reclaim.antt =====
-- internal/buffer/index.go: sweep, which frees the chains of dead traces, and compact.
use Prim.Native.Nat.{min}
use retrosampler.Prelude.{
  ℕ, zero, suc, ◌+◌, ◌-◌, ◌*◌, ◌%◌, Bool, ◌&&◌, List, [], ◌∷◌, ◌++◌, Option, none, some,
}
use retrosampler.Prelude.{ltb, leb, if◌then◌else◌, length, get_or, set_at}
use retrosampler.Buffer.Index.Defs.{
  Loc, Ref, nowhere, buried, ref_of, Slot, Index, arena_compact_floor, no_loc, slot_at, at, idx_of,
  or_past, arena_idx, unlinked, set_next,
}

-- The loop, on fuel.
unfoldable pub free_from : ℕ → Option ℕ → Index → Index
free_from zero o x = x
free_from (suc n) none x = x
free_from (suc n) (some i) x =
    free_from n (at x i).next
      (record x { arena = set_next i x.free x.arena; free = some i; free_len = x.free_len + 1 })

unfoldable pub free_chain : Option ℕ → Index → Index
unfolding free_from
free_chain o x = free_from (length x.arena) o x

abbrev pub loc_of : Index → Ref → Loc
loc_of x r = at x (or_past (idx_of r) (length x.arena))

-- What sweep does to the slot of a dead trace.
unfoldable pub bury : Index → ℕ → Index
unfolding free_chain
bury x j =
    let s = slot_at x j in
    let y = free_chain (idx_of s.head) x in
    record y {
      slots = set_at j (record s { head = buried; tail = nowhere }) y.slots;
      live_count = x.live_count - 1;
      tombs = x.tombs + 1;
    }

-- One round of the loop of sweep, whose slot has that head.
unfoldable pub sweep_head : Ref → Index → ℕ → ℕ → Index
unfolding bury
sweep_head nowhere x j min_gen = x
sweep_head buried x j min_gen = x
sweep_head (ref_of i) x j min_gen =
    if ltb (loc_of x (slot_at x j).tail).gen min_gen then bury x j else x

unfoldable pub sweep_slot : Index → ℕ → ℕ → Index
unfolding sweep_head
sweep_slot x j min_gen = sweep_head (slot_at x j).head x j min_gen

-- The slots from `j` on, `n` of them, and round to the first after the last.
unfoldable pub sweep_from : ℕ → ℕ → ℕ → Index → Index
unfolding sweep_slot
sweep_from zero j min_gen x = x
sweep_from (suc n) j min_gen x =
    sweep_from n (j + 1) min_gen (sweep_slot x (j % length x.slots) min_gen)

-- The chain from `o` on, copied to the end of the arena `b`, where `first` and `prev` are the loop's newHead and
-- prev. The first pass of compact gives only the capacity of `b`, which changes no value.
unfoldable pub copy_chain :
    ℕ → List Loc → Option ℕ → List Loc → Option ℕ → Option ℕ → List Loc × (Option ℕ × Option ℕ)
unfolding arena_idx
copy_chain zero a o b first prev = (b, (first, prev))
copy_chain (suc n) a none b first prev = (b, (first, prev))
copy_chain (suc n) a (some i) b first prev =
    let ni = arena_idx (length b) in
    let grown = b ++ (unlinked (get_or no_loc a i) ∷ []) in
    copy_chain n a (get_or no_loc a i).next
      (elim prev [ none ↦ grown | some p ↦ set_next p (some ni) grown ])
      (elim prev [ none ↦ some ni | some p ↦ first ]) (some ni)

-- refOf, where -1 gives 0.
abbrev pub to_ref : Option ℕ → Ref
to_ref none = nowhere
to_ref (some i) = ref_of i

-- One round of the loop of compact, over a slot with that head.
unfoldable pub compact_slot : Ref → List Loc → Slot → List Loc → Slot × List Loc
unfolding copy_chain
compact_slot nowhere a s b = (s, b)
compact_slot buried a s b = (s, b)
compact_slot (ref_of i) a s b =
    let r = copy_chain (length a) a (some i) b none none in
    (record s { head = to_ref r.1.0; tail = to_ref r.1.1 }, r.0)

unfoldable pub compact_slots : List Loc → List Slot → List Loc → List Slot × List Loc
unfolding compact_slot
compact_slots a [] b = ([], b)
compact_slots a (s ∷ slots) b =
    let r = compact_slot s.head a s b in
    let rest = compact_slots a slots r.1 in (r.0 ∷ rest.0, rest.1)

unfoldable pub compact : Index → Index
unfolding compact_slots
compact x =
    let r = compact_slots x.arena x.slots [] in
    record x { slots = r.0; arena = r.1; free = none; free_len = 0 }

-- `capacity` is that of the arena, which the runtime chooses.
unfoldable pub is_slack : ℕ → Index → Bool
is_slack capacity x =
    let needed = length x.arena - x.free_len in
    leb arena_compact_floor (length x.arena) && ltb 0 needed && ltb needed ((capacity - needed) * 4)

unfoldable pub sweep : ℕ → ℕ → ℕ → Index → Index
unfolding sweep_from is_slack compact
sweep capacity n min_gen x =
    let y = sweep_from (min n (length x.slots)) x.cursor min_gen x in
    let z = record y { cursor = (x.cursor + n) % length x.slots } in
    if is_slack capacity z then compact z else z
