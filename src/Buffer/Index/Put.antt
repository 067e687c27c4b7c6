-- ===== src/Buffer/Index/Put.antt =====
-- internal/buffer/index.go: put, and the empty index.
use retrosampler.Prelude.{
  ℕ, ◌^◌, ◌<◌, ◌≡◌, refl, sym, ap, ◌∙◌, arith, Bool, [], ◌∷◌, ◌++◌, Option, none,
}
use retrosampler.Prelude.{Option-cases, inl, inr, if◌then◌else◌, length, bytes_eq}
use retrosampler.Prelude.Bytes.{Bytes}
use retrosampler.Probing.Table.{find_in-held, find_in-free}
use retrosampler.Probing.Writes.{blank-scan}
use retrosampler.Buffer.Index.Defs.{
  Loc, Index, initial_slots, new_index, empty_slot, start_at, slot_view, unlinked, or_past,
  find_slot, link, enter, make_room, put, places,
}
use retrosampler.Buffer.Index.Invariant.{slot_of, IsIndex, places-slot_of, stored, stored-none}
use retrosampler.Buffer.Index.Append.{Adds, link-Adds, enter-Adds}
use retrosampler.Buffer.Index.Rehash.{make_room-Resized}

-- The last step of put, with what findSlot gives.
put_found : Index → Bytes → Loc → Option ℕ × Bool → Index
put_found y id l r =
    let j = or_past r.0 (length y.slots) in if r.1 then link y j l else enter y j id l

put_found-Adds :
    (y : Index) (id : Bytes) (l : Loc)
    → IsIndex y
    → y.live_count < length y.slots
    → length y.arena < 2 ^ 31
    → Adds y id l (put_found y id l (find_slot y id))
unfolding find_slot put_found
put_found-Adds y id l t room small = elim (Option-cases (slot_of id y.slots)) [
  | inl missing ↦
      let (j, e, lt, free, way) =
        find_in-free slot_view empty_slot start_at y.slots id t.table missing
          (omega (arith, room, t.lives)) in
      rw e (enter-Adds y t id j l missing lt free way small)
  | inr (s, found) ↦
      let (j, e, lt, at, v) =
        find_in-held slot_view empty_slot start_at y.slots id s t.table found in
      rw e (link-Adds y t id j l s found lt at v small)
]

-- In a well-formed index with fewer than 2 ^ 31 locs, put adds the fragment after those of its trace, and
-- each other trace has the fragments that it had; the index stays well formed, and its arena grows by one
-- loc at most.
pub put-Adds :
    (x : Index) (id : Bytes) (l : Loc)
    → IsIndex x
    → length x.arena < 2 ^ 31
    → Adds x id l (put id l x)
unfolding put put_found
put-Adds x id l t small =
    let ((t1, same, lives, a), room) = make_room-Resized x t in
    let (t2, law, by_one) =
      put_found-Adds (make_room x) id l t1 (omega (arith, lives, room))
        (omega (arith, ap length a, small)) in
    (
      t2,
      λ k.
          law k
          ∙ ap (λ q. if bytes_eq id k then q ++ (unlinked l ∷ []) else places (make_room x) k)
              (same id)
          ∙ ap (λ q. if bytes_eq id k then places x id ++ (unlinked l ∷ []) else q) (same k),
      omega (arith, by_one, ap length a),
    )

-- The new index is well formed and empty.
pub new_index-IsIndex : IsIndex new_index × ((id : Bytes) → places new_index id ≡ [])
unfolding new_index
new_index-IsIndex =
    let (t, missing, count) =
      blank-scan slot_view empty_slot start_at initial_slots 10 (omega arith) refl in
    let good : IsIndex new_index = record {
      own = λ i. none;
      within = λ i k e. cc;
      table = t;
      runs = λ k s e. ground (arith, missing k, e);
      frees = record { nodes = []; chain = refl; unowned = tt; distinct = tt; number = refl };
      lives = sym count;
    } in
    (
      good,
      λ k.
          places-slot_of new_index k t
          ∙ ap (stored new_index.arena) (missing k)
          ∙ stored-none new_index.arena,
    )
