-- ===== src/Tests/IndexRuns.antt =====
-- internal/buffer/index.go on two traces.
use retrosampler.Prelude.{
  ◌≤◌, ◌≡◌, refl, arith, List, [], ◌∷◌, ◌++◌, none, inl, length, true, bytes_eq, bytes_eq→eq,
}
use retrosampler.Prelude.Bytes.{Bytes}
use retrosampler.Buffer.Index.Defs.{Loc, Index, new_index, put, places}
use retrosampler.Buffer.Index.Reclaim.{sweep, compact}
use retrosampler.Buffer.Index.Invariant.{IsIndex}
use retrosampler.Buffer.Index.Append.{Adds}
use retrosampler.Buffer.Index.Put.{put-Adds, new_index-IsIndex}
use retrosampler.Buffer.Index.Compact.{compact-IsIndex}
use retrosampler.Buffer.Index.Sweeps.{Sweeps, sweep-Sweeps}
use retrosampler.Buffer.Index.Runs.{
  Call, puts, sweeps, run, Follows, put_for, run-Follows, run-keeps,
}

abbrev first_id : Bytes
first_id = 1 ∷ 2 ∷ 3 ∷ 4 ∷ 5 ∷ 6 ∷ 7 ∷ 8 ∷ 1 ∷ 0 ∷ 0 ∷ 0 ∷ 0 ∷ 0 ∷ 0 ∷ 0 ∷ []

abbrev second_id : Bytes
second_id = 9 ∷ 2 ∷ 3 ∷ 4 ∷ 5 ∷ 6 ∷ 7 ∷ 8 ∷ 1 ∷ 0 ∷ 0 ∷ 0 ∷ 0 ∷ 0 ∷ 0 ∷ 0 ∷ []

abbrev old_loc : Loc
old_loc = record { gen = 1; off = 0; len = 40; next = none }

abbrev young_loc : Loc
young_loc = record { gen = 3; off = 64; len = 32; next = none }

new_index-small : length (new_index.arena) ≡ 0
unfolding new_index
new_index-small = refl

put-Adds_example : Adds new_index first_id old_loc (put first_id old_loc new_index)
put-Adds_example =
    put-Adds new_index first_id old_loc (new_index-IsIndex.0) (omega (arith, new_index-small))

abbrev one_put : Index
one_put = put first_id old_loc new_index

one_put-small : length (one_put.arena) ≤ 1
one_put-small = omega (
  arith,
  (put-Adds new_index first_id old_loc (new_index-IsIndex.0) (omega (arith, new_index-small))).2,
  new_index-small,
)

one_put-IsIndex : IsIndex one_put
one_put-IsIndex =
    (put-Adds new_index first_id old_loc (new_index-IsIndex.0) (omega (arith, new_index-small))).0

sweep-Sweeps_example : Sweeps 1024 2 one_put (sweep 8 1024 2 one_put)
sweep-Sweeps_example = sweep-Sweeps 8 1024 2 one_put one_put-IsIndex (omega (arith, one_put-small))

compact-IsIndex_example :
    IsIndex (compact one_put)
    × ((k : Bytes) → places (compact one_put) k ≡ places one_put k)
    × (length ((compact one_put).slots) ≡ length (one_put.slots))
    × (length ((compact one_put).arena) ≤ length (one_put.arena))
compact-IsIndex_example = compact-IsIndex one_put one_put-IsIndex (omega (arith, one_put-small))

abbrev calls : List Call
calls =
    puts first_id old_loc
    ∷ puts second_id young_loc
    ∷ sweeps 8 1024 2
    ∷ puts second_id young_loc
    ∷ []

run-Follows_example :
    IsIndex (run calls new_index)
    × ((id : Bytes) → Follows id calls (places new_index id) (places (run calls new_index) id))
run-Follows_example =
    run-Follows calls new_index (new_index-IsIndex.0) (omega (arith, new_index-small))

ids_differ : bytes_eq first_id second_id ≡ true → 2 ≤ 1
ids_differ e = ground (arith, bytes_eq→eq first_id second_id e)

run-keeps_example :
    places (run calls new_index) second_id ≡ places new_index second_id ++ put_for second_id calls
run-keeps_example =
    run-keeps calls new_index second_id 2 (new_index-IsIndex.0) (omega (arith, new_index-small))
      (ids_differ, (λ e. omega arith, (omega arith, (λ e. omega arith, tt))))
      (inl (new_index-IsIndex.1 second_id))
