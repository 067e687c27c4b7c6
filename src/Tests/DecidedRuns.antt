-- ===== src/Tests/DecidedRuns.antt =====
-- internal/shards/decided.go on a few ids.
use retrosampler.Prelude.{◌≡◌, ◌<◌, ◌≤◌, ◌+◌, arith, List, [], ◌∷◌, ◌-◌, ◌^◌}
use retrosampler.Prelude.Bytes.{Bytes}
use retrosampler.Prelude.Ints.{pos}
use retrosampler.Shards.Decided.Defs.{DecidedSet, new_decided_set, mark, evict}
use retrosampler.Shards.Decided.Live.{IsIntact, live_entries}
use retrosampler.Shards.Decided.Rehash.{new_decided_set-IsIntact}
use retrosampler.Shards.Decided.Refine.{list_mark, list_evict, issued, mark_lem, evict_lem}
use retrosampler.Shards.Decided.Runs.{Call, marks, asks, evicts, answers, list_answers, answers_lem}

abbrev first_id : Bytes
first_id = 9 ∷ 8 ∷ 7 ∷ 6 ∷ 5 ∷ 4 ∷ 3 ∷ 2 ∷ 1 ∷ 0 ∷ 1 ∷ 2 ∷ 3 ∷ 4 ∷ 5 ∷ 6 ∷ []

-- The halves are those of first_id, the other way round, so the two ids have one hash.
abbrev swapped_id : Bytes
swapped_id = 1 ∷ 0 ∷ 1 ∷ 2 ∷ 3 ∷ 4 ∷ 5 ∷ 6 ∷ 9 ∷ 8 ∷ 7 ∷ 6 ∷ 5 ∷ 4 ∷ 3 ∷ 2 ∷ []

abbrev calls : List Call
calls =
    marks first_id (pos 10)
    ∷ marks swapped_id (pos 20)
    ∷ marks first_id (pos 30)
    ∷ evicts (pos 10)
    ∷ asks first_id
    ∷ asks swapped_id
    ∷ []

answers_lem_example : answers calls new_decided_set ≡ list_answers calls []
answers_lem_example = answers_lem calls (omega arith)

abbrev one_marked : DecidedSet
one_marked = (mark new_decided_set first_id (pos 10)).1

new_small : issued new_decided_set + 1 < 2 ^ 64 - 2
unfolding new_decided_set
new_small = omega arith

one_marked-IsIntact : IsIntact one_marked
one_marked-IsIntact =
    (mark_lem new_decided_set first_id (pos 10) new_decided_set-IsIntact new_small).0

mark_lem_example :
    let r = mark new_decided_set first_id (pos 10) in
    IsIntact r.1
    × ((r.0, live_entries r.1) ≡ list_mark first_id (pos 10) (live_entries new_decided_set))
    × (issued r.1 ≤ issued new_decided_set + 1)
mark_lem_example = mark_lem new_decided_set first_id (pos 10) new_decided_set-IsIntact new_small

evict_lem_example :
    let r = evict (pos 10) one_marked in
    IsIntact r.1
    × ((r.0, live_entries r.1) ≡ list_evict (pos 10) (live_entries one_marked))
    × (issued r.1 ≡ issued one_marked)
evict_lem_example = evict_lem one_marked (pos 10) one_marked-IsIntact
