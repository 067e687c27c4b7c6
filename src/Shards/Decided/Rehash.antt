-- ===== src/Shards/Decided/Rehash.antt =====
-- internal/shards/decided.go: rehash gives a table with room for another entry.
use retrosampler.Prelude.{
  ℕ, zero, suc, ◌+◌, ◌-◌, ◌*◌, ◌%◌, ◌^◌, ◌≤◌, ◌<◌, ◌≡◌, ◌≢◌, refl, sym, ◌∙◌, arith, List,
}
use mathlib.Core.Path.{subst}
use retrosampler.Prelude.{
  Bool-cases, inl, inr, leb, length, get_or, set_at, length-set_at, replicate, length-replicate,
  get_or-replicate, count-replicate,
}
use retrosampler.Shards.Decided.Defs.{
  Entry, DecidedSet, new_decided_set, decided_initial_slots, no_entry, find_slot, insert_live,
  rehash, make_room, live_len,
}
use retrosampler.Probing.Sizes.{table_size, table_size-pow, table_size_fits}
use retrosampler.Shards.Decided.Table.{
  IsTable, id_at, seq, is_live, find_slot-absent, find_slot-Spot,
}
use retrosampler.Shards.Decided.Insert.{given, insert-IsTable}
use retrosampler.Shards.Decided.Live.{IsIntact}

-- A new entry goes to the slot that findSlot gives for its id.
pub insert_found :
    (d : DecidedSet) (lo hi tombs : ℕ) (ring : List Entry)
    → IsTable d lo hi
    → lo ≤ hi
    → hi < length ring
    → d.base_seq + hi + 1 < 2 ^ 64 - 2
    → hi < lo + length d.slots
    → ((i : ℕ) → i < hi → (get_or no_entry ring i).id ≡ id_at d i)
    → ((i : ℕ) → lo ≤ i → i < hi → id_at d i ≢ (get_or no_entry ring hi).id)
    → IsTable (given d hi (find_slot d (get_or no_entry ring hi).id).0 ring tombs) lo (hi + 1)
insert_found d lo hi tombs ring t lo_hi in_ring small room same fresh =
    let id = (get_or no_entry ring hi).id in
    let (lt, dead, way) =
      find_slot-Spot d lo hi t id (omega (arith, t.lives, room))
        (find_slot-absent d lo hi t id fresh) in
    insert-IsTable d lo hi (find_slot d id).0 ring tombs t lo_hi lt dead way in_ring small same
      fresh

-- What the loop of rehash gives: a table of the same size for the same ring, that holds it all.
abbrev pub Filled : DecidedSet → DecidedSet → ℕ → Type 0
Filled d d' lo =
    IsTable d' lo (length d.ring)
    × (length d'.slots ≡ length d.slots)
    × (d'.ring ≡ d.ring)
    × (d'.head ≡ d.head)
    × (d'.base_seq ≡ d.base_seq)

-- The loop of rehash.
insert_live-IsTable :
    (n i lo : ℕ) (d : DecidedSet)
    → IsTable d lo i
    → lo ≤ i
    → i + n ≡ length d.ring
    → d.base_seq + length d.ring < 2 ^ 64 - 2
    → length d.ring < lo + length d.slots
    → ((a b : ℕ)
        → lo ≤ a
        → a < length d.ring
        → lo ≤ b
        → b < length d.ring
        → id_at d a ≡ id_at d b
        → a ≡ b)
    → Filled d (insert_live n i d) lo
unfolding insert_live
insert_live-IsTable zero i lo d t lo_i e small room distinct =
    (subst (IsTable d lo) (omega (arith, e)) t, refl, refl, refl, refl)
insert_live-IsTable (suc n) i lo d t lo_i e small room distinct =
    let j = (find_slot d (id_at d i)).0 in
    let seq_fits : (d.base_seq + i + 1) % 2 ^ 64 ≡ seq d i = omega (arith, small, e) in
    let step =
      insert_found d lo i d.tombs d.ring t lo_i (omega (arith, e)) (omega (arith, e, small))
        (omega (arith, e, room)) (λ k lt. refl)
        (λ k lo_k k_i same.
          omega
            (arith, k_i, distinct k i lo_k (omega (arith, k_i, e)) lo_i (omega (arith, e)) same)) in
    let len = length-set_at j (seq d i) d.slots in
    let (a, b, c, f, g) =
      insert_live-IsTable n (i + 1) lo (record d { slots = set_at j (seq d i) d.slots }) step
        (omega (arith, lo_i)) (omega (arith, e)) small (omega (arith, len, room)) distinct in
    subst (λ v. Filled d (insert_live n (i + 1) (record d { slots = set_at j v d.slots })) lo)
      (sym seq_fits) (a, b ∙ len, c, f, g)

-- The empty table.
blank-IsTable :
    (d : DecidedSet) (size k : ℕ)
    → size ≡ 2 ^ k
    → d.head ≤ length d.ring
    → d.base_seq + length d.ring < 2 ^ 64 - 2
    → IsTable (record d { slots = replicate size 0; tombs = 0 }) d.head d.head
blank-IsTable d size k e h small =
    let len : length (replicate {A = ℕ} size 0) ≡ size = length-replicate size 0 in
    let blank : (j : ℕ)
        → j < length (replicate {A = ℕ} size 0)
        → get_or {A = ℕ} 0 (replicate {A = ℕ} size 0) j ≡ 0 =
      λ j lt. get_or-replicate 0 0 size j (omega (arith, lt, len)) in
    record {
      bits = k;
      size = len ∙ e;
      within = h;
      seqs = omega (arith, h, small);
      refs = λ j lt. inl (blank j lt);
      reach = λ i lo hi. absurd (omega (arith, lo, hi));
      unique = λ i a b i_hi a_lt b_lt ra rb. absurd (omega (arith, blank a a_lt, ra));
      distinct = λ i a lo hi. absurd (omega (arith, lo, hi));
      lives = omega (arith, count-replicate is_live size 0 (ground arith));
    }

-- What rehash gives: the same live entries in a well-formed set, whose table has a slot left for another.
abbrev pub Roomy : DecidedSet → DecidedSet → Type 0
Roomy d d' =
    IsIntact d'
    × (d'.ring ≡ d.ring)
    × (d'.head ≡ d.head)
    × (d'.base_seq ≡ d.base_seq)
    × (length d.ring < d.head + length d'.slots)

at_set :
    (d d' : DecidedSet)
    → d'.ring ≡ d.ring
    → d'.head ≡ d.head
    → IsTable d' d.head (length d.ring)
    → IsIntact d'
at_set d d' ring head t =
    subst (λ lo. IsTable d' lo (length d'.ring)) (sym head)
      (subst (λ r. IsTable d' d.head (length r)) (sym ring) t)

-- The loop over sizes of rehash stops within four doublings for each live entry, at a table of which the
-- entries take less than three quarters.
pub table_size_roomy : (live : ℕ) → 4 * live < 3 * table_size (4 * live) decided_initial_slots live
table_size_roomy live =
    table_size_fits (4 * live) decided_initial_slots live (omega arith) (omega arith)

pub rehash-Roomy : (d : DecidedSet) → IsIntact d → Roomy d (rehash d)
unfolding rehash live_len
rehash-Roomy d t =
    let live = length d.ring - d.head in
    let size = table_size (4 * live) decided_initial_slots live in
    let (k, e) = table_size-pow (4 * live) decided_initial_slots live 10 (omega arith) in
    let below : d.head ≤ length d.ring = omega (arith, t.lives) in
    let empty = blank-IsTable d size k e below t.seqs in
    let len : length (replicate {A = ℕ} size 0) ≡ size = length-replicate size 0 in
    let fits : length d.ring < d.head + size = omega (arith, table_size_roomy live, below) in
    let (a, b, c, f, g) =
      insert_live-IsTable live d.head d.head (record d { slots = replicate size 0; tombs = 0 })
        empty (omega arith) (omega (arith, below)) t.seqs (omega (arith, fits, len))
        (λ i j lo_i i_hi lo_j j_hi same. t.distinct i j lo_i i_hi lo_j j_hi same) in
    (at_set d (rehash d) c f a, c, f, g, omega (arith, fits, len, b))

-- Before mark looks for a slot the set is well formed, holds the same entries, and its table has a slot left.
pub make_room-Roomy : (d : DecidedSet) → IsIntact d → Roomy d (make_room d)
unfolding make_room live_len
make_room-Roomy d t =
    elim (Bool-cases (leb (3 * length d.slots) ((length d.ring - d.head + d.tombs) * 4))) [
      | inl full ↦ rw full (rehash-Roomy d t)
      | inr enough ↦
          let room : length d.ring < d.head + length d.slots = ground (arith, enough, t.lives) in
          rw enough (t, refl, refl, refl, room)
    ]

-- An empty set is well formed.
pub new_decided_set-IsIntact : IsIntact new_decided_set
unfolding new_decided_set
new_decided_set-IsIntact =
    blank-IsTable new_decided_set decided_initial_slots 10 (omega arith) (omega arith) (omega arith)
