-- ===== src/Buffer/Index/Rehash.antt =====
-- internal/buffer/index.go: rehash, grow, and the check of put before it looks for a slot.
use mathlib.Core.Path.{subst}
use retrosampler.Prelude.{
  ℕ, suc, ◌+◌, ◌*◌, ◌^◌, ◌≤◌, ◌<◌, ◌≡◌, refl, sym, ap, ◌∙◌, arith, List, [], ◌∷◌, Option, none,
  some,
}
use retrosampler.Prelude.{
  Bool-cases, Option-cases, inl, inr, leb, if◌then◌else◌, length, get_or, length-set_at, replicate,
  length-replicate, bytes_eq_refl,
}
use retrosampler.Prelude.Bytes.{Bytes}
use retrosampler.Probing.Search.{full}
use retrosampler.Probing.Sizes.{table_size, table_size-pow, table_size_fits}
use retrosampler.Probing.Table.{
  scan, scan_missing, scan_found, holds_key, holds_key-full, is_full, count_full, find_in-free,
}
use retrosampler.Probing.Writes.{write-scan, blank-scan, count_full-set_at}
use retrosampler.Buffer.Index.Defs.{
  Ref, nowhere, buried, ref_of, Slot, Index, empty_slot, start_at, slot_view, find_slot,
  reinsert_slot, reinsert, rehash, grow, make_room, places,
}
use retrosampler.Buffer.Index.Invariant.{
  IsTable, slot_of, held, IsRun, IsFree, IsIndex, stored, places-slot_of,
}

-- The keys of the slots differ.
abbrev pub Separate : List Slot → Type 0
Separate [] = Unit {0}
Separate (s ∷ old) = ((k : Bytes) → slot_view s ≡ full k → slot_of k old ≡ none) × Separate old

pub unique-Separate :
    (xs : List Slot)
    → ((i j : ℕ) (k : Bytes)
        → i < length xs
        → j < length xs
        → slot_view (get_or empty_slot xs i) ≡ full k
        → slot_view (get_or empty_slot xs j) ≡ full k
        → i ≡ j)
    → Separate xs
unique-Separate [] h = tt
unique-Separate (s ∷ xs) h = (
  λ k v. elim (Option-cases (slot_of k xs)) [
    | inl missing ↦ missing
    | inr (u, found) ↦
        let (j, lt, at, w) = scan_found slot_view empty_slot start_at k xs u found in
        absurd
          (omega (arith, h 0 (suc j) k (omega arith) (omega (arith, lt)) v (ap slot_view at ∙ w)))
  ],
  unique-Separate xs (λ i j k i_lt j_lt v w.
      omega (arith, h (suc i) (suc j) k (omega (arith, i_lt)) (omega (arith, j_lt)) v w)),
)

abbrev or_else : Option Slot → Option Slot → Option Slot
or_else none o = o
or_else (some s) o = some s

-- The index but for the table and the count of traces.
abbrev Apart : Index → Index → Type 0
Apart x y = (y.arena ≡ x.arena) × (y.free ≡ x.free) × (y.free_len ≡ x.free_len)

-- The table `x` has got the slots of `old`.
abbrev Filled : List Slot → Index → Index → Type 0
Filled old x y =
    IsTable y.slots
    × ((k : Bytes) → slot_of k y.slots ≡ or_else (slot_of k old) (slot_of k x.slots))
    × (length y.slots ≡ length x.slots)
    × (held y.slots ≡ held x.slots + held old)
    × (y.live_count ≡ held y.slots)
    × Apart x y

abbrev weight_of : Slot → ℕ
weight_of s = if is_full (slot_view s) then 1 else 0

abbrev here_of : Bytes → Slot → Option Slot
here_of k s = if holds_key k (slot_view s) then some s else none

-- One slot goes in.
reinsert_slot-lem :
    (h : Ref) (s : Slot) (x : Index)
    → s.head ≡ h
    → IsTable x.slots
    → ((k : Bytes) → slot_view s ≡ full k → slot_of k x.slots ≡ none)
    → held x.slots + weight_of s < length x.slots + 1
    → x.live_count ≡ held x.slots
    → let y = reinsert_slot h s x in
      IsTable y.slots
      × ((k : Bytes) → slot_of k y.slots ≡ or_else (here_of k s) (slot_of k x.slots))
      × (length y.slots ≡ length x.slots)
      × (held y.slots ≡ held x.slots + weight_of s)
      × (y.live_count ≡ held y.slots)
      × Apart x y
unfolding reinsert_slot find_slot
reinsert_slot-lem nowhere s x e t new room lives =
    (t, λ k. ground (arith, e), refl, ground (arith, e), lives, (refl, refl, refl))
reinsert_slot-lem buried s x e t new room lives =
    (t, λ k. ground (arith, e), refl, ground (arith, e), lives, (refl, refl, refl))
reinsert_slot-lem (ref_of i) s x e t new room lives =
    let v : slot_view s ≡ full s.id = ground (arith, e) in
    let missing = new s.id v in
    let (j, at, lt, free, way) =
      find_in-free slot_view empty_slot start_at x.slots s.id t missing (ground (arith, room, v)) in
    let (t', law) =
      write-scan slot_view empty_slot start_at x.slots j s s.id t lt v way
        (λ k w. ground (arith, ap is_full w, free))
        (λ i i_lt w.
          absurd (scan_missing slot_view empty_slot start_at s.id x.slots missing i i_lt w)) in
    let counts = count_full-set_at slot_view empty_slot start_at x.slots j s lt in
    rw at (
      t',
      λ k. ground (arith, law k, v),
      length-set_at j s x.slots,
      ground (arith, counts, free, v),
      ground (arith, counts, free, v, lives),
      (refl, refl, refl),
    )

held-cons : (s : Slot) (old : List Slot) → held (s ∷ old) ≡ weight_of s + held old
unfolding count_full
held-cons s old = refl

slot_of-cons :
    (k : Bytes) (s : Slot) (old : List Slot)
    → slot_of k (s ∷ old) ≡ or_else (here_of k s) (slot_of k old)
unfolding scan
slot_of-cons k s old = ground arith

here_of-full : (k : Bytes) (s : Slot) → slot_view s ≡ full k → here_of k s ≡ some s
here_of-full k s v = ground (arith, ap (holds_key k) v, bytes_eq_refl k)

here_of-other : (k : Bytes) (s u : Slot) → here_of k s ≡ some u → slot_view s ≡ full k
here_of-other k s u e = holds_key-full k (slot_view s) (ground (arith, e))

or_else-none : (o p : Option Slot) → or_else o p ≡ none → (o ≡ none) × (p ≡ none)
or_else-none none p e = (refl, e)
or_else-none (some s) p e = cc

-- The order of the two does not matter, where one of them is none.
or_else-swap :
    (o p q : Option Slot)
    → ((s : Slot) → o ≡ some s → p ≡ none)
    → or_else p (or_else o q) ≡ or_else (or_else o p) q
or_else-swap none p q h = refl
or_else-swap (some s) p q h = ap (λ r. or_else r (some s)) (h s refl)

reinsert-Filled :
    (old : List Slot) (x : Index)
    → IsTable x.slots
    → Separate old
    → ((k : Bytes) (s : Slot) → slot_of k old ≡ some s → slot_of k x.slots ≡ none)
    → held x.slots + held old ≤ length x.slots
    → x.live_count ≡ held x.slots
    → Filled old x (reinsert old x)
unfolding reinsert scan count_full
reinsert-Filled [] x t sep new room lives =
    (t, λ k. refl, refl, omega arith, lives, (refl, refl, refl))
reinsert-Filled (s ∷ old) x t (fresh, sep) new room lives =
    let y = reinsert_slot s.head s x in
    let (t1, law1, len1, count1, lives1, (a1, f1, n1)) =
      reinsert_slot-lem s.head s x refl t
        (λ k v.
          new k s (slot_of-cons k s old ∙ ap (λ o. or_else o (slot_of k old)) (here_of-full k s v)))
        (omega (arith, room, held-cons s old)) lives in
    let (t2, law2, len2, count2, lives2, (a2, f2, n2)) =
      reinsert-Filled old y t1 sep
        (λ k u e.
          let nowhere_here : here_of k s ≡ none = elim (Option-cases (here_of k s)) [
            | inl absent ↦ absent
            | inr (w, here) ↦ ground (arith, fresh k (here_of-other k s w here), e)
          ] in
          law1 k
          ∙ ap (λ o. or_else o (slot_of k x.slots)) nowhere_here
          ∙ new k u (slot_of-cons k s old ∙ ap (λ o. or_else o (slot_of k old)) nowhere_here ∙ e))
        (omega (arith, room, held-cons s old, count1, len1)) lives1 in
    (
      t2,
      λ k.
          law2 k
          ∙ ap (or_else (slot_of k old)) (law1 k)
          ∙ or_else-swap (here_of k s) (slot_of k old) (slot_of k x.slots)
              (λ u e. fresh k (here_of-other k s u e))
          ∙ ap (λ o. or_else o (slot_of k x.slots)) (sym (slot_of-cons k s old)),
      len2 ∙ len1,
      omega (arith, count1, count2, held-cons s old),
      lives2,
      (a2 ∙ a1, f2 ∙ f1, n2 ∙ n1),
    )

-- The same index, in another table.
abbrev pub Resized : Index → Index → Type 0
Resized x y =
    IsIndex y
    × ((k : Bytes) → places y k ≡ places x k)
    × (y.live_count ≡ x.live_count)
    × (y.arena ≡ x.arena)

or_else-right : (o : Option Slot) → or_else o none ≡ o
or_else-right none = refl
or_else-right (some s) = refl

-- A table that has a slot for each trace holds the same traces.
pub rehash-Resized :
    (x : Index) (size k : ℕ)
    → IsIndex x
    → size ≡ 2 ^ k
    → x.live_count ≤ size
    → Resized x (rehash size x) × (length (rehash size x).slots ≡ size)
unfolding rehash
rehash-Resized x size k t e room =
    let blank = replicate size empty_slot in
    let x0 = record x { slots = blank; live_count = 0; tombs = 0 } in
    let (t0, none0, count0) = blank-scan slot_view empty_slot start_at size k e refl in
    let len0 : length blank ≡ size = length-replicate size empty_slot in
    let (t', law, len, count, lives, (a, f, n)) =
      reinsert-Filled x.slots x0 t0 (unique-Separate x.slots (λ i j k. t.table.unique i j k))
        (λ k s _. none0 k) (omega (arith, count0, len0, room, t.lives)) (sym count0) in
    let y = reinsert x.slots x0 in
    let same : (k : Bytes) → slot_of k y.slots ≡ slot_of k x.slots =
      λ k. law k ∙ ap (or_else (slot_of k x.slots)) (none0 k) ∙ or_else-right (slot_of k x.slots) in
    (
      (
        record {
          own = t.own;
          within = λ i k q. omega (arith, t.within i k q, ap length a);
          table = t';
          runs = λ k s q. subst (λ b. IsRun b t.own k s) (sym a) (t.runs k s (sym (same k) ∙ q));
          frees =
              subst (λ b. IsFree b t.own y.free y.free_len) (sym a)
                (subst (λ o. IsFree x.arena t.own o y.free_len) (sym f)
                  (subst (IsFree x.arena t.own x.free) (sym n) t.frees));
          lives = lives;
        },
        λ k.
            places-slot_of y k t'
            ∙ ap (stored y.arena) (same k)
            ∙ ap (λ b. stored b (slot_of k x.slots)) a
            ∙ sym (places-slot_of x k t.table),
        omega (arith, lives, count, count0, t.lives),
        a,
      ),
      len ∙ len0,
    )

-- grow keeps a well-formed index so, with the same fragments for each trace, the same arena and the same
-- count of traces, which is less than three quarters of the slots of the new table.
pub grow-Resized :
    (x : Index) → IsIndex x → Resized x (grow x) × (4 * x.live_count < 3 * length (grow x).slots)
unfolding grow
grow-Resized x t =
    let size = table_size (4 * x.live_count) 1 x.live_count in
    let (k, e) = table_size-pow (4 * x.live_count) 1 x.live_count 0 (omega arith) in
    let fits = table_size_fits (4 * x.live_count) 1 x.live_count (omega arith) (omega arith) in
    let (same, len) = rehash-Resized x size k t e (omega (arith, fits)) in
    (same, omega (arith, fits, len))

-- Before put looks for a slot, the index has the same fragments, and more slots than traces.
pub make_room-Resized :
    (x : Index) → IsIndex x → Resized x (make_room x) × (x.live_count < length (make_room x).slots)
unfolding make_room
make_room-Resized x t =
    elim (Bool-cases (leb (3 * length x.slots) ((x.live_count + x.tombs) * 4))) [
      | inl crowded ↦ let (same, fits) = grow-Resized x t in rw crowded (same, omega (arith, fits))
      | inr roomy ↦ rw roomy ((t, λ k. refl, refl, refl), ground (arith, roomy))
    ]
