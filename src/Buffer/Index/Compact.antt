-- ===== src/Buffer/Index/Compact.antt =====
-- internal/buffer/index.go: compact keeps the fragments of each trace.
use mathlib.Core.Path.{subst}
use retrosampler.Prelude.{
  ℕ, zero, suc, ◌^◌, ◌≤◌, ◌<◌, ◌≡◌, ◌≢◌, refl, sym, ap, ◌∙◌, arith, List, [], ◌∷◌, Option, none,
  some,
}
use retrosampler.Prelude.{Option-cases, inl, inr, length, get_or, All}
use retrosampler.Prelude.Bytes.{Bytes}
use retrosampler.Probing.Search.{full}
use retrosampler.Probing.Table.{
  is_full, count_full, scan_found, scan_at, scan_missing, scan_nowhere,
}
use retrosampler.Probing.Writes.{Reaches-mono}
use retrosampler.Buffer.Index.Defs.{Loc, Slot, Index, empty_slot, start_at, slot_view, places}
use retrosampler.Buffer.Index.Reclaim.{compact_slot, compact_slots, compact}
use retrosampler.Buffer.Index.Invariant.{
  IsTable, slot_of, held, IsRun, IsRun-mono, IsIndex, stored, stored-none, places-slot_of,
}
use retrosampler.Buffer.Index.Links.{length-chain}
use retrosampler.Buffer.Index.Rehash.{Separate, unique-Separate}
use retrosampler.Buffer.Index.Packed.{IsPart, Extends, compact_slot-IsPacked}

abbrev slot_in : List Slot → ℕ → Slot
slot_in slots j = get_or empty_slot slots j

-- What compact's loop gives for the slots, from the new arena `b` on.
record IsCopy (a b : List Loc) (own : ℕ → Option Bytes) (slots slots' : List Slot) (b' : List Loc)
    : Type 0 where
  pub own' : ℕ → Option Bytes
  pub within : (i : ℕ) (k : Bytes) → own' i ≡ some k → i < length b'
  pub extends : Extends b own b' own'
  pub fits : length b' ≤ length a
  pub len : length slots' ≡ length slots
  pub same : (j : ℕ) → slot_view (slot_in slots' j) ≡ slot_view (slot_in slots j)
  pub count : held slots' ≡ held slots
  pub run :
      (j : ℕ) (k : Bytes)
      → j < length slots
      → slot_view (slot_in slots j) ≡ full k
      → IsRun b' own' k (slot_in slots' j)
        × (stored b' (some (slot_in slots' j)) ≡ stored a (some (slot_in slots j)))

Extends-trans :
    (b c d : List Loc) (own own1 own2 : ℕ → Option Bytes)
    → Extends b own c own1
    → Extends c own1 d own2
    → Extends b own d own2
Extends-trans b c d own own1 own2 (le1, h1) (le2, h2) = (
  omega (arith, le1, le2),
  λ i lt. let (p, q) = h1 i lt in let (r, u) = h2 i (omega (arith, lt, le1)) in (r ∙ p, u ∙ q),
)

held-same :
    (s s' : Slot) (xs xs' : List Slot)
    → slot_view s' ≡ slot_view s
    → held xs' ≡ held xs
    → held (s' ∷ xs') ≡ held (s ∷ xs)
unfolding count_full
held-same s s' xs xs' v e = ground (arith, ap is_full v, e)

-- The slots whose chains are left to copy: their keys differ, and none of their locs is visited.
abbrev IsLeft : List Loc → (ℕ → Option Bytes) → List ℕ → List Slot → Type 0
IsLeft a from visited [] = Unit {0}
IsLeft a from visited (s ∷ slots) =
    ((k : Bytes) → slot_view s ≡ full k → IsRun a from k s × All (λ i. from i ≢ some k) visited)
    × IsLeft a from visited slots

IsLeft-spared :
    (a : List Loc) (from : ℕ → Option Bytes) (m m' : List ℕ) (slots : List Slot)
    → ((j : ℕ) (k : Bytes)
        → j < length slots
        → slot_view (slot_in slots j) ≡ full k
        → All (λ i. from i ≢ some k) m
        → All (λ i. from i ≢ some k) m')
    → IsLeft a from m slots
    → IsLeft a from m' slots
IsLeft-spared a from m m' [] h left = tt
IsLeft-spared a from m m' (s ∷ slots) h (here, left) = (
  λ k v. let (r, away) = here k v in (r, h 0 k (omega arith) v away),
  IsLeft-spared a from m m' slots (λ j k lt v. h (suc j) k (omega (arith, lt)) v) left,
)

compact_slots-IsCopy :
    (slots : List Slot) (a : List Loc) (from : ℕ → Option Bytes) (b : List Loc)
    (own : ℕ → Option Bytes) (visited : List ℕ)
    → length a ≤ 2 ^ 31
    → IsPart a b own visited
    → Separate slots
    → IsLeft a from visited slots
    → IsCopy a b own slots (compact_slots a slots b).0 (compact_slots a slots b).1
unfolding compact_slots
compact_slots-IsCopy [] a from b own visited small part sep left = record {
  own' = own;
  within = part.within;
  extends = (omega arith, λ i lt. (refl, refl));
  fits = omega (arith, part.number, length-chain (length a) visited part.distinct part.inside);
  len = refl;
  same = λ j. refl;
  count = refl;
  run = λ j k lt. absurd (omega (arith, lt));
}
compact_slots-IsCopy (s ∷ slots) a from b own visited small part (fresh, sep) (here, left) =
    let p = compact_slot-IsPacked a from b own visited part s.head s refl small here in
    let s' = (compact_slot s.head a s b).0 in
    let b1 = (compact_slot s.head a s b).1 in
    let spared =
      IsLeft-spared a from visited p.visited' slots
        (λ j k lt v.
          p.spared k (λ u. scan_missing slot_view empty_slot start_at k slots (fresh k u) j lt v))
        left in
    let c = compact_slots-IsCopy slots a from b1 p.own' p.visited' small p.part sep spared in
    let rest = compact_slots a slots b1 in
    record {
      own' = c.own';
      within = c.within;
      extends = Extends-trans b b1 rest.1 own p.own' c.own' p.extends c.extends;
      fits = c.fits;
      len = ap suc c.len;
      same = same_at s s' slots rest.0 p.same c.same;
      count = held-same s s' slots rest.0 p.same c.count;
      run =
          run_at s s' slots rest.0 rest.1 c.own'
            (λ k v.
              let (r, st) = p.run k v in
              let (r', st') =
                IsRun-mono b1 rest.1 p.own' c.own' k s'
                  (λ i mine lt.
                    let (q, u) = c.extends.1 i lt in
                    ((omega (arith, lt, c.extends.0), q), u ∙ mine))
                  r in
              (r', st' ∙ st))
            c.run;
    }
  where
    same_at :
        (s s' : Slot) (xs xs' : List Slot)
        → slot_view s' ≡ slot_view s
        → ((j : ℕ) → slot_view (slot_in xs' j) ≡ slot_view (slot_in xs j))
        → (j : ℕ) → slot_view (slot_in (s' ∷ xs') j) ≡ slot_view (slot_in (s ∷ xs) j)
    same_at s s' xs xs' v h zero = v
    same_at s s' xs xs' v h (suc j) = h j

    run_at :
        (s s' : Slot) (xs xs' : List Slot) (d : List Loc) (o : ℕ → Option Bytes)
        → ((k : Bytes)
            → slot_view s ≡ full k
            → IsRun d o k s' × (stored d (some s') ≡ stored a (some s)))
        → ((j : ℕ) (k : Bytes)
            → j < length xs
            → slot_view (slot_in xs j) ≡ full k
            → IsRun d o k (slot_in xs' j)
              × (stored d (some (slot_in xs' j)) ≡ stored a (some (slot_in xs j))))
        → (j : ℕ) (k : Bytes) → j < suc (length xs)
        → slot_view (slot_in (s ∷ xs) j) ≡ full k
        → IsRun d o k (slot_in (s' ∷ xs') j)
          × (stored d (some (slot_in (s' ∷ xs') j)) ≡ stored a (some (slot_in (s ∷ xs) j)))
    run_at s s' xs xs' d o h hs zero k lt v = h k v
    run_at s s' xs xs' d o h hs (suc j) k lt v = hs j k (omega (arith, lt)) v

IsLeft-all :
    (a : List Loc) (from : ℕ → Option Bytes) (slots : List Slot)
    → ((j : ℕ) (k : Bytes)
        → j < length slots
        → slot_view (slot_in slots j) ≡ full k
        → IsRun a from k (slot_in slots j))
    → IsLeft a from [] slots
IsLeft-all a from [] h = tt
IsLeft-all a from (s ∷ slots) h = (
  λ k v. (h 0 k (omega arith) v, tt),
  IsLeft-all a from slots (λ j k lt v. h (suc j) k (omega (arith, lt)) v),
)

-- Slots that look the same are as good a table.
same-IsTable :
    (xs ys : List Slot)
    → length ys ≡ length xs
    → ((j : ℕ) → slot_view (slot_in ys j) ≡ slot_view (slot_in xs j))
    → IsTable xs
    → IsTable ys
same-IsTable xs ys len same t = record {
  bits = t.bits;
  size = len ∙ t.size;
  reach = λ j k lt v.
      Reaches-mono slot_view empty_slot start_at xs ys k j len (λ i w. sym (same i) ∙ w)
        (t.reach j k (omega (arith, lt, len)) (sym (same j) ∙ v));
  unique = λ i j k i_lt j_lt v w.
      t.unique i j k (omega (arith, i_lt, len)) (omega (arith, j_lt, len)) (sym (same i) ∙ v)
        (sym (same j) ∙ w);
}

module _ (x : Index) (t : IsIndex x) (small : length x.arena ≤ 2 ^ 31) where
  copied : List Slot × List Loc
  copied = compact_slots x.arena x.slots []

  run_of :
      (j : ℕ) (k : Bytes)
      → j < length x.slots
      → slot_view (slot_in x.slots j) ≡ full k
      → IsRun x.arena t.own k (slot_in x.slots j)
  run_of j k lt v =
      t.runs k (slot_in x.slots j) (scan_at slot_view empty_slot start_at x.slots k j t.table lt v)

  -- The loop starts with nothing copied.
  copied-IsCopy : IsCopy x.arena [] (λ i. none) x.slots (copied).0 (copied).1
  unfolding copied
  copied-IsCopy =
      let part : IsPart x.arena [] (λ i. none) [] = record {
        within = λ i k e. cc;
        distinct = tt;
        inside = tt;
        number = refl;
      } in
      compact_slots-IsCopy x.slots x.arena t.own [] (λ i. none) [] small part
        (unique-Separate x.slots (λ i j k. t.table.unique i j k))
        (IsLeft-all x.arena t.own x.slots run_of)

  copied-IsTable : IsTable (copied).0
  copied-IsTable = same-IsTable x.slots (copied).0 (copied-IsCopy).len (copied-IsCopy).same t.table

  copied-runs :
      (k : Bytes) (s : Slot)
      → slot_of k (copied).0 ≡ some s
      → IsRun (copied).1 (copied-IsCopy).own' k s
  copied-runs k s e =
      let c = copied-IsCopy in
      let (j, lt, at, v) = scan_found slot_view empty_slot start_at k (copied).0 s e in
      subst (IsRun (copied).1 c.own' k) at
        (c.run j k (omega (arith, lt, c.len)) (sym (c.same j) ∙ ap slot_view at ∙ v)).0

  copied-stored :
      (k : Bytes) → stored (copied).1 (slot_of k (copied).0) ≡ stored x.arena (slot_of k x.slots)
  copied-stored k =
      let c = copied-IsCopy in
      elim (Option-cases (slot_of k x.slots)) [
        | inl missing ↦
            let gone : slot_of k (copied).0 ≡ none =
              scan_nowhere slot_view empty_slot start_at (copied).0 k (λ j lt v.
                scan_missing slot_view empty_slot start_at k x.slots missing j
                  (omega (arith, lt, c.len)) (sym (c.same j) ∙ v)) in
            ap (stored (copied).1) gone
            ∙ stored-none (copied).1
            ∙ sym (ap (stored x.arena) missing ∙ stored-none x.arena)
        | inr (s, found) ↦
            let (j, lt, at, v) = scan_found slot_view empty_slot start_at k x.slots s found in
            let w = ap slot_view at ∙ v in
            ap (stored (copied).1) (
              scan_at slot_view empty_slot start_at (copied).0 k j copied-IsTable
                (omega (arith, lt, c.len)) (c.same j ∙ w))
            ∙ (c.run j k lt w).1
            ∙ ap (λ q. stored x.arena (some q)) at
            ∙ sym (ap (stored x.arena) found)
      ]

-- On a well-formed index with at most 2 ^ 31 locs, compact keeps the index well formed, the fragments of
-- each trace in their order, and the size of the table; its arena is not longer.
pub compact-IsIndex :
    (x : Index)
    → IsIndex x
    → length x.arena ≤ 2 ^ 31
    → IsIndex (compact x)
      × ((k : Bytes) → places (compact x) k ≡ places x k)
      × (length (compact x).slots ≡ length x.slots)
      × (length (compact x).arena ≤ length x.arena)
unfolding compact copied
compact-IsIndex x t small =
    let c = copied-IsCopy x t small in
    let table = copied-IsTable x t small in
    (
      record {
        own = c.own';
        within = c.within;
        table = table;
        runs = copied-runs x t small;
        frees = record { nodes = []; chain = refl; unowned = tt; distinct = tt; number = refl };
        lives = t.lives ∙ sym c.count;
      },
      λ k.
          places-slot_of (compact x) k table
          ∙ copied-stored x t small k
          ∙ sym (places-slot_of x k t.table),
      c.len,
      c.fits,
    )
