-- ===== src/Buffer/Index/Sweep.antt =====
-- internal/buffer/index.go: the slots that sweep looks at.
use mathlib.Core.Path.{subst}
use retrosampler.Prelude.{
  ℕ, zero, suc, ◌+◌, ◌-◌, ◌≤◌, ◌<◌, ◌≡◌, ◌≢◌, refl, sym, ap, ◌∙◌, arith, false, List, [], ◌∷◌, ◌++◌,
  Option, none, some,
}
use retrosampler.Prelude.{
  Bool-cases, Option-cases, inl, inr, if◌then◌else◌, length, set_at, get_or-set_at, length-set_at,
  All, bytes_eq, bytes_eq_refl,
}
use retrosampler.Prelude.Bytes.{Bytes}
use retrosampler.Probing.Search.{full}
use retrosampler.Probing.Writes.{bury-scan, count_full-set_at}
use retrosampler.Buffer.Index.Defs.{
  Loc, nowhere, buried, Slot, Index, no_loc, empty_slot, slot_at, start_at, slot_view, idx_of,
  places,
}
use retrosampler.Buffer.Index.Reclaim.{free_from, free_chain, bury}
use retrosampler.Buffer.Index.Links.{
  loc_at, IsChain, Distinct, All-impl, All-both, IsChain-within, IsChain-mono, length-chain,
}
use retrosampler.Buffer.Index.Invariant.{slot_of, IsFree, IsIndex, stored-none, replace-IsIndex}
use retrosampler.Buffer.Index.Alloc.{away}

-- The locs of the traces stay, and the free list is well formed.
abbrev Freed : Index → (ℕ → Option Bytes) → Index → Type 0
Freed x own y =
    (y.slots ≡ x.slots)
    × (length y.arena ≡ length x.arena)
    × ((i : ℕ) (k : Bytes)
        → own i ≡ some k
        → i < length x.arena
        → loc_at y.arena i ≡ loc_at x.arena i)
    × IsFree y.arena own y.free y.free_len

Freed-none :
    (o : Option ℕ) (x : Index) (own : ℕ → Option Bytes) (n : ℕ)
    → o ≡ none
    → IsFree x.arena own x.free x.free_len
    → Freed x own (free_from n o x)
unfolding free_from
Freed-none o x own zero e f = (refl, refl, λ i k q lt. refl, f)
Freed-none o x own (suc n) e f = rw e (refl, refl, λ i k q lt. refl, f)

-- A chain of locs that no trace has any more goes to the free list.
free_from-Freed :
    (l : List ℕ) (n : ℕ) (o : Option ℕ) (x : Index) (own : ℕ → Option Bytes)
    → IsChain x.arena o l
    → Distinct l
    → All (λ i. own i ≡ none) l
    → length l ≤ n
    → (f : IsFree x.arena own x.free x.free_len) → All (λ i. All (λ j. j ≢ i) f.nodes) l
    → Freed x own (free_from n o x)
unfolding free_from
free_from-Freed [] n o x own c d u h f apart = Freed-none o x own n c f
free_from-Freed (i ∷ l) zero o x own c d u h f apart = absurd (omega (arith, h))
free_from-Freed (i ∷ l) (suc n) o x own (e, lt, c) (ne, d) (u, us) h f (away_i, apart) =
    let v : Loc = record (loc_at x.arena i) { next = x.free } in
    let a = set_at i v x.arena in
    let len = length-set_at i v x.arena in
    let x1 = record x { arena = a; free = some i; free_len = x.free_len + 1 } in
    let at_a = λ (j : ℕ). get_or-set_at no_loc v x.arena i j lt in
    let (c1, _) =
      IsChain-mono x.arena a (loc_at x.arena i).next l
        (away x.arena own i v l lt ne (IsChain-within x.arena (loc_at x.arena i).next l c)) c in
    let (cf, _) =
      IsChain-mono x.arena a x.free f.nodes
        (away x.arena own i v f.nodes lt (All-impl f.nodes (λ j q e. q (sym e)) away_i)
          (IsChain-within x.arena x.free f.nodes f.chain))
        f.chain in
    let f1 : IsFree a own (some i) (x.free_len + 1) = record {
      nodes = i ∷ f.nodes;
      chain = (
        refl,
        omega (arith, lt, len),
        subst (λ q. IsChain a q f.nodes) (ground (arith, at_a i)) cf,
      );
      unowned = (u, f.unowned);
      distinct = (All-impl f.nodes (λ j q e. q (sym e)) away_i, f.distinct);
      number = omega (arith, f.number);
    } in
    let apart1 : All (λ k. All (λ j. j ≢ k) (i ∷ f.nodes)) l =
      All-both (λ k. i ≢ k) (λ k. All (λ j. j ≢ k) f.nodes) l ne apart in
    let (slots, len1, kept, f2) =
      free_from-Freed l n (loc_at x.arena i).next x1 own c1 d us (omega (arith, h)) f1 apart1 in
    rw e (
      slots,
      len1 ∙ len,
      λ j k q j_lt.
          let ne_j : i ≢ j = λ w. ground (arith, ap own w, u, q) in
          kept j k q (omega (arith, j_lt, len)) ∙ ground (arith, at_a j, ne_j),
      f2,
    )

abbrev dropped : (ℕ → Option Bytes) → Bytes → ℕ → Option Bytes
dropped own id i = elim (own i) [ none ↦ none | some k ↦ if bytes_eq id k then none else some k ]

dropped-some :
    (own : ℕ → Option Bytes) (id : Bytes) (i : ℕ) (k : Bytes)
    → dropped own id i ≡ some k
    → (own i ≡ some k) × (bytes_eq id k ≡ false)
dropped-some own id i k e = elim (Option-cases (own i)) [
  | inl free ↦ ground (arith, free, e)
  | inr (m, mine) ↦ elim (Bool-cases (bytes_eq id m)) [
    | inl same ↦ ground (arith, mine, same, e)
    | inr apart ↦ ground (arith, mine, apart, e)
  ]
]

abbrev pub buried_slot : Slot → Slot
buried_slot s = record s { head = buried; tail = nowhere }

bury-at :
    (x : Index) (j : ℕ) (s : Slot)
    → slot_at x j ≡ s
    → (free_chain (idx_of s.head) x).slots ≡ x.slots
    → bury x j ≡ record (free_chain (idx_of s.head) x) {
      slots = set_at j (buried_slot s) x.slots;
      live_count = x.live_count - 1;
      tombs = x.tombs + 1;
    }
unfolding bury
bury-at x j s e slots =
    ap
      (λ (v : Slot). record (free_chain (idx_of v.head) x) {
        slots = set_at j (buried_slot v) (free_chain (idx_of v.head) x).slots;
        live_count = x.live_count - 1;
        tombs = x.tombs + 1;
      })
      e
    ∙ ap
        (λ (q : List Slot). record (free_chain (idx_of s.head) x) {
          slots = set_at j (buried_slot s) q;
          live_count = x.live_count - 1;
          tombs = x.tombs + 1;
        })
        slots

-- The index without a trace, whose slot is a tombstone.
abbrev pub Drops : Index → Bytes → ℕ → Slot → Index → Type 0
Drops x id j s y =
    IsIndex y
    × ((k : Bytes) → places y k ≡ (if bytes_eq id k then [] else places x k))
    × (y.slots ≡ set_at j (buried_slot s) x.slots)
    × (length y.arena ≡ length x.arena)

pub bury-Drops :
    (x : Index) (t : IsIndex x) (id : Bytes) (j : ℕ) (s : Slot)
    → slot_of id x.slots ≡ some s
    → j < length x.slots
    → slot_at x j ≡ s
    → slot_view s ≡ full id
    → Drops x id j s (bury x j)
unfolding free_chain
bury-Drops x t id j s found lt at_j v =
    let r = t.runs id s found in
    let l = r.before ++ (r.last ∷ []) in
    let own' = dropped t.own id in
    let free0 : IsFree x.arena own' x.free x.free_len = record {
      nodes = t.frees.nodes;
      chain = t.frees.chain;
      unowned =
          All-impl t.frees.nodes (λ i (q : t.own i ≡ none). ground (arith, q)) t.frees.unowned;
      distinct = t.frees.distinct;
      number = t.frees.number;
    } in
    let (slots, len, kept, frees) =
      free_from-Freed l (length x.arena) (idx_of s.head) x own' r.chain r.distinct
        (All-impl l (λ i (q : t.own i ≡ some id). ground (arith, q, bytes_eq_refl id)) r.owned)
        (length-chain (length x.arena) l r.distinct
          (IsChain-within x.arena (idx_of s.head) l r.chain))
        free0
        (All-impl l
          (λ i (q : t.own i ≡ some id).
            All-impl t.frees.nodes (λ m (u : t.own m ≡ none) e. ground (arith, ap t.own e, u, q))
              t.frees.unowned)
          r.owned) in
    let there = ap slot_view at_j ∙ v in
    let (table, law) =
      bury-scan slot_view empty_slot start_at x.slots j (buried_slot s) id t.table lt refl there in
    let counts = count_full-set_at slot_view empty_slot start_at x.slots j (buried_slot s) lt in
    let y = record (free_chain (idx_of s.head) x) {
      slots = set_at j (buried_slot s) x.slots;
      live_count = x.live_count - 1;
      tombs = x.tombs + 1;
    } in
    let (good, law') =
      replace-IsIndex x y t own' id none table law
        (λ i k e apart.
          let mine : own' i ≡ some k = ground (arith, e, apart) in
          let i_lt = t.within i k e in ((omega (arith, i_lt, len), kept i k mine i_lt), mine))
        (λ u e. cc) (λ i k e. omega (arith, len, t.within i k (dropped-some t.own id i k e).0))
        frees (ground (arith, counts, there, t.lives)) in
    subst (Drops x id j s) (sym (bury-at x j s at_j slots)) (
      good,
      λ k. law' k ∙ ap (λ q. if bytes_eq id k then q else places x k) (stored-none y.arena),
      refl,
      len,
    )
