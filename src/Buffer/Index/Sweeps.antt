-- ===== src/Buffer/Index/Sweeps.antt =====
-- internal/buffer/index.go: sweep.
use Prim.Native.Nat.{min}
use native.Mathlib.Decide.{dec_lt}
use retrosampler.Prelude.{ℕ, ◌+◌, ◌%◌, ◌^◌, ◌≤◌, ◌<◌, ◌≡◌, refl, ap, ◌∙◌, arith}
use retrosampler.Prelude.{Bool-cases, ◌⊎◌, inl, inr, length}
use retrosampler.Prelude.Bytes.{Bytes}
use retrosampler.Buffer.Index.Defs.{Index, head, find_slot, places}
use retrosampler.Buffer.Index.Reclaim.{sweep_from, compact, is_slack, sweep}
use retrosampler.Buffer.Index.Invariant.{IsIndex}
use retrosampler.Buffer.Index.Swept.{survivors, sweep_from-Swept, sweep_from_all}
use retrosampler.Buffer.Index.Compact.{compact-IsIndex}

IsIndex-cursor :
    (x : Index) (c : ℕ)
    → IsIndex x
    → IsIndex (record x { cursor = c })
      × ((k : Bytes) → places (record x { cursor = c }) k ≡ places x k)
unfolding places head find_slot
IsIndex-cursor x c t = (
  record {
    own = t.own;
    within = t.within;
    table = t.table;
    runs = t.runs;
    frees = t.frees;
    lives = t.lives;
  },
  λ k. refl,
)

-- The arena is within the limit of its indices.
abbrev pub IsSmall : Index → Type 0
IsSmall x = length x.arena ≤ 2 ^ 31

-- The index keeps its form, and has for each trace what it had.
abbrev Same : Index → Index → Type 0
Same x y = IsIndex y × ((k : Bytes) → places y k ≡ places x k)

-- What sweep leaves, of `n` slots.
abbrev pub Sweeps : ℕ → ℕ → Index → Index → Type 0
Sweeps n m x y =
    IsIndex y
    × ((k : Bytes) → (places y k ≡ places x k) ⊎ (places y k ≡ survivors m (places x k)))
    × ((n < length x.slots) ⊎ ((k : Bytes) → places y k ≡ survivors m (places x k)))
    × (length y.arena ≤ length x.arena)

Sweeps-same :
    (n m : ℕ) (x y z : Index)
    → Sweeps n m x y
    → IsIndex z
    → ((k : Bytes) → places z k ≡ places y k)
    → length z.arena ≤ length y.arena
    → Sweeps n m x z
Sweeps-same n m x y z (t, each, all, small) t' same le = (
  t',
  λ k. elim (each k) [ inl e ↦ inl (same k ∙ e) | inr e ↦ inr (same k ∙ e) ],
  elim all [ inl few ↦ inl few | inr every ↦ inr (λ k. same k ∙ every k) ],
  omega (arith, small, le),
)

-- Whatever the capacity of the arena is, sweep keeps a well-formed index with at most 2 ^ 31 locs so, and
-- its arena does not grow. It leaves each trace as it was, or, where its last fragment is of a generation
-- below the one given, with none; and where it is given as many slots as there are, it leaves no such
-- trace.
pub sweep-Sweeps :
    (capacity n m : ℕ) (x : Index) → IsIndex x → IsSmall x → Sweeps n m x (sweep capacity n m x)
unfolding sweep
sweep-Sweeps capacity n m x t small =
    let rounds = min n (length x.slots) in
    let y = sweep_from rounds x.cursor m x in
    let (t1, each, _, arena) = sweep_from-Swept rounds x.cursor m x t in
    let z = record y { cursor = (x.cursor + n) % length x.slots } in
    let (t2, same) = IsIndex-cursor y ((x.cursor + n) % length x.slots) t1 in
    let whole : (n < length x.slots) ⊎ ((k : Bytes) → places y k ≡ survivors m (places x k)) =
      elim (dec_lt n (length x.slots)) [
        | yes few ↦ inl few
        | no enough ↦ inr (λ k.
            let all_slots : rounds ≡ length x.slots = omega (arith, enough) in
            ap (λ (r : ℕ). places (sweep_from r x.cursor m x) k) all_slots
            ∙ sweep_from_all x.cursor m x k t)
      ] in
    let swept : Sweeps n m x z =
      Sweeps-same n m x y z (t1, each, whole, omega (arith, arena)) t2 same (omega arith) in
    elim (Bool-cases (is_slack capacity z)) [
      | inl slack ↦
          let (t3, same3, _, le) = compact-IsIndex z t2 (omega (arith, arena, small)) in
          rw slack (Sweeps-same n m x z (compact z) swept t3 same3 le)
      | inr tight ↦ rw tight swept
    ]
