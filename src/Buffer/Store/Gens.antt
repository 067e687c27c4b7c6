-- ===== src/Buffer/Store/Gens.antt =====
-- internal/buffer/buffer.go: the generations that Open takes from a directory's names.
use retrosampler.Prelude.{ℕ, ◌+◌, ◌^◌, ◌≤◌, ◌<◌, ◌≢◌, arith, List, [], ◌∷◌}
use retrosampler.Prelude.{Bool-cases, inl, inr, leb, All}
use retrosampler.Buffer.Store.Open.{insert_gen, sort_gens}
use retrosampler.Buffer.Store.Recovered.{IsRising}

-- The generations are different, from 1 on, and one is left after each.
abbrev pub AreGens : List ℕ → Type 0
AreGens [] = Unit {0}
AreGens (gen ∷ gens) = (1 ≤ gen) × (gen + 1 < 2 ^ 32) × All (λ (g : ℕ). g ≢ gen) gens × AreGens gens

insert_gen-All :
    (P : ℕ → Type 0) (gen : ℕ) (gens : List ℕ) → P gen → All P gens → All P (insert_gen gen gens)
unfolding insert_gen
insert_gen-All P gen [] p all = (p, tt)
insert_gen-All P gen (g ∷ gens) p (q, all) = elim (Bool-cases (leb gen g)) [
  | inl first ↦ rw first (p, (q, all))
  | inr later ↦ rw later (q, insert_gen-All P gen gens p all)
]

sort_gens-All : (P : ℕ → Type 0) (gens : List ℕ) → All P gens → All P (sort_gens gens)
unfolding sort_gens
sort_gens-All P [] all = tt
sort_gens-All P (gen ∷ gens) (p, all) =
    insert_gen-All P gen (sort_gens gens) p (sort_gens-All P gens all)

IsRising-from : (f g : ℕ) (gens : List ℕ) → f ≤ g → IsRising g gens → IsRising f gens
IsRising-from f g [] le rising = omega (arith, le, rising)
IsRising-from f g (gen ∷ gens) le (here, rising) = (omega (arith, le, here), rising)

insert_gen-IsRising :
    (g gen : ℕ) (gens : List ℕ)
    → g ≤ gen
    → gen + 1 < 2 ^ 32
    → All (λ (h : ℕ). h ≢ gen) gens
    → IsRising g gens
    → IsRising g (insert_gen gen gens)
unfolding insert_gen
insert_gen-IsRising g gen [] le lt apart rising = (le, omega (arith, lt))
insert_gen-IsRising g gen (h ∷ gens) le lt (other, apart) (here, rising) =
    elim (Bool-cases (leb gen h)) [
      | inl first ↦ rw first (le, (ground (arith, first, other), rising))
      | inr later ↦
          rw later
            (here, insert_gen-IsRising (h + 1) gen gens (ground (arith, later)) lt apart rising)
    ]

pub sort_gens-IsRising : (gens : List ℕ) → AreGens gens → IsRising 1 (sort_gens gens)
unfolding sort_gens
sort_gens-IsRising [] t = omega arith
sort_gens-IsRising (gen ∷ gens) (from_one, below, apart, t) =
    insert_gen-IsRising 1 gen (sort_gens gens) from_one below
      (sort_gens-All (λ h. h ≢ gen) gens apart) (sort_gens-IsRising gens t)
