-- ===== src/Probing/Sizes.antt =====
-- internal/shards/decided.go and internal/buffer/index.go: the sizes of an open-addressing table.
use retrosampler.Prelude.{ℕ, zero, suc, ◌+◌, ◌*◌, ◌/◌, ◌^◌, ◌<◌, ◌≡◌, arith}
use native.Mathlib.Nat.{pow-suc}
use retrosampler.Prelude.{Bool-cases, inl, inr, leb, ◌==◌, if◌then◌else◌}

-- bits.Len64.
unfoldable pub len_bits : ℕ → ℕ → ℕ
len_bits zero v = 0
len_bits (suc n) v = let rest = len_bits n (v / 2) in if v == 0 then 0 else rest + 1

-- `for 3*size <= 4*d.len() { size <<= 1 }`, on fuel.
unfoldable pub table_size : ℕ → ℕ → ℕ → ℕ
table_size zero size live = size
table_size (suc fuel) size live =
    let rest = table_size fuel (size * 2) live in if leb (3 * size) (4 * live) then rest else size

pub table_size-pow :
    (fuel size live k : ℕ) → size ≡ 2 ^ k → (k' : ℕ) × (table_size fuel size live ≡ 2 ^ k')
unfolding table_size
table_size-pow zero size live k e = (k, e)
table_size-pow (suc fuel) size live k e = elim (Bool-cases (leb (3 * size) (4 * live))) [
  | inl more ↦ rw more (table_size-pow fuel (size * 2) live (suc k) (omega (arith, e, pow-suc 2 k)))
  | inr enough ↦ rw enough (k, e)
]

-- The fuel is enough: the table that is chosen has a quarter of its slots left.
pub table_size_fits :
    (fuel size live : ℕ)
    → 0 < size
    → 4 * live < 3 * (size + fuel)
    → 4 * live < 3 * table_size fuel size live
unfolding table_size
table_size_fits zero size live pos h = omega (arith, h)
table_size_fits (suc fuel) size live pos h =
    ground
      (arith, table_size_fits fuel (size * 2) live (omega (arith, pos)) (omega (arith, h, pos)))
