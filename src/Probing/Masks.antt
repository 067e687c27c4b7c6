-- ===== src/Probing/Masks.antt =====
-- Table indices: `& mask` for a table whose size is a power of two, and the turn of the probe sequence.
use Prim.Native.Nat.{bit_and, bit_and-bitwise, digits, min}
use retrosampler.Prelude.{
  ℕ, zero, suc, ◌+◌, ◌-◌, ◌*◌, ◌/◌, ◌%◌, ◌^◌, ◌≤◌, ◌<◌, ◌≡◌, sym, ap, ◌∙◌, arith,
}
use native.Mathlib.Decide.{dec_lt}
use native.Mathlib.Nat.{
  pow-suc, pow-succ', add-mod_right, one-le-pow, add-mul-mod_self_left, mod-eq_of_lt,
}

split_mod : (a m q r : ℕ) → 0 < m → a / 2 ≡ m * q + r → r < m → r * 2 + a % 2 ≡ a % (2 * m)
split_mod a m q r h e small =
    let whole : a ≡ r * 2 + a % 2 + 2 * m * q = grind arith in
    ap (λ (t : ℕ). t) (sym (mod-eq_of_lt (omega arith)))
    ∙ sym (add-mul-mod_self_left (r * 2 + a % 2) (2 * m) q)
    ∙ ap (λ (t : ℕ). t % (2 * m)) (sym whole)

double_mod : (a m : ℕ) → 0 < m → (a / 2 % m) * 2 + a % 2 ≡ a % (2 * m)
double_mod a m h = split_mod a m (a / 2 / m) (a / 2 % m) h (grind arith) (grind arith)

digits-mask : (n a k : ℕ) → a ≤ n → digits (λ b. zero) min n a (2 ^ k - 1) ≡ a % 2 ^ k
digits-mask zero zero k h = ground arith
digits-mask zero (suc a) k h = absurd (omega (arith, h))
digits-mask (suc n) zero k h = ground arith
digits-mask (suc n) (suc a) zero h = ground (arith, digits-mask n (suc a / 2) 0 (omega (arith, h)))
digits-mask (suc n) (suc a) (suc k) h =
    let half : (2 ^ suc k - 1) / 2 ≡ 2 ^ k - 1 =
      omega (arith, pow-suc 2 k, one-le-pow k 2 (omega arith)) in
    let odd : (2 ^ suc k - 1) % 2 ≡ 1 = omega (arith, pow-suc 2 k, one-le-pow k 2 (omega arith)) in
    rw (half, odd, digits-mask n (suc a / 2) k (omega (arith, h)))
      (omega (
        arith,
        double_mod (suc a) (2 ^ k) (one-le-pow k 2 (omega arith))
            ∙ ap (λ (t : ℕ). suc a % t) (sym (pow-succ' 2 k)),
      ))

-- `a & (n - 1)` for a table of `n == 2 ^ k` slots.
pub bit_and-mask : (a k : ℕ) → bit_and a (2 ^ k - 1) ≡ a % 2 ^ k
bit_and-mask a k = bit_and-bitwise a (2 ^ k - 1) ∙ digits-mask a a k (omega arith)

-- From any start, the probe sequence of a table with `n` slots comes to each slot within `n` steps.
pub turn : (start j n : ℕ) → start < n → j < n → (q : ℕ) × (q < n) × ((start + q) % n ≡ j)
turn start j n hs hj = elim (dec_lt j start) [
  | yes below ↦ (
    j + n - start,
    omega arith,
    ap (λ (t : ℕ). t % n) (omega arith) ∙ add-mod_right j n ∙ mod-eq_of_lt hj,
  )
  | no above ↦ (j - start, omega arith, ap (λ (t : ℕ). t % n) (omega arith) ∙ mod-eq_of_lt hj)
]
