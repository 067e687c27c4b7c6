-- ===== src/Detect/Millis.antt =====
-- internal/detect/baggage.go: a millisecond quantity read from a span's attributes.
use retrosampler.Prelude.{
  ℕ, zero, suc, ◌+◌, ◌-◌, ◌*◌, ◌/◌, ◌^◌, ◌≤◌, ◌<◌, ◌≡◌, ap, ◌↔◌, arith, [], ◌∷◌,
}
use retrosampler.Prelude.{Option, none, some, ◌||◌, ltb, if◌then◌else◌, length, All}
use retrosampler.Prelude.{bytes_eq}
use retrosampler.Prelude.Bytes.{Bytes}
use retrosampler.Prelude.Ints.{ℤ, pos}
use retrosampler.Fragmenter.Value.{
  Value, Pairs, string, bool, int, double, slice, map, bytes, empty, end, pair,
}

-- Get of a pcommon.Map: the value of the first entry with the key.
unfoldable pub get : Bytes → Pairs → Option Value
get key end = none
get key (pair k v ps) = let rest = get key ps in if bytes_eq k key then some v else rest

-- Go's (v, ok, malformed): (0, false, false), (v, true, false) and (0, false, true).
pub data Millis : Type 0 where
  absent : Millis
  value : ℤ → Millis
  malformed : Millis

-- The loop over the characters, from the value so far; none where the source returns malformed.
unfoldable pub read_digits : ℕ → Bytes → Option ℕ
read_digits v [] = some v
read_digits v (c ∷ s) =
    let rest = read_digits (v * 10 + (c - b'0')) s in
    if ltb c b'0' || ltb b'9' c
    then none
    else if ltb ((2 ^ 63 - 1 - (c - b'0')) / 10) v
    then none
    else rest

unfoldable pub digits_millis : Option ℕ → Millis
digits_millis none = malformed
digits_millis (some v) = value (pos v)

unfoldable pub value_millis : Value → Millis
unfolding digits_millis
value_millis (int v) = value v
value_millis (string []) = malformed
value_millis (string (c ∷ s)) = digits_millis (read_digits 0 (c ∷ s))
value_millis (bool b) = malformed
value_millis (double d) = malformed
value_millis (slice vs) = malformed
value_millis (map ps) = malformed
value_millis (bytes b) = malformed
value_millis empty = malformed

unfoldable pub read_found : Option Value → Millis
unfolding value_millis
read_found none = absent
read_found (some v) = value_millis v

unfoldable pub read_millis : Pairs → Bytes → Millis
unfolding read_found
read_millis attrs key = read_found (get key attrs)

-- The number that decimal digits stand for, by the weight of each.
abbrev pub decimal : Bytes → ℕ
decimal [] = 0
decimal (c ∷ s) = (c - b'0') * 10 ^ length s + decimal s

abbrev pub IsDigit : ℕ → Type 0
IsDigit c = (b'0' ≤ c) × (c ≤ b'9')

-- A digit more in front: the value so far moves up by one place.
shift_digit : (v d k t : ℕ) → (v * 10 + d) * 10 ^ k + t ≡ v * 10 ^ suc k + (d * 10 ^ k + t)
shift_digit v d k t = omega (arith, ap (λ (p : ℕ). v * p) (ten_pow_suc k))
  where
    ten_pow_suc : (k : ℕ) → 10 ^ suc k ≡ 10 * 10 ^ k
    ten_pow_suc k = omega arith

-- With `v` read so far: what is read are digits, their decimal value behind `v`, and it fits an int64.
read_digits_sound :
    (v n : ℕ) (s : Bytes)
    → v < 2 ^ 63
    → read_digits v s ≡ some n
    → All IsDigit s × (n ≡ v * 10 ^ length s + decimal s) × (n < 2 ^ 63)
unfolding read_digits
read_digits_sound v n [] hv h = ground arith
read_digits_sound v n (c ∷ s) hv h = ground (
  arith,
  read_digits_sound (v * 10 + (c - b'0')) n s,
  shift_digit v (c - b'0') (length s) (decimal s),
)

ten_pow_pos : (k : ℕ) → 1 ≤ 10 ^ k
ten_pow_pos zero = omega arith
ten_pow_pos (suc k) = omega (arith, ten_pow_pos k)

-- Leading digits are a lower bound of the number.
front_le : (w k t : ℕ) → w ≤ w * 10 ^ k + t
front_le w k t = grind (arith, ten_pow_pos k)

read_digits_complete :
    (v : ℕ) (s : Bytes)
    → All IsDigit s
    → v * 10 ^ length s + decimal s < 2 ^ 63
    → read_digits v s ≡ some (v * 10 ^ length s + decimal s)
unfolding read_digits
read_digits_complete v [] h fits = ground arith
read_digits_complete v (c ∷ s) h fits = ground (
  arith,
  h.0,
  front_le (v * 10 + (c - b'0')) (length s) (decimal s),
  shift_digit v (c - b'0') (length s) (decimal s),
  read_digits_complete (v * 10 + (c - b'0')) s h.1,
)

digits_millis-some : (o : Option ℕ) (n : ℕ) → digits_millis o ≡ value (pos n) → o ≡ some n
unfolding digits_millis
digits_millis-some none n h = cc
digits_millis-some (some v) n h = cc

-- A string attribute is read as the number `n` exactly when it is not empty, has decimal digits only,
-- and their value is `n` and fits an int64.
pub value_millis-string :
    (s : Bytes) (n : ℕ)
    → (value_millis (string s) ≡ value (pos n))
      ↔ ((0 < length s) × All IsDigit s × (n ≡ decimal s) × (n < 2 ^ 63))
unfolding value_millis
value_millis-string [] n = (λ h. ground arith, λ h. absurd (omega (arith, h.0)))
value_millis-string (c ∷ s) n = (
  λ h.
      let (digits, eq, fits) =
        read_digits_sound 0 n (c ∷ s) (omega arith)
          (digits_millis-some (read_digits 0 (c ∷ s)) n h) in
      (omega arith, digits, omega (arith, eq), fits),
  λ h. rw (read_digits_complete 0 (c ∷ s) h.1 (omega (arith, h.2, h.3))) (ground (arith, h.2)),
)
