-- ===== src/Fragmenter/Sizes/Scalars.antt =====
-- internal/fragmenter/protoenc.go: the sizes of varints, keys and scalar fields.
use Prim.Native.Nat.{bit_or}
use retrosampler.Prelude.{ℕ, zero, suc, ◌+◌, ◌*◌, ◌/◌, ◌%◌, ◌^◌, ◌<◌, ◌≡◌, refl}
use retrosampler.Prelude.{[], ◌∷◌, ◌++◌, ◌==◌, length, length-append, arith}
use retrosampler.Prelude.{Bool, true, ◌&&◌}
use retrosampler.Prelude.Bytes.{Bytes, le_bytes, length-le_bytes}
use retrosampler.Fragmenter.Proto.{
  uvarint_loop, uvarint, key, bytes_f, str, varint_f, fixed64_f, fixed32_f, msg,
}
use retrosampler.Fragmenter.Proto.{size_loop, size_uvarint, size_key, size_len, size_str}
use retrosampler.Fragmenter.Proto.{size_varint_f, size_fixed64_f, size_fixed32_f}

length-uvarint_loop :
    (fuel : ℕ) (e : Bytes) (v n : ℕ)
    → length (uvarint_loop fuel e v) + n ≡ length e + size_loop fuel v n + 1
unfolding uvarint_loop size_loop
length-uvarint_loop zero e v n = omega (arith, length-append e ((v % 256) ∷ []))
length-uvarint_loop (suc fuel) e v n = ground (
  arith,
  length-append e ((v % 256) ∷ []),
  length-append e (bit_or (v % 256) 0x80 ∷ []),
  length-uvarint_loop fuel (e ++ (bit_or (v % 256) 0x80 ∷ [])) (v / 128) (n + 1),
)

pub length-uvarint : (e : Bytes) (v : ℕ) → length (uvarint e v) ≡ length e + size_uvarint v
unfolding uvarint size_uvarint
length-uvarint e v = omega (arith, length-uvarint_loop v e v 1)

-- A property of all numbers below `n`, decided by evaluation.
unfoldable pub holds_below : ℕ → (ℕ → Bool) → Bool
holds_below zero p = true
holds_below (suc n) p = p n && holds_below n p

pub holds_below_at : (n : ℕ) (p : ℕ → Bool) (x : ℕ) → holds_below n p ≡ true → x < n → p x ≡ true
unfolding holds_below
holds_below_at zero p x h lt = absurd (omega arith)
holds_below_at (suc n) p x h lt = ground (arith, holds_below_at n p x)

-- The wire type stands below the field's number, so it does not change the key's size.
key_table :
    holds_below 256
      (λ x. size_uvarint (bit_or (x / 8 * 2 ^ 3) (x % 8)) == size_uvarint (x / 8 * 2 ^ 3))
    ≡ true
unfolding holds_below size_uvarint size_loop
key_table = refl

size_uvarint-key :
    (field wire : ℕ)
    → field < 32
    → wire < 8
    → size_uvarint (bit_or (field * 2 ^ 3) wire) ≡ size_key field
unfolding size_key
size_uvarint-key field wire hf hw =
    let x = field * 8 + wire in
    let at =
      holds_below_at 256
        (λ x. size_uvarint (bit_or (x / 8 * 2 ^ 3) (x % 8)) == size_uvarint (x / 8 * 2 ^ 3)) x
        key_table (omega arith) in
    let quot : x / 8 ≡ field = omega arith in
    let rest : x % 8 ≡ wire = omega arith in ground (arith, rw (quot, rest) at at)

module _ (e : Bytes) (field : ℕ) (small : field < 32) where
  pub length-key : (wire : ℕ) → wire < 8 → length (key e field wire) ≡ length e + size_key field
  unfolding key
  length-key wire h =
      rw (length-uvarint e (bit_or (field * 2 ^ 3) wire), size_uvarint-key field wire small h)

  -- A length-delimited field of `n` bytes takes its key, its length and the bytes.
  pub length-msg : (n : ℕ) → length (msg e field n) + n ≡ length e + size_len field n
  unfolding msg size_len
  length-msg n = omega (arith, length-uvarint (key e field 2) n, length-key 2 (omega arith))

  pub length-str : (s : Bytes) → length (str e field s) ≡ length e + size_str field s
  unfolding str size_str size_len
  length-str [] = omega arith
  length-str (b ∷ s) = omega (
    arith,
    length-append (uvarint (key e field 2) (suc (length s))) (b ∷ s),
    length-uvarint (key e field 2) (suc (length s)),
    length-key 2 (omega arith),
  )

  pub length-bytes_f_cons :
      (b : ℕ) (p : Bytes)
      → length (bytes_f e field (b ∷ p)) ≡ length e + size_len field (suc (length p))
  unfolding bytes_f size_len
  length-bytes_f_cons b p = omega (
    arith,
    length-append (uvarint (key e field 2) (suc (length p))) (b ∷ p),
    length-uvarint (key e field 2) (suc (length p)),
    length-key 2 (omega arith),
  )

  pub length-varint_f : (v : ℕ) → length (varint_f e field v) ≡ length e + size_varint_f field v
  unfolding varint_f size_varint_f
  length-varint_f v = ground (arith, length-uvarint (key e field 0) v, length-key 0 (omega arith))

  pub length-fixed64_f : (v : ℕ) → length (fixed64_f e field v) ≡ length e + size_fixed64_f field v
  unfolding fixed64_f size_fixed64_f
  length-fixed64_f v = ground (
    arith,
    length-append (key e field 1) (le_bytes 8 v),
    length-le_bytes 8 v,
    length-key 1 (omega arith),
  )

  pub length-fixed32_f : (v : ℕ) → length (fixed32_f e field v) ≡ length e + size_fixed32_f field v
  unfolding fixed32_f size_fixed32_f
  length-fixed32_f v = ground (
    arith,
    length-append (key e field 5) (le_bytes 4 v),
    length-le_bytes 4 v,
    length-key 5 (omega arith),
  )
