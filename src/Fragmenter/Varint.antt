-- ===== src/Fragmenter/Varint.antt =====
-- internal/fragmenter/protoenc.go: a protobuf reader gets back the number that uvarint wrote.
use Prim.Native.Nat.{bit_or}
use retrosampler.Prelude.{ℕ, zero, suc, ◌+◌, ◌-◌, ◌*◌, ◌/◌, ◌%◌, ◌≤◌, ◌≡◌, refl, arith}
use retrosampler.Prelude.{[], ◌∷◌, ◌++◌, append_assoc, Option, none, some, ltb, ◌==◌, if◌then◌else◌}
use retrosampler.Prelude.{true}
use retrosampler.Prelude.Bytes.{Bytes}
use retrosampler.Prelude.Options.{◌>>=◌}
use retrosampler.Fragmenter.Proto.{uvarint_loop, uvarint}
use retrosampler.Fragmenter.Sizes.Scalars.{holds_below_at, holds_below}

-- A varint as protobuf defines it: groups of seven bits, the lowest first, each but the last with its top
-- bit set.
unfoldable pub read_varint : Bytes → Option (ℕ × Bytes)
read_varint [] = none
read_varint (b ∷ rest) =
    let more = read_varint rest >>= λ r. some (b - 128 + 128 * r.0, r.1) in
    if ltb b 128 then some (b, rest) else more

uvarint_loop-append :
    (fuel : ℕ) (e : Bytes) (v : ℕ) → uvarint_loop fuel e v ≡ e ++ uvarint_loop fuel [] v
unfolding uvarint_loop
uvarint_loop-append zero e v = refl
uvarint_loop-append (suc fuel) e v =
    let head : Bytes = bit_or (v % 256) 0x80 ∷ [] in
    ground (
      arith,
      uvarint_loop-append fuel (e ++ head) (v / 128),
      uvarint_loop-append fuel head (v / 128),
      append_assoc e head (uvarint_loop fuel [] (v / 128)),
    )

top_bit_table : holds_below 256 (λ b. bit_or b 0x80 == b % 128 + 128) ≡ true
unfolding holds_below
top_bit_table = refl

set_top_bit : (v : ℕ) → bit_or (v % 256) 0x80 ≡ v % 128 + 128
set_top_bit v = ground (
  arith,
  holds_below_at 256 (λ b. bit_or b 0x80 == b % 128 + 128) (v % 256) top_bit_table (omega arith),
)

read_varint-loop :
    (fuel v : ℕ) (rest : Bytes)
    → v ≤ fuel
    → read_varint (uvarint_loop fuel [] v ++ rest) ≡ some (v, rest)
unfolding uvarint_loop read_varint
read_varint-loop zero v rest h = ground arith
read_varint-loop (suc fuel) v rest h = ground (
  arith,
  set_top_bit v,
  uvarint_loop-append fuel (bit_or (v % 256) 0x80 ∷ []) (v / 128),
  read_varint-loop fuel (v / 128) rest,
)

-- Whatever stands in front and behind, a reader gets back the number that uvarint wrote, and the rest.
pub read_varint-uvarint :
    (e : Bytes) (v : ℕ) (rest : Bytes)
    → (bs : Bytes) × (uvarint e v ≡ e ++ bs) × (read_varint (bs ++ rest) ≡ some (v, rest))
unfolding uvarint
read_varint-uvarint e v rest =
    (uvarint_loop v [] v, uvarint_loop-append v e v, read_varint-loop v v rest (omega arith))
