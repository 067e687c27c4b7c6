-- ===== src/Fragmenter/Proto.antt =====
-- internal/fragmenter/protoenc.go: the protobuf writer over scalars. An `enc` is the bytes it holds.
use Prim.Native.Nat.{bit_or}
use retrosampler.Prelude.{ℕ, zero, suc, ◌+◌, ◌-◌, ◌*◌, ◌/◌, ◌%◌, ◌^◌, [], ◌∷◌, ◌++◌}
use retrosampler.Prelude.{leb, ◌==◌, if◌then◌else◌, length}
use retrosampler.Prelude.Bytes.{Bytes, le_bytes}
use retrosampler.Prelude.Ints.{ℤ, pos, negsuc}

abbrev pub w_varint : ℕ
w_varint = 0

abbrev pub w_fixed64 : ℕ
w_fixed64 = 1

abbrev pub w_bytes : ℕ
w_bytes = 2

abbrev pub w_fixed32 : ℕ
w_fixed32 = 5

-- On a negative `v` the source has n = -(v + 1), which is 0 or more, and returns ^uint64(n).
unfoldable pub i64_wire : ℤ → ℕ
i64_wire (pos n) = n
i64_wire (negsuc n) = 2 ^ 64 - 1 - n

-- `byte(v)` is `v % 256` and `v >>= 7` is `v / 128`. A round makes `v` smaller, so `v` rounds are
-- enough.
unfoldable pub uvarint_loop : ℕ → Bytes → ℕ → Bytes
uvarint_loop zero e v = e ++ ((v % 256) ∷ [])
uvarint_loop (suc fuel) e v =
    let more = uvarint_loop fuel (e ++ (bit_or (v % 256) 0x80 ∷ [])) (v / 128) in
    if leb 0x80 v then more else e ++ ((v % 256) ∷ [])

unfoldable pub uvarint : Bytes → ℕ → Bytes
uvarint e v = uvarint_loop v e v

unfoldable pub key : Bytes → ℕ → ℕ → Bytes
key e field wire = uvarint e (bit_or (field * 2 ^ 3) wire)

-- bytesF, and str over the bytes of a string.
unfoldable pub bytes_f : Bytes → ℕ → Bytes → Bytes
bytes_f e field [] = e
bytes_f e field (b ∷ p) = uvarint (key e field w_bytes) (length (b ∷ p)) ++ (b ∷ p)

unfoldable pub str : Bytes → ℕ → Bytes → Bytes
str e field [] = e
str e field (b ∷ s) = uvarint (key e field w_bytes) (length (b ∷ s)) ++ (b ∷ s)

unfoldable pub varint_f : Bytes → ℕ → ℕ → Bytes
varint_f e field v = if v == 0 then e else uvarint (key e field w_varint) v

unfoldable pub fixed64_f : Bytes → ℕ → ℕ → Bytes
fixed64_f e field v = if v == 0 then e else key e field w_fixed64 ++ le_bytes 8 v

unfoldable pub fixed32_f : Bytes → ℕ → ℕ → Bytes
fixed32_f e field v = if v == 0 then e else key e field w_fixed32 ++ le_bytes 4 v

unfoldable pub msg : Bytes → ℕ → ℕ → Bytes
msg e field size = uvarint (key e field w_bytes) size

-- The loop of sizeUvarint, from the count `n`.
unfoldable pub size_loop : ℕ → ℕ → ℕ → ℕ
size_loop zero v n = n
size_loop (suc fuel) v n =
    let more = size_loop fuel (v / 128) (n + 1) in if leb 0x80 v then more else n

unfoldable pub size_uvarint : ℕ → ℕ
size_uvarint v = size_loop v v 1

unfoldable pub size_key : ℕ → ℕ
size_key field = size_uvarint (field * 2 ^ 3)

unfoldable pub size_len : ℕ → ℕ → ℕ
size_len field n = size_key field + size_uvarint n + n

unfoldable pub size_varint_f : ℕ → ℕ → ℕ
size_varint_f field v = if v == 0 then 0 else size_key field + size_uvarint v

unfoldable pub size_fixed64_f : ℕ → ℕ → ℕ
size_fixed64_f field v = if v == 0 then 0 else size_key field + 8

unfoldable pub size_fixed32_f : ℕ → ℕ → ℕ
size_fixed32_f field v = if v == 0 then 0 else size_key field + 4

unfoldable pub size_str : ℕ → Bytes → ℕ
size_str field [] = 0
size_str field (b ∷ s) = size_len field (length (b ∷ s))
