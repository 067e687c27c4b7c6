-- ===== src/Shards/Route.antt =====
-- internal/shards/shards.go: shardFor, which routes a trace to its shard.
use Prim.Native.Nat.{bit_xor}
use retrosampler.Prelude.{
  ℕ, ◌-◌, ◌*◌, ◌/◌, ◌%◌, ◌^◌, ◌<◌, ◌≡◌, arith, ltb, if◌then◌else◌, take, drop,
}
use retrosampler.Prelude.Bytes.{Bytes, le_value}
use retrosampler.Prelude.Ints.{ℤ, pos, negsuc}

abbrev pub fib_seed : ℕ
fib_seed = 0x9E3779B97F4A7C15

unfoldable pub shard_hash : Bytes → ℕ
shard_hash id = (bit_xor (le_value (take 8 id)) (le_value (drop 8 id)) * fib_seed) % 2 ^ 64

-- `>> 32` is a division; the conversion of a result above MaxInt gives 0.
unfoldable pub shard_in : ℕ → ℕ → ℕ
shard_in h n = if ltb (2 ^ 63 - 1) (h / 2 ^ 32 % n) then 0 else h / 2 ^ 32 % n

unfoldable pub shard_for : Bytes → ℤ → ℕ
shard_for id (negsuc n) = 0
shard_for id (pos n) = if ltb 0 n then shard_in (shard_hash id) n else 0

shard_in_lem : (h n : ℕ) → h < 2 ^ 64 → 0 < n → (shard_in h n < n) × (shard_in h n ≡ h / 2 ^ 32 % n)
unfolding shard_in
shard_in_lem h n small some = ground arith

-- With at least one shard, a trace goes to one of the `n` shards, and the fallback of the conversion is
-- never taken: its shard is the upper half of the hash modulo `n`.
pub shard_for_lem :
    (id : Bytes) (n : ℕ)
    → 0 < n
    → (shard_for id (pos n) < n) × (shard_for id (pos n) ≡ shard_hash id / 2 ^ 32 % n)
unfolding shard_for shard_hash
shard_for_lem id n some =
    let small = shard_in_lem (shard_hash id) n (omega arith) some in
    ground (arith, small.0, small.1)
