-- ===== src/Fragmenter/Value.antt =====
-- internal/fragmenter/protoenc.go: attribute values. pcommon.Value is its variants; a double is the
-- pattern that math.Float64bits gives.
use retrosampler.Prelude.{ℕ, ◌+◌, Bool, true, false, [], ◌∷◌, ◌++◌, length}
use retrosampler.Prelude.Bytes.{Bytes, le_bytes}
use retrosampler.Prelude.Ints.{ℤ}
use retrosampler.Fragmenter.Proto.{
  w_varint, w_fixed64, w_bytes, i64_wire, uvarint, key, bytes_f, str, msg,
}
use retrosampler.Fragmenter.Proto.{size_uvarint, size_key, size_len, size_str}

mutual
  pub data Value : Type 0 where
    string : Bytes → Value
    bool : Bool → Value
    int : ℤ → Value
    double : ℕ → Value
    slice : Values → Value
    map : Pairs → Value
    bytes : Bytes → Value
    empty : Value

  pub data Values : Type 0 where
    nil : Values
    cons : Value → Values → Values

  -- The entries of a pcommon.Map in the order of its Range.
  pub data Pairs : Type 0 where
    end : Pairs
    pair : Bytes → Value → Pairs → Pairs

-- sizeValue, with the loops over a slice and over a map; sizeKeyValue is written out where it is called.
unfoldable mutual
  pub size_value : Value → ℕ
  size_value (string s) = size_len 1 (length s)
  size_value (bool b) = size_key 2 + 1
  size_value (int v) = size_key 3 + size_uvarint (i64_wire v)
  size_value (double bits) = size_key 4 + 8
  size_value (slice vs) = size_len 5 (size_values vs)
  size_value (map ps) = size_len 6 (size_pairs ps)
  size_value (bytes b) = size_len 7 (length b)
  size_value empty = 0

  pub size_values : Values → ℕ
  size_values nil = 0
  size_values (cons v vs) = size_len 1 (size_value v) + size_values vs

  pub size_pairs : Pairs → ℕ
  size_pairs end = 0
  size_pairs (pair k v ps) = size_len 1 (size_str 1 k + size_len 2 (size_value v)) + size_pairs ps

unfoldable pub size_key_value : Bytes → Value → ℕ
size_key_value k v = size_str 1 k + size_len 2 (size_value v)

bool_byte : Bool → ℕ
bool_byte true = 1
bool_byte false = 0

unfoldable pub put_bool : Bytes → Bool → Bytes
unfolding bool_byte
put_bool e b = key e 2 w_varint ++ (bool_byte b ∷ [])

unfoldable pub put_string : Bytes → Bytes → Bytes
put_string e s = uvarint (key e 1 w_bytes) (length s) ++ s

-- putValue with its two loops; putKeyValue is written out where it is called.
unfoldable mutual
  pub put_value : Bytes → Value → Bytes
  put_value e (string s) = put_string e s
  put_value e (bool b) = put_bool e b
  put_value e (int v) = uvarint (key e 3 w_varint) (i64_wire v)
  put_value e (double bits) = key e 4 w_fixed64 ++ le_bytes 8 bits
  put_value e (slice vs) = put_values (msg e 5 (size_values vs)) vs
  put_value e (map ps) = put_pairs (msg e 6 (size_pairs ps)) ps
  put_value e (bytes b) = bytes_f e 7 b
  put_value e empty = e

  pub put_values : Bytes → Values → Bytes
  put_values e nil = e
  put_values e (cons v vs) = put_values (put_value (msg e 1 (size_value v)) v) vs

  pub put_pairs : Bytes → Pairs → Bytes
  put_pairs e end = e
  put_pairs e (pair k v ps) =
      put_pairs (put_value (msg (str (msg e 1 (size_key_value k v)) 1 k) 2 (size_value v)) v) ps

unfoldable pub put_key_value : Bytes → Bytes → Value → Bytes
put_key_value e k v = put_value (msg (str e 1 k) 2 (size_value v)) v

unfoldable pub size_attrs : ℕ → Pairs → ℕ
size_attrs field end = 0
size_attrs field (pair k v ps) = size_len field (size_key_value k v) + size_attrs field ps

unfoldable pub put_attrs : Bytes → ℕ → Pairs → Bytes
put_attrs e field end = e
put_attrs e field (pair k v ps) =
    put_attrs (put_key_value (msg e field (size_key_value k v)) k v) field ps
