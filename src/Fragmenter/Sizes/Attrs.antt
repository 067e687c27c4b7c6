-- ===== src/Fragmenter/Sizes/Attrs.antt =====
-- internal/fragmenter/protoenc.go: the sizes of attribute values. putValue writes an empty byte string
-- as nothing, where sizeValue counts a key and a length of zero: two bytes for each.
use retrosampler.Prelude.{ℕ, ◌+◌, ◌*◌, ◌<◌, ◌≡◌, arith, [], ◌∷◌, length, length-append}
use retrosampler.Prelude.Bytes.{Bytes, le_bytes, length-le_bytes}
use retrosampler.Fragmenter.Proto.{
  uvarint, key, str, msg, bytes_f, i64_wire, size_len, size_key, size_str, size_uvarint, size_loop,
}
use retrosampler.Fragmenter.Value.{
  Value, Values, Pairs, string, bool, int, double, slice, map, bytes, empty,
}
use retrosampler.Fragmenter.Value.{
  nil, cons, end, pair, size_value, size_values, size_pairs, size_key_value,
}
use retrosampler.Fragmenter.Value.{
  put_value, put_values, put_pairs, put_bool, put_string, put_key_value, size_attrs, put_attrs,
}
use retrosampler.Fragmenter.Sizes.Scalars.{
  length-uvarint, length-key, length-msg, length-str, length-bytes_f_cons,
}

-- How often an empty byte string stands in a value.
unfoldable mutual
  pub empty_bytes : Value → ℕ
  empty_bytes (string s) = 0
  empty_bytes (bool b) = 0
  empty_bytes (int v) = 0
  empty_bytes (double d) = 0
  empty_bytes (slice vs) = empty_bytes_values vs
  empty_bytes (map ps) = empty_bytes_pairs ps
  empty_bytes (bytes []) = 1
  empty_bytes (bytes (b ∷ p)) = 0
  empty_bytes empty = 0

  pub empty_bytes_values : Values → ℕ
  empty_bytes_values nil = 0
  empty_bytes_values (cons v vs) = empty_bytes v + empty_bytes_values vs

  pub empty_bytes_pairs : Pairs → ℕ
  empty_bytes_pairs end = 0
  empty_bytes_pairs (pair k v ps) = empty_bytes v + empty_bytes_pairs ps

length-put_string : (e s : Bytes) → length (put_string e s) ≡ length e + size_len 1 (length s)
unfolding put_string size_len
length-put_string e s = omega (
  arith,
  length-append (uvarint (key e 1 2) (length s)) s,
  length-uvarint (key e 1 2) (length s),
  length-key e 1 (omega arith) 2 (omega arith),
)

-- Nothing is written for an empty byte string; its announced size is two.
empty_field : (e : Bytes) → length (bytes_f e 7 []) + 2 ≡ length e + size_len 7 0
unfolding bytes_f size_len size_key size_uvarint size_loop
empty_field e = omega arith

mutual
  unfolding put_value put_values put_pairs put_bool size_value size_values size_pairs size_key_value
      empty_bytes empty_bytes_values empty_bytes_pairs

  length-put_value :
      (e : Bytes) (v : Value) → length (put_value e v) + 2 * empty_bytes v ≡ length e + size_value v
  length-put_value e (string s) = omega (arith, length-put_string e s)
  length-put_value e (bool b) =
      omega (arith, length-append (key e 2 0) _, length-key e 2 (omega arith) 0 (omega arith))
  length-put_value e (int v) =
      omega (
        arith,
        length-uvarint (key e 3 0) (i64_wire v),
        length-key e 3 (omega arith) 0 (omega arith),
      )
  length-put_value e (double d) = omega (
    arith,
    length-append (key e 4 1) (le_bytes 8 d),
    length-le_bytes 8 d,
    length-key e 4 (omega arith) 1 (omega arith),
  )
  length-put_value e (slice vs) = omega (
    arith,
    length-put_values (msg e 5 (size_values vs)) vs,
    length-msg e 5 (omega arith) (size_values vs),
  )
  length-put_value e (map ps) = omega (
    arith,
    length-put_pairs (msg e 6 (size_pairs ps)) ps,
    length-msg e 6 (omega arith) (size_pairs ps),
  )
  length-put_value e (bytes []) = empty_field e
  length-put_value e (bytes (b ∷ p)) = omega (arith, length-bytes_f_cons e 7 (omega arith) b p)
  length-put_value e empty = omega arith

  length-put_values :
      (e : Bytes) (vs : Values)
      → length (put_values e vs) + 2 * empty_bytes_values vs ≡ length e + size_values vs
  length-put_values e nil = omega arith
  length-put_values e (cons v vs) = omega (
    arith,
    length-msg e 1 (omega arith) (size_value v),
    length-put_value (msg e 1 (size_value v)) v,
    length-put_values (put_value (msg e 1 (size_value v)) v) vs,
  )

  length-put_pairs :
      (e : Bytes) (ps : Pairs)
      → length (put_pairs e ps) + 2 * empty_bytes_pairs ps ≡ length e + size_pairs ps
  length-put_pairs e end = omega arith
  length-put_pairs e (pair k v ps) =
      let n = size_str 1 k + size_len 2 (size_value v) in
      let e1 = msg e 1 n in
      let e2 = str e1 1 k in
      let e3 = msg e2 2 (size_value v) in
      omega (
        arith,
        length-msg e 1 (omega arith) n,
        length-str e1 1 (omega arith) k,
        length-msg e2 2 (omega arith) (size_value v),
        length-put_value e3 v,
        length-put_pairs (put_value e3 v) ps,
      )

length-put_key_value :
    (e k : Bytes) (v : Value)
    → length (put_key_value e k v) + 2 * empty_bytes v ≡ length e + size_key_value k v
unfolding put_key_value size_key_value
length-put_key_value e k v =
    let e1 = str e 1 k in
    omega (
      arith,
      length-str e 1 (omega arith) k,
      length-msg e1 2 (omega arith) (size_value v),
      length-put_value (msg e1 2 (size_value v)) v,
    )

pub length-put_attrs :
    (e : Bytes) (field : ℕ) (ps : Pairs)
    → field < 32
    → length (put_attrs e field ps) + 2 * empty_bytes_pairs ps ≡ length e + size_attrs field ps
unfolding put_attrs size_attrs empty_bytes_pairs
length-put_attrs e field end h = omega arith
length-put_attrs e field (pair k v ps) h =
    let e1 = msg e field (size_key_value k v) in
    omega (
      arith,
      length-msg e field h (size_key_value k v),
      length-put_key_value e1 k v,
      length-put_attrs (put_key_value e1 k v) field ps h,
    )

-- putValue writes as many bytes as sizeValue says, less two for each empty byte string in the value.
pub length-put_value_lem :
    (e : Bytes) (v : Value) → length (put_value e v) + 2 * empty_bytes v ≡ length e + size_value v
length-put_value_lem e v = length-put_value e v
