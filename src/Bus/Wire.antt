-- ===== src/Bus/Wire.antt =====
-- internal/bus/natsbus/wire.go: a keep on the wire, `16B traceID | reason`.
use retrosampler.Prelude.{
  ℕ, ◌≡◌, ◌↔◌, ◌⊎◌, inl, inr, refl, sym, ap, ◌∙◌, arith, [], ◌∷◌, ◌++◌, Option, none, some,
}
use retrosampler.Prelude.{
  ◌==◌, if◌then◌else◌, length, take, length-append, take-length_append, Bool-cases, ◌<◌,
}
use retrosampler.Prelude.Bytes.{Bytes}

-- `make([]byte, 17)` with the id copied in front and the reason behind it.
unfoldable pub encode_keep : Bytes → ℕ → Bytes
encode_keep id reason = id ++ (reason ∷ [])

unfoldable pub last_byte : Bytes → ℕ
last_byte [] = 0
last_byte (b ∷ []) = b
last_byte (b ∷ c ∷ bs) = last_byte (c ∷ bs)

-- The id and the reason, or none for `ok == false`. At 17 bytes, b[16] is the last one.
unfoldable pub decode_keep : Bytes → Option (Bytes × ℕ)
decode_keep b =
    if length b == 17
    then some (take 16 b, last_byte b)
    else if length b == 16
    then some (b, 0)
    else none

last_byte-append : (id : Bytes) (r : ℕ) → last_byte (id ++ (r ∷ [])) ≡ r
unfolding last_byte
last_byte-append [] r = refl
last_byte-append (b ∷ []) r = refl
last_byte-append (b ∷ c ∷ id) r = last_byte-append (c ∷ id) r

snoc_last : (b : Bytes) → 0 < length b → (front : Bytes) × (b ≡ front ++ (last_byte b ∷ []))
unfolding last_byte
snoc_last [] h = absurd (omega (arith, h))
snoc_last (b ∷ []) h = ([], refl)
snoc_last (b ∷ c ∷ bs) h =
    let (front, e) = snoc_last (c ∷ bs) (ground arith) in (b ∷ front, ap (λ t. b ∷ t) e)

-- Decoding gives an id of 16 bytes and its reason back.
pub decode_keep-encode_keep :
    (id : Bytes) (reason : ℕ)
    → length id ≡ 16
    → decode_keep (encode_keep id reason) ≡ some (id, reason)
unfolding decode_keep encode_keep
decode_keep-encode_keep id reason h = ground (
  arith,
  length-append id (reason ∷ []),
  take-length_append 16 id (reason ∷ []) h,
  last_byte-append id reason,
)

encode_keep-front :
    (b front : Bytes) (r : ℕ)
    → b ≡ front ++ (r ∷ [])
    → length b ≡ 17
    → (length front ≡ 16) × (take 16 b ≡ front)
encode_keep-front b front r e h =
    let n : length front ≡ 16 =
      ground (arith, ap (λ t. length t) e, length-append front (r ∷ [])) in
    (n, ap (λ t. take 16 t) e ∙ take-length_append 16 front (r ∷ []) n)

decode_keep-IsKeep :
    (b id : Bytes) (reason : ℕ)
    → decode_keep b ≡ some (id, reason)
    → (length id ≡ 16) × ((b ≡ encode_keep id reason) ⊎ ((b ≡ id) × (reason ≡ 0)))
unfolding decode_keep encode_keep
decode_keep-IsKeep b id reason h = elim (Bool-cases (length b == 17)) [
  | inl long ↦
      let (front, e) = snoc_last b (ground (arith, long)) in
      let (n, f) = encode_keep-front b front (last_byte b) e (ground (arith, long)) in
      ground (arith, h, long, n, f, e)
  | inr other ↦ ground (arith, h, other)
]

decode_keep_bare : (id : Bytes) → length id ≡ 16 → decode_keep id ≡ some (id, 0)
unfolding decode_keep
decode_keep_bare id h = ground (arith, h)

-- A message is accepted as the keep (id, reason) exactly when it is an encoding of it, or, for reason 0,
-- the 16 bytes of the id alone; the id has 16 bytes either way.
pub decode_keep_lem :
    (b id : Bytes) (reason : ℕ)
    → (decode_keep b ≡ some (id, reason))
      ↔ ((length id ≡ 16) × ((b ≡ encode_keep id reason) ⊎ ((b ≡ id) × (reason ≡ 0))))
decode_keep_lem b id reason = (
  decode_keep-IsKeep b id reason,
  λ h. elim h.1 [
    | inl e ↦ ap decode_keep e ∙ decode_keep-encode_keep id reason h.0
    | inr e ↦ ap decode_keep e.0 ∙ decode_keep_bare id h.0 ∙ ap (λ r. some (id, r)) (sym e.1)
  ],
)
