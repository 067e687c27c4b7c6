-- ===== src/Buffer/Segment/Records.antt =====
-- The records of a segment as lists: their bytes, their directory, and what a prefix holds whole.
use retrosampler.Prelude.{ℕ, ◌+◌, ◌-◌, ◌≤◌, ◌<◌, ◌≡◌, refl, ◌∙◌, ap, arith, List, [], ◌∷◌, ◌++◌}
use retrosampler.Prelude.{
  append_assoc, append-nil, Bool-cases, inl, inr, leb, if◌then◌else◌, length, All,
}
use retrosampler.Prelude.{length-append}
use native.Mathlib.Nat.{add_assoc}
use retrosampler.Prelude.Bytes.{Bytes}
use retrosampler.Buffer.Record.{
  rec_header_len, len_u32, put_record_header, length-put_record_header,
}
use retrosampler.Buffer.Segment.Writer.{DirEntry, max_record_len}

-- One record as a client appends it.
pub record Rec : Type 0 where
  pub id : Bytes
  pub frag : Bytes

-- What Append lets through: a 16-byte id and a fragment of at most 64 MiB.
abbrev pub IsRec : Rec → Type 0
IsRec r = (length r.id ≡ 16) × (length r.frag ≤ max_record_len)

abbrev pub rec_len : Rec → ℕ
rec_len r = rec_header_len + length r.frag

abbrev pub total_len : List Rec → ℕ
total_len [] = 0
total_len (r ∷ rs) = rec_len r + total_len rs

-- The directory of records that stand one after another from `off` on.
unfoldable pub dir_from : ℕ → List Rec → List DirEntry
dir_from off [] = []
dir_from off (r ∷ rs) =
    record { id = r.id; off = len_u32 off; length = length r.frag } ∷ dir_from (off + rec_len r) rs

-- The records that stand whole in the first `n` bytes.
unfoldable pub whole : ℕ → List Rec → List Rec
whole n [] = []
whole n (r ∷ rs) = if leb (rec_len r) n then r ∷ whole (n - rec_len r) rs else []

pub whole_cut : (r : Rec) (rs : List Rec) (n : ℕ) → n < rec_len r → whole n (r ∷ rs) ≡ []
unfolding whole
whole_cut r rs n h = ground arith

pub whole_fits :
    (r : Rec) (rs : List Rec) (n : ℕ)
    → rec_len r ≤ n
    → whole n (r ∷ rs) ≡ r ∷ whole (n - rec_len r) rs
unfolding whole
whole_fits r rs n h = ground arith

module _ (checksum : Bytes → ℕ) where
  unfoldable pub encode_rec : Rec → Bytes
  encode_rec r = put_record_header checksum r.id r.frag ++ r.frag

  unfoldable pub encode_recs : List Rec → Bytes
  encode_recs [] = []
  encode_recs (r ∷ rs) = encode_rec r ++ encode_recs rs

module _ (checksum : Bytes → ℕ) where
  pub length-encode_rec : (r : Rec) → IsRec r → length (encode_rec checksum r) ≡ rec_len r
  unfolding encode_rec
  length-encode_rec r h = omega (
    arith,
    length-append (put_record_header checksum r.id r.frag) r.frag,
    length-put_record_header checksum r.id r.frag h.0,
  )

  pub length-encode_recs :
      (rs : List Rec) → All IsRec rs → length (encode_recs checksum rs) ≡ total_len rs
  unfolding encode_recs
  length-encode_recs [] h = refl
  length-encode_recs (r ∷ rs) h = omega (
    arith,
    length-append (encode_rec checksum r) (encode_recs checksum rs),
    length-encode_rec r h.0,
    length-encode_recs rs h.1,
  )

  pub encode_recs-append :
      (rs : List Rec) (r : Rec)
      → encode_recs checksum (rs ++ (r ∷ [])) ≡ encode_recs checksum rs ++ encode_rec checksum r
  unfolding encode_recs
  encode_recs-append [] r = append-nil (encode_rec checksum r)
  encode_recs-append (x ∷ rs) r = rw (
    encode_recs-append rs r,
    append_assoc (encode_rec checksum x) (encode_recs checksum rs) (encode_rec checksum r),
  )

pub length-whole : (n : ℕ) (rs : List Rec) → length (whole n rs) ≤ n
unfolding whole
length-whole n [] = omega arith
length-whole n (r ∷ rs) = ground (arith, length-whole (n - rec_len r) rs)

pub length-whole_le : (rs : List Rec) (n : ℕ) → length (whole n rs) ≤ total_len rs
unfolding whole
length-whole_le [] n = omega arith
length-whole_le (r ∷ rs) n = ground (arith, length-whole_le rs (n - rec_len r))

pub whole_all : (rs : List Rec) (n : ℕ) → total_len rs ≤ n → whole n rs ≡ rs
whole_all [] n h = unfold whole in refl
whole_all (r ∷ rs) n h =
    whole_fits r rs n (omega arith) ∙ ap (λ t. r ∷ t) (whole_all rs (n - rec_len r) (omega arith))

pub All-whole : (rs : List Rec) (n : ℕ) → All IsRec rs → All IsRec (whole n rs)
unfolding whole
All-whole [] n h = h
All-whole (r ∷ rs) n h = elim (Bool-cases (leb (rec_len r) n)) [
  | inl fits ↦ rw fits (h.0, All-whole rs (n - rec_len r) h.1)
  | inr cut ↦ rw cut tt
]

pub total_len-append :
    (rs : List Rec) (r : Rec) → total_len (rs ++ (r ∷ [])) ≡ total_len rs + rec_len r
total_len-append [] r = omega arith
total_len-append (x ∷ rs) r = omega (arith, total_len-append rs r)

pub dir_from-append :
    (rs : List Rec) (r : Rec) (off : ℕ)
    → dir_from off (rs ++ (r ∷ []))
      ≡ dir_from off rs
        ++ (record { id = r.id; off = len_u32 (off + total_len rs); length = length r.frag } ∷ [])
unfolding dir_from
dir_from-append [] r off =
    ap (λ o. record { id = r.id; off = len_u32 o; length = length r.frag } ∷ []) (omega arith)
dir_from-append (x ∷ rs) r off =
    rw (dir_from-append rs r (off + rec_len x), add_assoc off (rec_len x) (total_len rs))
