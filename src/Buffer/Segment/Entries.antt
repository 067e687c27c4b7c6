-- ===== src/Buffer/Segment/Entries.antt =====
-- internal/buffer/segment.go: an entry of the footer's directory is read back as it was written.
use retrosampler.Prelude.{ℕ, suc, ◌*◌, ◌^◌, ◌<◌, ◌≡◌, refl, ap, arith, List, [], ◌∷◌, ◌++◌}
use retrosampler.Prelude.{append_assoc, length, take, drop, All}
use retrosampler.Prelude.{length-append, take-length, take-length_append, drop-length_append}
use retrosampler.Prelude.Bytes.{Bytes, le_bytes, le_value, length-le_bytes, le_value-le_bytes}
use retrosampler.Buffer.Record.{len_u32}
use retrosampler.Buffer.Segment.Writer.{DirEntry, dir_entry_len}
use retrosampler.Buffer.Segment.Writer.{encode_entry, encode_dir}
use retrosampler.Buffer.Segment.Records.{Rec, IsRec, dir_from}
use retrosampler.Buffer.Segment.Reader.{decode_entry, decode_dir}

-- What the footer can store of an entry.
abbrev pub IsEntry : DirEntry → Type 0
IsEntry e = (length e.id ≡ 16) × (e.off < 2 ^ 32) × (e.length < 2 ^ 32)

len_u32_lt : (n : ℕ) → len_u32 n < 2 ^ 32
unfolding len_u32
len_u32_lt n = ground arith

pub dir_from-IsEntry : (rs : List Rec) (off : ℕ) → All IsRec rs → All IsEntry (dir_from off rs)
unfolding dir_from
dir_from-IsEntry [] off h = tt
dir_from-IsEntry (r ∷ rs) off h =
    ((h.0.0, len_u32_lt off, omega (arith, h.0.1)), dir_from-IsEntry rs _ h.1)

pub length-dir_from : (rs : List Rec) (off : ℕ) → length (dir_from off rs) ≡ length rs
unfolding dir_from
length-dir_from [] off = refl
length-dir_from (r ∷ rs) off = ap suc (length-dir_from rs _)

-- A field of a byte string: `k` bytes from `o` on.
pub field :
    (o k : ℕ) (pre f post : Bytes)
    → length pre ≡ o
    → length f ≡ k
    → take k (drop o (pre ++ (f ++ post))) ≡ f
field o k pre f post hpre hf =
    rw (drop-length_append o pre (f ++ post) hpre) (take-length_append k f post hf)

length-encode_entry : (e : DirEntry) → IsEntry e → length (encode_entry e) ≡ dir_entry_len
unfolding encode_entry
length-encode_entry e h = omega (
  arith,
  length-append e.id (le_bytes 4 e.off ++ le_bytes 4 e.length),
  length-append (le_bytes 4 e.off) (le_bytes 4 e.length),
  length-le_bytes 4 e.off,
  length-le_bytes 4 e.length,
  h.0,
)

pub length-encode_dir :
    (es : List DirEntry) → All IsEntry es → length (encode_dir es) ≡ length es * dir_entry_len
unfolding encode_dir
length-encode_dir [] h = omega arith
length-encode_dir (e ∷ es) h = omega (
  arith,
  length-append (encode_entry e) (encode_dir es),
  length-encode_entry e h.0,
  length-encode_dir es h.1,
)

decode-encode_entry : (e : DirEntry) → IsEntry e → decode_entry (encode_entry e) ≡ e
unfolding decode_entry encode_entry
decode-encode_entry e h = λ i. record { id = id_path i; off = off_path i; length = length_path i }
  where
    off_bytes : Bytes
    off_bytes = le_bytes 4 e.off

    len_bytes : Bytes
    len_bytes = le_bytes 4 e.length

    id_path : take 16 (e.id ++ (off_bytes ++ len_bytes)) ≡ e.id
    id_path = take-length_append 16 e.id _ h.0

    off_path : le_value (take 4 (drop 16 (e.id ++ (off_bytes ++ len_bytes)))) ≡ e.off
    off_path =
        rw (field 16 4 e.id off_bytes len_bytes h.0 (length-le_bytes 4 e.off))
          (le_value-le_bytes 4 e.off (omega (arith, h.1)))

    length_path : le_value (take 4 (drop 20 (e.id ++ (off_bytes ++ len_bytes)))) ≡ e.length
    length_path =
        rw
          (
            ← append_assoc e.id off_bytes len_bytes,
            drop-length_append 20 (e.id ++ off_bytes) len_bytes
                (omega (arith, length-append e.id off_bytes, length-le_bytes 4 e.off, h.0)),
            take-length 4 len_bytes (length-le_bytes 4 e.length),
          )
          (le_value-le_bytes 4 e.length (omega (arith, h.2)))

pub decode-encode_dir :
    (es : List DirEntry) → All IsEntry es → decode_dir (length es) (encode_dir es) ≡ es
unfolding decode_dir encode_dir
decode-encode_dir [] h = refl
decode-encode_dir (e ∷ es) h = rw (
  take-length_append dir_entry_len (encode_entry e) (encode_dir es) (length-encode_entry e h.0),
  drop-length_append dir_entry_len (encode_entry e) (encode_dir es) (length-encode_entry e h.0),
  decode-encode_entry e h.0,
  decode-encode_dir es h.1,
)
