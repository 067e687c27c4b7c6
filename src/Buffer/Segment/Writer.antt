-- ===== src/Buffer/Segment/Writer.antt =====
-- internal/buffer/segment.go: segmentWriter and what it writes to its file.
use retrosampler.Prelude.{
  ℕ, ◌+◌, ◌-◌, ◌*◌, ◌^◌, List, [], ◌∷◌, ◌++◌, Option, none, some, Bool, true,
}
use retrosampler.Prelude.{ltb, if◌then◌else◌, length, take}
use retrosampler.Prelude.Bytes.{Bytes, le_bytes}
use retrosampler.Prelude.Ints.{ℤ, pos, negsuc, ltb_ℤ}
use retrosampler.Buffer.Record.{rec_header_len, len_u32, put_record_header}

abbrev pub seg_magic : ℕ
seg_magic = 0x52535347

abbrev pub dir_entry_len : ℕ
dir_entry_len = 24

abbrev pub trailer_len : ℕ
trailer_len = 36

abbrev pub max_record_len : ℕ
max_record_len = 64 * 2 ^ 20

abbrev pub max_int64 : ℕ
max_int64 = 2 ^ 63 - 1

-- Go's (value, ok) pair, `none` for false.
unfoldable pub i64_from_u64 : ℕ → Option ℤ
i64_from_u64 u = if ltb max_int64 u then none else some (pos u)

unfoldable pub u64_from_i64 : ℤ → Option ℕ
u64_from_i64 (pos n) = some n
u64_from_i64 (negsuc n) = none

pub record DirEntry : Type 0 where
  pub id : Bytes
  pub off : ℕ
  pub length : ℕ

-- The answer of the system to one call: it does the work, or it fails after `n` bytes of it.
pub data Outcome : Type 0 where
  done : Outcome
  short : ℕ → Outcome

-- bufio.Writer over the file: `bytes` is what it has taken so far. An error of its own is sticky.
-- When the script is at its end every call succeeds.
pub record BufWriter : Type 0 where
  pub bytes : Bytes
  pub script : List Outcome
  pub broken : Bool

-- A computation that writes, and may fail; the writer is there on either end.
abbrev pub Io : Type 0 → Type 0
Io A = BufWriter → Option A × BufWriter

abbrev pub onward : {A B : Type 0} → Option A → (A → Io B) → Io B
onward none f w = (none, w)
onward (some a) f w = f a w

infixl 5 ◌>>=◌ ◌>>◌
abbrev pub ◌>>=◌ : {A B : Type 0} → Io A → (A → Io B) → Io B
◌>>=◌ m f w = onward (m w).0 f (m w).1

abbrev pub ◌>>◌ : {B : Type 0} → Io (Unit {0}) → Io B → Io B
m >> k = m >>= λ _. k

abbrev pub return : {A : Type 0} → A → Io A
return a w = (some a, w)

-- The early return of a `(value, ok)` pair that is not ok.
abbrev pub check : {A : Type 0} → Option A → Io A
check o w = (o, w)

unfoldable pub answer : Bytes → BufWriter → List Outcome → Option (Unit {0}) × BufWriter
answer p w [] = (some tt, record w { bytes = w.bytes ++ p })
answer p w (done ∷ rest) = (some tt, record w { bytes = w.bytes ++ p; script = rest })
answer p w (short n ∷ rest) =
    (none, record { bytes = w.bytes ++ take n p; script = rest; broken = true })

unfoldable pub write : Bytes → Io (Unit {0})
unfolding answer
write p w = if w.broken then (none, w) else answer p w w.script

-- (*bufio.Writer).Flush: it moves what is taken already, so it adds nothing to `bytes`.
unfoldable pub flush : Io (Unit {0})
unfolding write
flush = write []

-- (*os.File).Sync and Close, which go past the bufio.Writer and its sticky error.
unfoldable pub sys_answer : BufWriter → List Outcome → Option (Unit {0}) × BufWriter
sys_answer w [] = (some tt, w)
sys_answer w (done ∷ rest) = (some tt, record w { script = rest })
sys_answer w (short n ∷ rest) = (none, record w { script = rest })

unfoldable pub sys_call : Io (Unit {0})
unfolding sys_answer
sys_call w = sys_answer w w.script

pub record SegmentWriter : Type 0 where
  pub w : BufWriter
  pub gen : ℕ
  pub size : ℕ
  pub t_min : ℤ
  pub t_max : ℤ
  pub dir : List DirEntry

-- `created` is the writer over the file that os.OpenFile made, or none where it failed. The slice
-- that the source takes over is cut to length 0, so only its storage is used again.
unfoldable pub new_segment_writer : ℕ → Option BufWriter → Option SegmentWriter
new_segment_writer gen none = none
new_segment_writer gen (some w) =
    some (record { w = w; gen = gen; size = 0; t_min = pos max_int64; t_max = pos 0; dir = [] })

unfoldable pub encode_entry : DirEntry → Bytes
encode_entry e = e.id ++ (le_bytes 4 e.off ++ le_bytes 4 e.length)

-- What `sum` has been given when the loop over the directory ends.
unfoldable pub encode_dir : List DirEntry → Bytes
encode_dir [] = []
encode_dir (e ∷ es) = encode_entry e ++ encode_dir es

unfoldable pub write_entries : List DirEntry → Io (Unit {0})
write_entries [] = return tt
write_entries (e ∷ es) = write (encode_entry e) >>= λ _. write_entries es

unfoldable pub encode_trailer : ℕ → ℕ → ℕ → ℕ → ℕ → Bytes
encode_trailer footer_off count t_min t_max crc =
    le_bytes 8 footer_off
    ++ (le_bytes 4 count
        ++ (le_bytes 8 t_min ++ (le_bytes 8 t_max ++ (le_bytes 4 crc ++ le_bytes 4 seg_magic))))

-- The directory, the trailer, and then flush, fsync and close.
unfoldable pub write_tail : List DirEntry → Bytes → Io (Unit {0})
write_tail dir trailer = do write_entries dir; write trailer; flush; sys_call; sys_call

module _ (checksum : Bytes → ℕ) where
  unfoldable pub write_record : Bytes → Bytes → Io (Unit {0})
  write_record id frag = do write (put_record_header checksum id frag); write frag

  -- What append does once both writes are through.
  unfoldable pub note_record : SegmentWriter → Bytes → Bytes → ℤ → BufWriter → SegmentWriter
  note_record s id frag now w = record s {
    w = w;
    dir = s.dir ++ (record { id = id; off = len_u32 s.size; length = len_u32 (length frag) } ∷ []);
    size = s.size + (rec_header_len + length frag);
    t_min = if ltb_ℤ now s.t_min then now else s.t_min;
    t_max = if ltb_ℤ s.t_max now then now else s.t_max;
  }

  unfoldable pub finish_append :
      SegmentWriter → Bytes → Bytes → ℤ → Option (Unit {0}) → BufWriter → Option ℕ × SegmentWriter
  finish_append s id frag now none w = (none, record s { w = w })
  finish_append s id frag now (some _) w = (some (len_u32 s.size), note_record s id frag now w)

  -- The offset of the record, or none for a write error.
  unfoldable pub append : SegmentWriter → Bytes → Bytes → ℤ → Option ℕ × SegmentWriter
  unfolding finish_append
  append s id frag now =
      finish_append s id frag now (write_record id frag s.w).0 (write_record id frag s.w).1

  unfoldable pub store_footer : SegmentWriter → Io (List DirEntry)
  store_footer s = do
    footer_off ← check (u64_from_i64 (pos s.size))
    t_min ← check (u64_from_i64 s.t_min)
    t_max ← check (u64_from_i64 s.t_max)
    write_tail s.dir (
        encode_trailer footer_off (len_u32 (length s.dir)) t_min t_max
          (checksum (encode_dir s.dir)))
    return s.dir

  unfoldable pub write_footer : SegmentWriter → Io (List DirEntry)
  unfolding store_footer
  write_footer s = do flush; store_footer s

  unfoldable pub finalize : SegmentWriter → Option (List DirEntry) × SegmentWriter
  unfolding write_footer
  finalize s = let r = write_footer s s.w in (r.0, record s { w = r.1 })
