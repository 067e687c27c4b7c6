-- ===== src/Buffer/Segment/Adds.antt =====
-- Reasoning about the writer of a segment: what a computation that succeeds has added to the file.
use retrosampler.Prelude.{◌≡◌, refl, sym, ap, ◌∙◌, List, [], ◌∷◌, ◌++◌, append_assoc, append-nil}
use retrosampler.Prelude.{some, Option-cases, Bool-cases, inl, inr}
use retrosampler.Prelude.Bytes.{Bytes}
use retrosampler.Buffer.Segment.Writer.{Io, BufWriter, Outcome, done, short, ◌>>=◌, ◌>>◌, DirEntry}
use retrosampler.Buffer.Segment.Writer.{answer, write, flush, sys_answer, sys_call, write_entries}
use retrosampler.Buffer.Segment.Writer.{encode_entry, encode_dir, write_tail}

-- A computation that succeeds has a first part that succeeds, and goes on from where it ended.
pub bind_some :
    {A B : Type 0} (m : Io A) (f : A → Io B) (w : BufWriter) (b : B)
    → ((m >>= f) w).0 ≡ some b
    → (a : A) × ((m w).0 ≡ some a) × ((m >>= f) w ≡ f a (m w).1)
bind_some m f w b h = elim (Option-cases (m w).0) [
  | inl e ↦ cc (rw e at h)
  | inr (a, e) ↦ (a, e, rw e)
]

-- When `m` succeeds, the file has the bytes `p` more.
abbrev pub Adds : Io (Unit {0}) → Bytes → Type 0
Adds m p = (w : BufWriter) → (m w).0 ≡ some tt → (m w).1.bytes ≡ w.bytes ++ p

pub Adds->> : (m k : Io (Unit {0})) (p q : Bytes) → Adds m p → Adds k q → Adds (m >> k) (p ++ q)
Adds->> m k p q hm hk w h =
    let (_, first, on) = bind_some m (λ _. k) w tt h in
    rw (on, hk (m w).1 (rw on at h), hm w first, append_assoc w.bytes p q)

answer_ok :
    (p : Bytes) (w : BufWriter) (l : List Outcome)
    → (answer p w l).0 ≡ some tt
    → (answer p w l).1.bytes ≡ w.bytes ++ p
unfolding answer
answer_ok p w [] h = refl
answer_ok p w (done ∷ l) h = refl
answer_ok p w (short n ∷ l) h = cc

pub write-Adds : (p : Bytes) → Adds (write p) p
unfolding write
write-Adds p w h = elim (Bool-cases w.broken) [
  | inl b ↦ cc (simp b at h)
  | inr b ↦ simp b (answer_ok p w w.script (simp b at h))
]

flush-Adds : Adds flush []
unfolding flush
flush-Adds = write-Adds []

sys_answer_bytes : (w : BufWriter) (l : List Outcome) → (sys_answer w l).1.bytes ≡ w.bytes
unfolding sys_answer
sys_answer_bytes w [] = refl
sys_answer_bytes w (done ∷ l) = refl
sys_answer_bytes w (short n ∷ l) = refl

sys_call-Adds : Adds sys_call []
unfolding sys_call
sys_call-Adds w h = sys_answer_bytes w w.script ∙ sym (append-nil w.bytes)

write_entries-Adds : (es : List DirEntry) → Adds (write_entries es) (encode_dir es)
unfolding write_entries encode_dir
write_entries-Adds [] w h = sym (append-nil w.bytes)
write_entries-Adds (e ∷ es) w h =
    Adds->> (write (encode_entry e)) (write_entries es) (encode_entry e) (encode_dir es)
      (write-Adds (encode_entry e)) (write_entries-Adds es) w h

pub write_tail-Adds :
    (es : List DirEntry) (trailer : Bytes) → Adds (write_tail es trailer) (encode_dir es ++ trailer)
unfolding write_tail
write_tail-Adds es trailer w h =
    Adds->> (write_entries es) _ (encode_dir es) (trailer ++ []) (write_entries-Adds es)
      (Adds->> (write trailer) _ trailer [] (write-Adds trailer) (
        Adds->> flush _ [] [] flush-Adds
          (Adds->> sys_call sys_call [] [] sys_call-Adds sys_call-Adds)))
      w h
    ∙ ap (λ t. w.bytes ++ (encode_dir es ++ t)) (append-nil trailer)

pub flush_bytes : (w : BufWriter) → (flush w).0 ≡ some tt → (flush w).1.bytes ≡ w.bytes
flush_bytes w h = flush-Adds w h ∙ append-nil w.bytes
