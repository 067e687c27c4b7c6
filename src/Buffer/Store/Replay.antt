-- ===== src/Buffer/Store/Replay.antt =====
-- internal/buffer/buffer.go: what recover puts into the index, and its early returns.
use retrosampler.Prelude.{
  ℕ, zero, suc, ◌+◌, ◌^◌, ◌≤◌, ◌≡◌, true, false, some, refl, sym, ap, ◌∙◌, arith, Bool, List, [],
  ◌∷◌, ◌++◌, append_assoc, append-nil, Option, none,
}
use retrosampler.Prelude.{Bool-cases, inl, inr, if◌then◌else◌, length, bytes_eq}
use retrosampler.Prelude.{bytes_eq→eq}
use retrosampler.Prelude.Bytes.{Bytes}
use retrosampler.Prelude.Options.{◌>>=◌}
use retrosampler.Buffer.Segment.Writer.{DirEntry}
use retrosampler.Buffer.Index.Defs.{Loc, Index, put, places}
use retrosampler.Buffer.Index.Invariant.{IsIndex}
use retrosampler.Buffer.Index.Put.{put-Adds}
use retrosampler.Buffer.Store.Defs.{next_answer}
use retrosampler.Buffer.Store.Open.{Recovery, ask, entry_loc, put_entries}

-- The fragments of a trace in a segment, by the segment's entries.
unfoldable pub fragments_in : Bytes → ℕ → List DirEntry → List Loc
fragments_in id gen [] = []
fragments_in id gen (e ∷ entries) =
    let rest = fragments_in id gen entries in
    if bytes_eq e.id id then entry_loc gen e ∷ rest else rest

-- The index has these fragments after those that it had, and at most `n` locs more.
abbrev pub AddsAll : Index → Index → ℕ → (Bytes → List Loc) → Type 0
AddsAll x y n new =
    IsIndex y
    × ((id : Bytes) → places y id ≡ places x id ++ new id)
    × (length y.arena ≤ length x.arena + n)

place_next :
    (k id : Bytes) (l : Loc) (old mine rest found : List Loc)
    → (id ≡ k → mine ≡ old)
    → found ≡ (if bytes_eq id k then mine ++ (l ∷ []) else old)
    → found ++ rest ≡ old ++ (if bytes_eq id k then l ∷ rest else rest)
place_next k id l old mine rest found same e = elim (Bool-cases (bytes_eq id k)) [
  | inl ours ↦
      rw (e, ours)
        (ap (λ r. (r ++ (l ∷ [])) ++ rest) (same (bytes_eq→eq id k ours))
          ∙ append_assoc old (l ∷ []) rest)
  | inr other ↦ rw (e, other) refl
]

pub put_entries-AddsAll :
    (gen : ℕ) (entries : List DirEntry) (x : Index)
    → IsIndex x
    → length x.arena + length entries ≤ 2 ^ 31
    → AddsAll x (put_entries gen entries x) (length entries) (λ id. fragments_in id gen entries)
unfolding put_entries fragments_in
put_entries-AddsAll gen [] x t few = (t, λ id. sym (append-nil (places x id)), omega arith)
put_entries-AddsAll gen (e ∷ entries) x t few =
    let l = entry_loc gen e in
    let (t1, law, by_one) = put-Adds x e.id l t (omega (arith, few)) in
    let (t2, all, by_all) =
      put_entries-AddsAll gen entries (put e.id l x) t1 (omega (arith, few, by_one)) in
    (
      t2,
      λ id.
          all id
          ∙ place_next id e.id l (places x id) (places x e.id) (fragments_in id gen entries)
              (places (put e.id l x) id) (ap (places x)) (law id),
      omega (arith, by_one, by_all),
    )

pub AddsAll-trans :
    (x y z : Index) (m n : ℕ) (new more : Bytes → List Loc)
    → AddsAll x y m new
    → AddsAll y z n more
    → AddsAll x z (m + n) (λ id. new id ++ more id)
AddsAll-trans x y z m n new more (_, first, some_locs) (t, second, more_locs) = (
  t,
  λ id.
      second id ∙ ap (λ r. r ++ more id) (first id) ∙ append_assoc (places x id) (new id) (more id),
  omega (arith, some_locs, more_locs),
)

-- The answers that are left after a call to the system; none where it fails.
unfoldable pub call : List Bool → Option (List Bool)
call answers = let a = next_answer answers in if a.0 then some a.1 else none

-- The same after `n` calls.
abbrev pub run_calls : ℕ → List Bool → Option (List Bool)
run_calls zero answers = some answers
run_calls (suc n) answers = call answers >>= run_calls n

pub call_ok :
    (answers : List Bool)
    → (next_answer answers).0 ≡ true
    → call answers ≡ some (next_answer answers).1
unfolding call
call_ok answers ok = rw (call, ok) refl

pub call_fails : (answers : List Bool) → (next_answer answers).0 ≡ false → call answers ≡ none
unfolding call
call_fails answers bad = rw (call, bad) refl

-- A property of a result and of the answers that are left holds after a call, if it does where the call fails.
pub ask-call :
    {A : Type 0} (P : Option (List Bool) → Option A → Type 0) (o : Recovery)
    (more : List Bool → Option (List Bool)) (then_do : Recovery → Option A)
    → P none none
    → P
        (more (next_answer o.answers).1)
        (then_do (record o { answers = (next_answer o.answers).1 }))
    → P (call o.answers >>= more) (ask o then_do)
unfolding ask call
ask-call P o more then_do failed p = elim (Bool-cases (next_answer o.answers).0) [
  | inl ok ↦ rw (ask, call, ok) p
  | inr bad ↦ rw (ask, call, bad) failed
]

pub run_calls-nil : (n : ℕ) → run_calls n [] ≡ some []
unfolding call
run_calls-nil zero = refl
run_calls-nil (suc n) = run_calls-nil n
