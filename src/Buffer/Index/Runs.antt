-- ===== src/Buffer/Index/Runs.antt =====
-- internal/buffer/index.go: runs of calls, and the index as a map from traces to their fragments.
use mathlib.Core.Path.{subst}
use retrosampler.Prelude.{
  ℕ, ◌+◌, ◌^◌, ◌≤◌, ◌≡◌, refl, sym, ap, ◌∙◌, arith, true, false, List, [], ◌∷◌, ◌++◌, append_assoc,
  append-nil,
}
use retrosampler.Prelude.{Bool-cases, ◌⊎◌, inl, inr, if◌then◌else◌, length, bytes_eq, bytes_eq→eq}
use retrosampler.Prelude.Bytes.{Bytes}
use retrosampler.Buffer.Index.Defs.{Loc, Index, unlinked, put, places}
use retrosampler.Buffer.Index.Reclaim.{sweep}
use retrosampler.Buffer.Index.Invariant.{IsIndex}
use retrosampler.Buffer.Index.Put.{put-Adds}
use retrosampler.Buffer.Index.Swept.{newest, survivors, survivors-nil, survivors-young}
use retrosampler.Buffer.Index.Sweeps.{sweep-Sweeps}

-- The calls that change the index.
pub data Call : Type 0 where
  puts : Bytes → Loc → Call
  sweeps : ℕ → ℕ → ℕ → Call

unfoldable pub run : List Call → Index → Index
run [] x = x
run (puts id l ∷ calls) x = run calls (put id l x)
run (sweeps capacity n m ∷ calls) x = run calls (sweep capacity n m x)

abbrev pub puts_in : List Call → ℕ
puts_in [] = 0
puts_in (puts id l ∷ calls) = 1 + puts_in calls
puts_in (sweeps capacity n m ∷ calls) = puts_in calls

-- What a trace may have after some calls, where it had `ps`: put adds to it, and sweep may take all of it.
pub data Follows (id : Bytes) : List Call → List Loc → List Loc → Type 0 where
  ended : (ps : List Loc) → Follows id [] ps ps
  grown :
      (k : Bytes) (l : Loc) (calls : List Call) (ps qs : List Loc)
      → bytes_eq k id ≡ true
      → Follows id calls (ps ++ (unlinked l ∷ [])) qs
      → Follows id (puts k l ∷ calls) ps qs
  passed :
      (k : Bytes) (l : Loc) (calls : List Call) (ps qs : List Loc)
      → bytes_eq k id ≡ false
      → Follows id calls ps qs
      → Follows id (puts k l ∷ calls) ps qs
  kept :
      (c n m : ℕ) (calls : List Call) (ps qs : List Loc)
      → Follows id calls ps qs
      → Follows id (sweeps c n m ∷ calls) ps qs
  swept :
      (c n m : ℕ) (calls : List Call) (ps qs : List Loc)
      → Follows id calls (survivors m ps) qs
      → Follows id (sweeps c n m ∷ calls) ps qs

-- From a well-formed index, in any order of calls that keeps within the limit of the arena, the index stays
-- well formed and each trace has what the calls may leave it.
pub run-Follows :
    (calls : List Call) (x : Index)
    → IsIndex x
    → length x.arena + puts_in calls ≤ 2 ^ 31
    → IsIndex (run calls x)
      × ((id : Bytes) → Follows id calls (places x id) (places (run calls x) id))
unfolding run
run-Follows [] x t small = (t, λ id. ended (places x id))
run-Follows (puts k l ∷ calls) x t small =
    let (t1, law, by_one) = put-Adds x k l t (omega (arith, small)) in
    let (t2, follows) = run-Follows calls (put k l x) t1 (omega (arith, small, by_one)) in
    let last = run calls (put k l x) in
    (
      t2,
      λ id. elim (Bool-cases (bytes_eq k id)) [
        | inl same ↦
            let now : places (put k l x) id ≡ places x id ++ (unlinked l ∷ []) =
              law id
              ∙ rw same (ap (λ q. places x q ++ (unlinked l ∷ [])) (bytes_eq→eq k id same)) in
            grown k l calls (places x id) (places last id) same
              (subst (λ q. Follows id calls q (places last id)) now (follows id))
        | inr apart ↦
            let now : places (put k l x) id ≡ places x id = law id ∙ rw apart refl in
            passed k l calls (places x id) (places last id) apart
              (subst (λ q. Follows id calls q (places last id)) now (follows id))
      ],
    )
run-Follows (sweeps c n m ∷ calls) x t small =
    let (t1, each, _, le) = sweep-Sweeps c n m x t (omega (arith, small)) in
    let (t2, follows) = run-Follows calls (sweep c n m x) t1 (omega (arith, small, le)) in
    let last = run calls (sweep c n m x) in
    (
      t2,
      λ id. elim (each id) [
        | inl same ↦
            kept c n m calls (places x id) (places last id)
              (subst (λ q. Follows id calls q (places last id)) same (follows id))
        | inr gone ↦
            swept c n m calls (places x id) (places last id)
              (subst (λ q. Follows id calls q (places last id)) gone (follows id))
      ],
    )

-- The fragments of a trace that the calls put, in order.
unfoldable pub put_for : Bytes → List Call → List Loc
put_for id [] = []
put_for id (puts k l ∷ calls) =
    let rest = put_for id calls in if bytes_eq k id then unlinked l ∷ rest else rest
put_for id (sweeps c n m ∷ calls) = put_for id calls

-- Each sweep is for generations up to `g`, and each fragment of the trace that is put is of generation `g` at least.
abbrev pub IsWithin : Bytes → ℕ → List Call → Type 0
IsWithin id g [] = Unit {0}
IsWithin id g (puts k l ∷ calls) = (bytes_eq k id ≡ true → g ≤ l.gen) × IsWithin id g calls
IsWithin id g (sweeps c n m ∷ calls) = (m ≤ g) × IsWithin id g calls

newest-snoc : (ps : List Loc) (l : Loc) → newest (ps ++ (unlinked l ∷ [])) ≡ l.gen
unfolding newest
newest-snoc [] l = refl
newest-snoc (p ∷ []) l = refl
newest-snoc (p ∷ (q ∷ ps)) l = newest-snoc (q ∷ ps) l

Follows-all :
    (id : Bytes) (g : ℕ) (calls : List Call) (ps qs : List Loc)
    → Follows id calls ps qs
    → IsWithin id g calls
    → (ps ≡ []) ⊎ (g ≤ newest ps)
    → qs ≡ ps ++ put_for id calls
unfolding put_for survivors
Follows-all id g [] ps qs (ended _) w young = sym (append-nil ps)
Follows-all id g _ ps qs (grown k l calls _ _ same f) (late, w) young =
    Follows-all id g calls (ps ++ (unlinked l ∷ [])) qs f w
      (inr (omega (arith, newest-snoc ps l, late same)))
    ∙ append_assoc ps (unlinked l ∷ []) (put_for id calls)
    ∙ rw same refl
Follows-all id g _ ps qs (passed k l calls _ _ apart f) (late, w) young =
    Follows-all id g calls ps qs f w young ∙ rw apart refl
Follows-all id g _ ps qs (kept c n m calls _ _ f) (le, w) young =
    Follows-all id g calls ps qs f w young
Follows-all id g _ ps qs (swept c n m calls _ _ f) (le, w) young =
    let whole : survivors m ps ≡ ps = elim young [
      | inl empty ↦ ap (survivors m) empty ∙ survivors-nil m ∙ sym empty
      | inr late ↦ survivors-young m ps (ground (arith, le, late))
    ] in
    Follows-all id g calls (survivors m ps) qs f w
      (subst (λ q. (q ≡ []) ⊎ (g ≤ newest q)) (sym whole) young)
    ∙ ap (λ q. q ++ put_for id calls) whole

-- From a well-formed index, and for calls within the limit of the arena: a trace ends with the fragments
-- that it had and then those that were put for it, in order, when no sweep asks for a generation above g,
-- each fragment that is put for it is of generation g at least, and so is the last that it had, if any.
pub run-keeps :
    (calls : List Call) (x : Index) (id : Bytes) (g : ℕ)
    → IsIndex x
    → length x.arena + puts_in calls ≤ 2 ^ 31
    → IsWithin id g calls
    → (places x id ≡ []) ⊎ (g ≤ newest (places x id))
    → places (run calls x) id ≡ places x id ++ put_for id calls
run-keeps calls x id g t small w young =
    Follows-all id g calls (places x id) (places (run calls x) id)
      ((run-Follows calls x t small).1 id) w young
