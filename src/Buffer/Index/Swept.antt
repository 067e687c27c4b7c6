-- ===== src/Buffer/Index/Swept.antt =====
-- internal/buffer/index.go: the traces that are left after sweep has looked at a run of slots.
use native.Mathlib.Decide.{ℕ_discrete}
use native.Mathlib.Nat.{mod-lt, mod-add-mod, one-le-pow}
use retrosampler.Prelude.{
  ℕ, zero, suc, ◌+◌, ◌-◌, ◌%◌, ◌<◌, ◌≡◌, ◌≢◌, refl, sym, ap, ◌∙◌, arith, true, false, List, [], ◌∷◌,
  ◌++◌, some,
}
use retrosampler.Prelude.{
  Bool-cases, Option-cases, ◌⊎◌, inl, inr, ltb, if◌then◌else◌, length, get_or, get_or-set_at,
  length-set_at, bytes_eq, bytes_eq→eq, bytes_eq_refl,
}
use retrosampler.Prelude.Bytes.{Bytes}
use retrosampler.Probing.Masks.{turn}
use retrosampler.Probing.Search.{full}
use retrosampler.Probing.Table.{holds_key, holds_key-full, scan_at, scan_found}
use retrosampler.Buffer.Index.Defs.{
  Loc, Ref, nowhere, buried, ref_of, Slot, Index, empty_slot, slot_at, start_at, slot_view, idx_of,
  or_past, places,
}
use retrosampler.Buffer.Index.Reclaim.{loc_of, sweep_head, sweep_slot, sweep_from}
use retrosampler.Buffer.Index.Links.{loc_at, locs}
use retrosampler.Buffer.Index.Invariant.{
  slot_of, IsIndex, stored, stored-none, stored-IsRun, places-slot_of,
}
use retrosampler.Buffer.Index.Sweep.{buried_slot, bury-Drops}

-- The generation of the last fragment.
unfoldable pub newest : List Loc → ℕ
newest [] = 0
newest (l ∷ []) = l.gen
newest (l ∷ (m ∷ rest)) = newest (m ∷ rest)

-- What is left of the fragments of a trace, of which the last has to be of that generation at least.
unfoldable pub survivors : ℕ → List Loc → List Loc
unfolding newest
survivors min_gen ps = if ltb (newest ps) min_gen then [] else ps

pub survivors-nil : (m : ℕ) → survivors m [] ≡ []
unfolding survivors newest
survivors-nil m = ground arith

survivors_again : (m : ℕ) (ps : List Loc) → survivors m (survivors m ps) ≡ survivors m ps
unfolding survivors
survivors_again m ps = elim (Bool-cases (ltb (newest ps) m)) [
  | inl old ↦ rw old (survivors-nil m)
  | inr young ↦ rw young (rw young refl)
]

pub survivors-old : (m : ℕ) (ps : List Loc) → ltb (newest ps) m ≡ true → survivors m ps ≡ []
unfolding survivors
survivors-old m ps old = rw old refl

pub survivors-young : (m : ℕ) (ps : List Loc) → ltb (newest ps) m ≡ false → survivors m ps ≡ ps
unfolding survivors
survivors-young m ps young = rw young refl

newest-locs :
    (a : List Loc) (l : List ℕ) (t : ℕ) → newest (locs a (l ++ (t ∷ []))) ≡ (loc_at a t).gen
unfolding newest
newest-locs a [] t = refl
newest-locs a (i ∷ []) t = refl
newest-locs a (i ∷ (j ∷ l)) t = newest-locs a (j ∷ l) t

-- The newest fragment of a trace is that of its tail.
newest-places :
    (x : Index) (t : IsIndex x) (id : Bytes) (s : Slot)
    → slot_of id x.slots ≡ some s
    → newest (places x id) ≡ (loc_of x s.tail).gen
newest-places x t id s found =
    let r = t.runs id s found in
    ap newest
      (places-slot_of x id t.table ∙ ap (stored x.arena) found ∙ stored-IsRun x.arena t.own id s r)
    ∙ newest-locs x.arena r.before r.last
    ∙ ap (λ q. (loc_at x.arena (or_past (idx_of q) (length x.arena))).gen) (sym r.ends)

-- One slot is swept.
abbrev StepsTo : ℕ → ℕ → Index → Index → Type 0
StepsTo m j x y =
    IsIndex y
    × ((k : Bytes)
        → places y k ≡ (
            if holds_key k (slot_view (slot_at x j)) then survivors m (places x k) else places x k))
    × (length y.slots ≡ length x.slots)
    × ((i : ℕ) → i ≢ j → slot_at y i ≡ slot_at x i)
    × (length y.arena ≡ length x.arena)

StepsTo-same :
    (m j : ℕ) (x : Index)
    → IsIndex x
    → ((k : Bytes)
        → holds_key k (slot_view (slot_at x j)) ≡ true
        → survivors m (places x k) ≡ places x k)
    → StepsTo m j x x
StepsTo-same m j x t h = (
  t,
  λ k. elim (Bool-cases (holds_key k (slot_view (slot_at x j)))) [
    | inl mine ↦ rw mine (sym (h k mine))
    | inr other ↦ rw other refl
  ],
  refl,
  λ i ne. refl,
  refl,
)

sweep_head-StepsTo :
    (h : Ref) (x : Index) (j m : ℕ)
    → IsIndex x
    → j < length x.slots
    → (slot_at x j).head ≡ h
    → StepsTo m j x (sweep_head h x j m)
unfolding sweep_head
sweep_head-StepsTo nowhere x j m t lt e = StepsTo-same m j x t (λ k mine. ground (arith, e, mine))
sweep_head-StepsTo buried x j m t lt e = StepsTo-same m j x t (λ k mine. ground (arith, e, mine))
sweep_head-StepsTo (ref_of i) x j m t lt e =
    let s = slot_at x j in
    let v : slot_view s ≡ full s.id = ground (arith, e) in
    let found = scan_at slot_view empty_slot start_at x.slots s.id j t.table lt v in
    let gen = newest-places x t s.id s found in
    let key : (k : Bytes) → holds_key k (slot_view s) ≡ bytes_eq s.id k = λ k. ap (holds_key k) v in
    elim (Bool-cases (ltb (loc_of x s.tail).gen m)) [
      | inl old ↦
          let (good, law, slots, arena) = bury-Drops x t s.id j s found lt refl v in
          rw old (
            good,
            λ k. law k ∙ elim (Bool-cases (bytes_eq s.id k)) [
              | inl same ↦
                  rw (key k, same)
                    (sym (
                      survivors-old m (places x k) (
                        ap (λ q. ltb (newest (places x q)) m) (sym (bytes_eq→eq s.id k same))
                        ∙ ap (λ q. ltb q m) gen
                        ∙ old)))
              | inr apart ↦ rw (key k, apart) refl
            ],
            ap length slots ∙ length-set_at j (buried_slot s) x.slots,
            λ n ne.
                ap (λ q. get_or empty_slot q n) slots
                ∙ ground (arith, get_or-set_at empty_slot (buried_slot s) x.slots j n lt, ne),
            arena,
          )
      | inr young ↦ rw young (
          StepsTo-same m j x t (λ k mine. survivors-young m (places x k) (
            ap (λ q. ltb (newest (places x q)) m) (sym (bytes_eq→eq s.id k (sym (key k) ∙ mine)))
            ∙ ap (λ q. ltb q m) gen
            ∙ young)))
    ]

-- A run of slots is swept: what each trace has is as it was, or what survives.
abbrev pub Swept : ℕ → Index → Index → Type 0
Swept m x y =
    IsIndex y
    × ((k : Bytes) → (places y k ≡ places x k) ⊎ (places y k ≡ survivors m (places x k)))
    × (length y.slots ≡ length x.slots)
    × (length y.arena ≡ length x.arena)

sweep_slot-StepsTo :
    (x : Index) (j m : ℕ) → IsIndex x → j < length x.slots → StepsTo m j x (sweep_slot x j m)
unfolding sweep_slot
sweep_slot-StepsTo x j m t lt = sweep_head-StepsTo (slot_at x j).head x j m t lt refl

StepsTo-Swept : (m j : ℕ) (x y : Index) → StepsTo m j x y → Swept m x y
StepsTo-Swept m j x y (t, law, len, _, arena) = (
  t,
  λ k. elim (Bool-cases (holds_key k (slot_view (slot_at x j)))) [
    | inl mine ↦ inr (law k ∙ rw mine refl)
    | inr other ↦ inl (law k ∙ rw other refl)
  ],
  len,
  arena,
)

Swept-trans : (m : ℕ) (x y z : Index) → Swept m x y → Swept m y z → Swept m x z
Swept-trans m x y z (_, first, len1, a1) (t, second, len2, a2) = (
  t,
  λ k. elim (second k) [
    | inl same ↦ elim (first k) [ inl same1 ↦ inl (same ∙ same1) | inr swept ↦ inr (same ∙ swept) ]
    | inr swept2 ↦ elim (first k) [
      | inl same1 ↦ inr (swept2 ∙ ap (survivors m) same1)
      | inr swept ↦ inr (swept2 ∙ ap (survivors m) swept ∙ survivors_again m (places x k))
    ]
  ],
  len2 ∙ len1,
  a2 ∙ a1,
)

table_positive : (x : Index) → IsIndex x → 0 < length x.slots
table_positive x t = omega (arith, t.table.size, one-le-pow t.table.bits 2 (omega arith))

pub sweep_from-Swept : (n j m : ℕ) (x : Index) → IsIndex x → Swept m x (sweep_from n j m x)
unfolding sweep_from
sweep_from-Swept zero j m x t = (t, λ k. inl refl, refl, refl)
sweep_from-Swept (suc n) j m x t =
    let step = sweep_slot-StepsTo x (j % length x.slots) m t (mod-lt j (table_positive x t)) in
    let y = sweep_slot x (j % length x.slots) m in
    Swept-trans m x y (sweep_from n (j + 1) m y) (StepsTo-Swept m (j % length x.slots) x y step)
      (sweep_from-Swept n (j + 1) m y step.0)

-- A trace whose slot is on the way keeps only what survives.
sweep_from-visits :
    (n j m q : ℕ) (x : Index) (k : Bytes)
    → IsIndex x
    → q < n
    → slot_view (slot_at x ((j + q) % length x.slots)) ≡ full k
    → places (sweep_from n j m x) k ≡ survivors m (places x k)
unfolding sweep_from
sweep_from-visits zero j m q x k t lt v = absurd (omega (arith, lt))
sweep_from-visits (suc n) j m q x k t lt v =
    let i = j % length x.slots in
    let w = (j + q) % length x.slots in
    let pos = table_positive x t in
    let (t1, law, len, others, _) = sweep_slot-StepsTo x i m t (mod-lt j pos) in
    let y = sweep_slot x i m in
    elim (ℕ_discrete i w) [
      | yes here ↦
          let mine : holds_key k (slot_view (slot_at x i)) ≡ true =
            ground (arith, here, v, bytes_eq_refl k) in
          let now : places y k ≡ survivors m (places x k) = law k ∙ rw mine refl in
          elim ((sweep_from-Swept n (j + 1) m y t1).1 k) [
            | inl same ↦ same ∙ now
            | inr swept ↦ swept ∙ ap (survivors m) now ∙ survivors_again m (places x k)
          ]
      | no apart ↦
          let later : q ≢ 0 = λ e. apart (ap (λ p. p % length x.slots) (omega (arith, e))) in
          let not_here : holds_key k (slot_view (slot_at x i)) ≡ false =
            elim (Bool-cases (holds_key k (slot_view (slot_at x i)))) [
              | inl mine ↦ absurd (
                  apart (
                    t.table.unique i w k (mod-lt j pos) (mod-lt (j + q) pos)
                      (holds_key-full k (slot_view (slot_at x i)) mine) v))
              | inr other ↦ other
            ] in
          let there : slot_view (slot_at y ((j + 1 + (q - 1)) % length y.slots)) ≡ full k =
            ap (λ p. slot_view (slot_at y (p % length y.slots))) (omega (arith, later))
            ∙ ap (λ p. slot_view (slot_at y ((j + q) % p))) len
            ∙ ap slot_view (others w (λ e. apart (sym e)))
            ∙ v in
          sweep_from-visits n (j + 1) m (q - 1) y k t1 (omega (arith, lt, later)) there
          ∙ ap (survivors m) (law k ∙ rw not_here refl)
    ]

-- A sweep over as many slots as there are leaves of each trace only what survives.
pub sweep_from_all :
    (j m : ℕ) (x : Index) (k : Bytes)
    → IsIndex x
    → places (sweep_from (length x.slots) j m x) k ≡ survivors m (places x k)
sweep_from_all j m x k t = elim (Option-cases (slot_of k x.slots)) [
  | inl missing ↦
      let empty : places x k ≡ [] =
        places-slot_of x k t.table ∙ ap (stored x.arena) missing ∙ stored-none x.arena in
      elim ((sweep_from-Swept (length x.slots) j m x t).1 k) [
        | inl same ↦ same ∙ empty ∙ sym (ap (survivors m) empty ∙ survivors-nil m)
        | inr swept ↦ swept
      ]
  | inr (s, found) ↦
      let (i, i_lt, at_i, v) = scan_found slot_view empty_slot start_at k x.slots s found in
      let pos = table_positive x t in
      let (q, q_lt, e) = turn (j % length x.slots) i (length x.slots) (mod-lt j pos) i_lt in
      sweep_from-visits (length x.slots) j m q x k t q_lt (
        ap (λ p. slot_view (slot_at x p)) (sym (mod-add-mod j (length x.slots) q) ∙ e)
        ∙ ap slot_view at_i
        ∙ v)
]
