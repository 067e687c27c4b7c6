-- ===== src/Probing/Table.antt =====
-- An open-addressing table whose slots hold their keys: what a search, a write and a burial do to the slots
-- that hold a key.
use Prim.Native.Nat.{bit_and}
use native.Mathlib.Nat.{one-le-pow, mod-lt, mod-add-mod}
use retrosampler.Prelude.{
  ℕ, zero, suc, ◌+◌, ◌-◌, ◌%◌, ◌^◌, ◌<◌, ◌≡◌, ◌≢◌, refl, sym, ap, ◌∙◌, arith, Bool, true, false,
  List, [], ◌∷◌, Option, none, some,
}
use retrosampler.Prelude.{
  Bool-cases, Option-cases, inl, inr, if◌then◌else◌, length, get_or, count, count_lt, bytes_eq,
  bytes_eq→eq, bytes_eq_refl,
}
use retrosampler.Prelude.Bytes.{Bytes}
use retrosampler.Probing.Masks.{bit_and-mask, turn}
use retrosampler.Probing.Search.{
  View, vacant, tomb, full, search_from, Open, search_from-Sound, search_from_complete,
  search_from-Spot,
}

abbrev pub holds_key : Bytes → View → Bool
holds_key id vacant = false
holds_key id tomb = false
holds_key id (full k) = bytes_eq k id

abbrev pub is_full : View → Bool
is_full vacant = false
is_full tomb = false
is_full (full k) = true

pub holds_key-full : (id : Bytes) (v : View) → holds_key id v ≡ true → v ≡ full id
holds_key-full id vacant e = cc
holds_key-full id tomb e = cc
holds_key-full id (full k) e = ap full (bytes_eq→eq k id e)

full-holds_key : (id : Bytes) (v : View) → v ≡ full id → holds_key id v ≡ true
full-holds_key id v e = ap (holds_key id) e ∙ bytes_eq_refl id

is_full-NotFull : (v : View) → is_full v ≡ false → (k : Bytes) → v ≢ full k
is_full-NotFull vacant e k f = cc
is_full-NotFull tomb e k f = cc
is_full-NotFull (full j) e k f = cc

NotFull-is_full : (v : View) → ((k : Bytes) → v ≢ full k) → is_full v ≡ false
NotFull-is_full vacant h = refl
NotFull-is_full tomb h = refl
NotFull-is_full (full j) h = absurd (h j refl)

key_of : View → Bytes
key_of vacant = []
key_of tomb = []
key_of (full k) = k

pub full-injective : (j k : Bytes) → full j ≡ full k → j ≡ k
unfolding key_of
full-injective j k e = ap key_of e

-- A slot is seen by `view`, and one past the table's end as `other`, which is vacant.
module _ {A : Type 0} (view : A → View) (other : A) (start : ℕ → Bytes → ℕ) where
  abbrev pub view_in : List A → ℕ → View
  view_in xs j = view (get_or other xs j)

  abbrev pub probe_in : List A → Bytes → ℕ → ℕ
  probe_in xs id p = bit_and (start (length xs) id + p) (length xs - 1)

  abbrev pub find_in : List A → Bytes → Option ℕ × Bool
  find_in xs id = search_from (view_in xs) (probe_in xs id) id (length xs) 0 none

  abbrev pub Reaches : List A → Bytes → ℕ → Type 0
  Reaches xs id j = Open (view_in xs) (probe_in xs id) id 0 (length xs) j

  -- Each key stands in one slot, at which a search for it comes by.
  pub record IsProbed (xs : List A) : Type 0 where
    pub bits : ℕ
    pub size : length xs ≡ 2 ^ bits
    pub reach : (j : ℕ) (k : Bytes) → j < length xs → view_in xs j ≡ full k → Reaches xs k j
    pub unique :
        (i j : ℕ) (k : Bytes)
        → i < length xs
        → j < length xs
        → view_in xs i ≡ full k
        → view_in xs j ≡ full k
        → i ≡ j

  -- The slot that holds a key, by looking at each.
  unfoldable pub scan : Bytes → List A → Option A
  scan id [] = none
  scan id (x ∷ xs) = if holds_key id (view x) then some x else scan id xs

  unfoldable pub count_full : List A → ℕ
  count_full xs = count (λ x. is_full (view x)) xs

  pub scan_found :
      (id : Bytes) (xs : List A) (s : A)
      → scan id xs ≡ some s
      → (j : ℕ) × (j < length xs) × (get_or other xs j ≡ s) × (view s ≡ full id)
  unfolding scan
  scan_found id [] s e = cc
  scan_found id (x ∷ xs) s e = elim (Bool-cases (holds_key id (view x))) [
    | inl here ↦
        let same : x ≡ s = ground (arith, e, here) in
        (0, omega arith, same, ap view (sym same) ∙ holds_key-full id (view x) here)
    | inr later ↦
        let (j, lt, at, v) = scan_found id xs s (ground (arith, e, later)) in
        (suc j, omega (arith, lt), at, v)
  ]

  pub scan_missing :
      (id : Bytes) (xs : List A)
      → scan id xs ≡ none
      → (j : ℕ) → j < length xs
      → view_in xs j ≢ full id
  unfolding scan
  scan_missing id [] e j lt f = omega (arith, lt)
  scan_missing id (x ∷ xs) e zero lt f = ground (arith, e, full-holds_key id (view x) f)
  scan_missing id (x ∷ xs) e (suc j) lt f = elim (Bool-cases (holds_key id (view x))) [
    | inl here ↦ ground (arith, e, here)
    | inr later ↦ scan_missing id xs (ground (arith, e, later)) j (omega (arith, lt)) f
  ]

  pub scan_at :
      (xs : List A) (id : Bytes) (j : ℕ)
      → IsProbed xs
      → j < length xs
      → view_in xs j ≡ full id
      → scan id xs ≡ some (get_or other xs j)
  scan_at xs id j t lt v = elim (Option-cases (scan id xs)) [
    | inl missing ↦ absurd (scan_missing id xs missing j lt v)
    | inr (s, found) ↦
        let (i, i_lt, at, w) = scan_found id xs s found in
        found ∙ ap some (sym at ∙ ap (get_or other xs) (t.unique i j id i_lt lt (ap view at ∙ w) v))
  ]

  pub scan_nowhere :
      (xs : List A) (id : Bytes)
      → ((j : ℕ) → j < length xs → view_in xs j ≢ full id)
      → scan id xs ≡ none
  scan_nowhere xs id h = elim (Option-cases (scan id xs)) [
    | inl missing ↦ missing
    | inr (s, found) ↦
        let (i, lt, at, w) = scan_found id xs s found in absurd (h i lt (ap view at ∙ w))
  ]

  probe-mod :
      (xs : List A) (id : Bytes) (p k : ℕ)
      → length xs ≡ 2 ^ k
      → probe_in xs id p ≡ (start (length xs) id + p) % 2 ^ k
  probe-mod xs id p k e =
      ap (λ n. bit_and (start (length xs) id + p) (n - 1)) e
      ∙ bit_and-mask (start (length xs) id + p) k

  Reaches-lt : (xs : List A) (id : Bytes) (j : ℕ) → IsProbed xs → Reaches xs id j → j < length xs
  Reaches-lt xs id j t o = ground (
    arith,
    probe-mod xs id o.probe t.bits t.size,
    t.size,
    mod-lt (start (length xs) id + o.probe) (one-le-pow t.bits 2 (omega arith)),
    o.slot,
  )

  -- A key that is held is found in its slot.
  pub find_in-held :
      (xs : List A) (id : Bytes) (s : A)
      → IsProbed xs
      → scan id xs ≡ some s
      → (j : ℕ) × (find_in xs id ≡ (some j, true))
        × (j < length xs)
        × (get_or other xs j ≡ s)
        × (view s ≡ full id)
  find_in-held xs id s t e =
      let (j, lt, at, v) = scan_found id xs s e in
      let here : view_in xs j ≡ full id = ap view at ∙ v in
      let found =
        search_from_complete (view_in xs) (probe_in xs id) id (length xs) 0 none j
          (t.reach j id lt here) here in
      let (i, e_i, v_i, o) =
        search_from-Sound (view_in xs) (probe_in xs id) id (length xs) 0 none found in
      let same : i ≡ j = t.unique i j id (Reaches-lt xs id i t o) lt v_i here in
      (j, ground (arith, e_i, found, same), lt, at, v)

  pub find_in_absent :
      (xs : List A) (id : Bytes) → IsProbed xs → scan id xs ≡ none → (find_in xs id).1 ≡ false
  find_in_absent xs id t e = elim (Bool-cases (find_in xs id).1) [
    | inl found ↦
        let (i, _, v, o) =
          search_from-Sound (view_in xs) (probe_in xs id) id (length xs) 0 none found in
        absurd (scan_missing id xs e i (Reaches-lt xs id i t o) v)
    | inr absent ↦ absent
  ]

  -- A key that is not held has a slot to go to, where the table is not full.
  pub find_in-free :
      (xs : List A) (id : Bytes)
      → IsProbed xs
      → scan id xs ≡ none
      → count_full xs < length xs
      → (j : ℕ) × (find_in xs id ≡ (some j, false))
        × (j < length xs)
        × (is_full (view_in xs j) ≡ false)
        × Reaches xs id j
  unfolding count_full
  find_in-free xs id t e room =
      let missing = find_in_absent xs id t e in
      let (f, f_lt, empty) = count_lt (λ x. is_full (view x)) other xs room in
      let (q, q_lt, at) =
        turn (start (length xs) id % 2 ^ t.bits) f (2 ^ t.bits)
          (mod-lt _ (one-le-pow t.bits 2 (omega arith))) (ground (arith, f_lt, t.size)) in
      let there : probe_in xs id q ≡ f =
        probe-mod xs id q t.bits t.size
        ∙ sym (mod-add-mod (start (length xs) id) (2 ^ t.bits) q)
        ∙ at in
      let (j, e_j, spot) =
        search_from-Spot (view_in xs) (probe_in xs id) id (length xs) 0 none
          (inr (
            q,
            omega arith,
            ground (arith, q_lt, t.size),
            λ k v. is_full-NotFull (view_in xs f) empty k (ap (view_in xs) (sym there) ∙ v),
          ))
          missing in
      elim spot [
        | inl old ↦ ground (arith, old)
        | inr (free, o) ↦ (
          j,
          ground (arith, e_j, missing),
          Reaches-lt xs id j t o,
          NotFull-is_full (view_in xs j) free,
          o,
        )
      ]
