-- ===== src/Prelude/Arrays.antt =====
-- Lists as arrays: reads that fall back to a value, writes, and counts of the entries that pass a test.
use mathlib.Core.Path.{◌≡◌, refl, ap}
use mathlib.Core.Bool.{Bool, true, false}
use mathlib.Core.List.{List, [], ◌∷◌, ◌++◌}
use mathlib.Core.Logic.{inl, inr}
use Prim.Native.Nat.{ℕ, zero, suc, ◌+◌, ◌≤◌, ◌<◌}
use native.Mathlib.Omega.{arith}
use retrosampler.Prelude.Tests.{if◌then◌else◌, ◌==◌, Bool-cases}
use retrosampler.Prelude.Lists.{length, drop}

module _ {ℓ} {A : Type ℓ} where
  abbrev pub get_or : A → List A → ℕ → A
  get_or other [] i = other
  get_or other (x ∷ xs) zero = x
  get_or other (x ∷ xs) (suc i) = get_or other xs i

  -- A write past the end changes nothing.
  abbrev pub set_at : ℕ → A → List A → List A
  set_at i v [] = []
  set_at zero v (x ∷ xs) = v ∷ xs
  set_at (suc i) v (x ∷ xs) = x ∷ set_at i v xs

  abbrev pub replicate : ℕ → A → List A
  replicate zero x = []
  replicate (suc n) x = x ∷ replicate n x

  pub length-set_at : (i : ℕ) (v : A) (xs : List A) → length (set_at i v xs) ≡ length xs
  length-set_at i v [] = refl
  length-set_at zero v (x ∷ xs) = refl
  length-set_at (suc i) v (x ∷ xs) = ap suc (length-set_at i v xs)

  pub length-replicate : (n : ℕ) (x : A) → length (replicate n x) ≡ n
  length-replicate zero x = refl
  length-replicate (suc n) x = ap suc (length-replicate n x)

  pub get_or-set_at :
      (other v : A) (xs : List A) (i j : ℕ)
      → i < length xs
      → get_or other (set_at i v xs) j ≡ (if i == j then v else get_or other xs j)
  get_or-set_at other v [] i j h = ground (arith, h)
  get_or-set_at other v (x ∷ xs) zero zero h = ground arith
  get_or-set_at other v (x ∷ xs) zero (suc j) h = ground arith
  get_or-set_at other v (x ∷ xs) (suc i) zero h = ground arith
  get_or-set_at other v (x ∷ xs) (suc i) (suc j) h = ground (arith, get_or-set_at other v xs i j)

  pub get_or-replicate : (other x : A) (n j : ℕ) → j < n → get_or other (replicate n x) j ≡ x
  get_or-replicate other x zero j h = ground (arith, h)
  get_or-replicate other x (suc n) zero h = refl
  get_or-replicate other x (suc n) (suc j) h = get_or-replicate other x n j (ground arith)

  pub get_or-append_lt :
      (other : A) (xs ys : List A) (j : ℕ)
      → j < length xs
      → get_or other (xs ++ ys) j ≡ get_or other xs j
  get_or-append_lt other [] ys j h = ground (arith, h)
  get_or-append_lt other (x ∷ xs) ys zero h = refl
  get_or-append_lt other (x ∷ xs) ys (suc j) h = get_or-append_lt other xs ys j (ground arith)

  pub get_or-append_length :
      (other y : A) (xs : List A) → get_or other (xs ++ (y ∷ [])) (length xs) ≡ y
  get_or-append_length other y [] = refl
  get_or-append_length other y (x ∷ xs) = get_or-append_length other y xs

  pub get_or-drop :
      (other : A) (n : ℕ) (xs : List A) (j : ℕ)
      → get_or other (drop n xs) j ≡ get_or other xs (n + j)
  get_or-drop other zero xs j = ap (λ k. get_or other xs k) (omega arith)
  get_or-drop other (suc n) [] j = refl
  get_or-drop other (suc n) (x ∷ xs) j = ground (arith, get_or-drop other n xs j)

  pub drop-get_or :
      (other : A) (n : ℕ) (xs : List A)
      → n < length xs
      → drop n xs ≡ get_or other xs n ∷ drop (n + 1) xs
  drop-get_or other n [] h = absurd (omega (arith, h))
  drop-get_or other zero (x ∷ xs) h = refl
  drop-get_or other (suc n) (x ∷ xs) h = ground (arith, drop-get_or other n xs (omega (arith, h)))

module _ {ℓ} {A : Type ℓ} (test : A → Bool) where
  abbrev pub weight : A → ℕ
  weight x = if test x then 1 else 0

  abbrev pub count : List A → ℕ
  count [] = 0
  count (x ∷ xs) = weight x + count xs

  pub count-set_at :
      (other v : A) (xs : List A) (i : ℕ)
      → i < length xs
      → count (set_at i v xs) + weight (get_or other xs i) ≡ count xs + weight v
  count-set_at other v [] i h = ground (arith, h)
  count-set_at other v (x ∷ xs) zero h = omega arith
  count-set_at other v (x ∷ xs) (suc i) h = omega (arith, count-set_at other v xs i (ground arith))

  pub count-replicate : (n : ℕ) (x : A) → test x ≡ false → count (replicate n x) ≡ 0
  count-replicate zero x h = refl
  count-replicate (suc n) x h = ground (arith, h, count-replicate n x)

  -- Where not every entry passes, one that does not can be found.
  pub count_lt :
      (other : A) (xs : List A)
      → count xs < length xs
      → (j : ℕ) × (j < length xs) × (test (get_or other xs j) ≡ false)
  count_lt other [] h = absurd (omega (arith, h))
  count_lt other (x ∷ xs) h = elim (Bool-cases (test x)) [
    | inl passes ↦
        let (j, lt, e) = count_lt other xs (ground (arith, h, passes)) in (suc j, ground arith, e)
    | inr fails ↦ (0, ground arith, fails)
  ]

pub count_le {ℓ} :
    {A : Type ℓ} (p q : A → Bool)
    → ((x : A) → p x ≡ true → q x ≡ true)
    → (xs : List A) → count p xs ≤ count q xs
count_le p q h [] = omega arith
count_le p q h (x ∷ xs) = elim (Bool-cases (p x)) [
  | inl yes_p ↦ ground (arith, yes_p, h x yes_p, count_le p q h xs)
  | inr no_p ↦ ground (arith, no_p, count_le p q h xs)
]
