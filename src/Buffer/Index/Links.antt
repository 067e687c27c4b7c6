-- ===== src/Buffer/Index/Links.antt =====
-- internal/buffer/index.go: chains of locs in the arena.
use mathlib.Core.Path.{subst}
use retrosampler.Prelude.{
  ℕ, zero, suc, ◌≤◌, ◌<◌, ◌≡◌, ◌≢◌, refl, sym, ap, ◌∙◌, arith, Bool, true, false, not, List, [],
  ◌∷◌, ◌++◌, map, Option, none, some,
}
use retrosampler.Prelude.{
  length, get_or, set_at, get_or-set_at, length-set_at, replicate, length-replicate,
  get_or-replicate, count, count-set_at, All,
}
use retrosampler.Buffer.Index.Defs.{Loc, no_loc, unlinked, read}

abbrev pub loc_at : List Loc → ℕ → Loc
loc_at a i = get_or no_loc a i

-- From `o` on, the chain is at the indices of the list, in order.
abbrev pub IsChain : List Loc → Option ℕ → List ℕ → Type 0
IsChain a o [] = o ≡ none
IsChain a o (i ∷ l) = (o ≡ some i) × (i < length a) × IsChain a (loc_at a i).next l

-- No index twice.
abbrev pub Distinct : List ℕ → Type 0
Distinct [] = Unit {0}
Distinct (i ∷ l) = All (λ j. i ≢ j) l × Distinct l

abbrev pub locs : List Loc → List ℕ → List Loc
locs a l = map (λ i. unlinked (loc_at a i)) l

pub All-impl : {P Q : ℕ → Type 0} (l : List ℕ) → ((i : ℕ) → P i → Q i) → All P l → All Q l
All-impl [] h all = all
All-impl (i ∷ l) h (p, all) = (h i p, All-impl l h all)

pub All-both : (P Q : ℕ → Type 0) (l : List ℕ) → All P l → All Q l → All (λ i. P i × Q i) l
All-both P Q [] p q = tt
All-both P Q (i ∷ l) (p, ps) (q, qs) = ((p, q), All-both P Q l ps qs)

pub IsChain-within :
    (a : List Loc) (o : Option ℕ) (l : List ℕ) → IsChain a o l → All (λ i. i < length a) l
IsChain-within a o [] c = tt
IsChain-within a o (i ∷ l) (e, lt, c) = (lt, IsChain-within a (loc_at a i).next l c)

-- A chain stays where its locs do.
pub IsChain-mono :
    (a b : List Loc) (o : Option ℕ) (l : List ℕ)
    → All (λ i. (i < length b) × (loc_at b i ≡ loc_at a i)) l
    → IsChain a o l
    → IsChain b o l × (locs b l ≡ locs a l)
IsChain-mono a b o [] all c = (c, refl)
IsChain-mono a b o (i ∷ l) ((lt, same), all) (e, _, c) =
    let (rest, eq) = IsChain-mono a b (loc_at a i).next l all c in
    ((e, lt, subst (λ t. IsChain b (t.next) l) (sym same) rest), ground (arith, same, eq))

pub read-IsChain :
    (n : ℕ) (a : List Loc) (o : Option ℕ) (l : List ℕ)
    → length l ≤ n
    → IsChain a o l
    → read n a o ≡ locs a l
unfolding read
read-IsChain zero a o [] h c = refl
read-IsChain zero a o (i ∷ l) h c = absurd (omega (arith, h))
read-IsChain (suc n) a o [] h c = rw c refl
read-IsChain (suc n) a o (i ∷ l) h (e, lt, c) = rw e (
    ap (λ r. unlinked (loc_at a i) ∷ r) (read-IsChain n a (loc_at a i).next l (omega (arith, h)) c))

length-unmarked :
    (l : List ℕ) (marks : List Bool)
    → Distinct l
    → All (λ i. (i < length marks) × (get_or true marks i ≡ false)) l
    → length l ≤ count not marks
length-unmarked [] marks d all = omega arith
length-unmarked (i ∷ l) marks (apart, d) ((lt, clear), all) =
    let rest = length-unmarked l (set_at i true marks) d (both l apart all) in
    let step = count-set_at not true true marks i lt in ground (arith, rest, step, clear)
  where
    both :
        (l : List ℕ)
        → All (λ j. i ≢ j) l
        → All (λ j. (j < length marks) × (get_or true marks j ≡ false)) l
        → All
            (λ j.
              (j < length (set_at i true marks)) × (get_or true (set_at i true marks) j ≡ false))
            l
    both [] a b = tt
    both (j ∷ l) (ne, a) ((j_lt, e), b) = (
      (
        omega (arith, j_lt, length-set_at i true marks),
        ground (arith, get_or-set_at true true marks i j lt, ne, e),
      ),
      both l a b,
    )

-- A chain without a repetition is no longer than the arena.
pub length-chain : (n : ℕ) (l : List ℕ) → Distinct l → All (λ i. i < n) l → length l ≤ n
length-chain n l d all =
    let len : length (replicate n false) ≡ n = length-replicate n false in
    omega (
      arith,
      length-unmarked l (replicate n false) d
          (All-impl l (λ i lt. (omega (arith, len, lt), get_or-replicate true false n i lt)) all),
      count_not n,
    )
  where
    count_not : (n : ℕ) → count not (replicate n false) ≡ n
    count_not zero = refl
    count_not (suc n) = omega (arith, count_not n)

pub All-append_last : (P : ℕ → Type 0) (l : List ℕ) (n : ℕ) → All P l → P n → All P (l ++ (n ∷ []))
All-append_last P [] n all p = (p, tt)
All-append_last P (i ∷ l) n (q, all) p = (q, All-append_last P l n all p)

pub Distinct-append :
    (l : List ℕ) (n : ℕ) → Distinct l → All (λ i. i ≢ n) l → Distinct (l ++ (n ∷ []))
Distinct-append [] n d all = (tt, tt)
Distinct-append (i ∷ l) n (apart, d) (ne, all) =
    (All-append_last (λ j. i ≢ j) l n apart ne, Distinct-append l n d all)

pub locs-append :
    (a : List Loc) (l : List ℕ) (n : ℕ)
    → locs a (l ++ (n ∷ [])) ≡ locs a l ++ (unlinked (loc_at a n) ∷ [])
locs-append a [] n = refl
locs-append a (i ∷ l) n = ap (λ r. unlinked (loc_at a i) ∷ r) (locs-append a l n)

pub IsChain-last :
    (a : List Loc) (o : Option ℕ) (l : List ℕ) (t : ℕ)
    → IsChain a o (l ++ (t ∷ []))
    → (t < length a) × ((loc_at a t).next ≡ none)
IsChain-last a o [] t (e, lt, c) = (lt, c)
IsChain-last a o (i ∷ l) t (e, lt, c) = IsChain-last a (loc_at a i).next l t c

IsChain-none :
    (a : List Loc) (o : Option ℕ) (l : List ℕ) (t : ℕ) → IsChain a o (l ++ (t ∷ [])) → o ≢ none
IsChain-none a o [] t (e, lt, c) z = ground (arith, e, z)
IsChain-none a o (i ∷ l) t (e, lt, c) z = ground (arith, e, z)

-- A loc after the last of a chain, which is linked to it.
pub IsChain-link :
    (a b : List Loc) (o : Option ℕ) (l : List ℕ) (t n : ℕ)
    → IsChain a o (l ++ (t ∷ []))
    → All (λ i. i ≢ n) (l ++ (t ∷ []))
    → length a ≤ length b
    → ((i : ℕ) → i < length a → i ≢ t → i ≢ n → loc_at b i ≡ loc_at a i)
    → loc_at b t ≡ record (loc_at a t) { next = some n }
    → n < length b
    → (loc_at b n).next ≡ none
    → IsChain b o ((l ++ (t ∷ [])) ++ (n ∷ [])) × (locs b (l ++ (t ∷ [])) ≡ locs a (l ++ (t ∷ [])))
IsChain-link a b o [] t n (e, lt, c) fresh len same linked n_lt last = (
  (e, omega (arith, lt, len), (ap (λ v. v.next) linked, n_lt, last)),
  ap (λ v. unlinked v ∷ []) linked,
)
IsChain-link a b o (i ∷ l) t n (e, lt, c) (new, fresh) len same linked n_lt last =
    let apart : i ≢ t = λ eq.
      IsChain-none a (loc_at a i).next l t c
        (ap (λ j. (loc_at a j).next) eq ∙ (IsChain-last a (loc_at a i).next l t c).1) in
    let (rest, eq) = IsChain-link a b (loc_at a i).next l t n c fresh len same linked n_lt last in
    (
      (
        e,
        omega (arith, lt, len),
        subst (λ v. IsChain b (v.next) ((l ++ (t ∷ [])) ++ (n ∷ []))) (sym (same i lt apart new))
            rest,
      ),
      ground (arith, same i lt apart new, eq),
    )
