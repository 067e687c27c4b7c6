-- ===== src/Buffer/Index/Copy.antt =====
-- internal/buffer/index.go: the copy of one chain that compact makes.
use mathlib.Core.Path.{subst}
use retrosampler.Prelude.{
  ℕ, zero, suc, ◌+◌, ◌^◌, ◌≤◌, ◌≡◌, ◌≢◌, refl, sym, ap, ◌∙◌, arith, List, [], ◌∷◌, ◌++◌, map,
  append_assoc, Option, none, some,
}
use retrosampler.Prelude.{length, length-append, All}
use retrosampler.Buffer.Index.Defs.{Loc, unlinked, arena_idx, set_next}
use retrosampler.Buffer.Index.Reclaim.{copy_chain}
use retrosampler.Buffer.Index.Links.{loc_at, IsChain, Distinct, locs}

-- The indices from `i` on, `n` of them.
abbrev pub up : ℕ → ℕ → List ℕ
up i zero = []
up i (suc n) = i ∷ up (i + 1) n

-- Locs in a row, from index `i` on, each linked to the next.
abbrev pub row : ℕ → Loc → List Loc → List Loc
row i u [] = unlinked u ∷ []
row i u (v ∷ rest) = record u { next = some (i + 1) } ∷ row (i + 1) v rest

row-unlinked : (i : ℕ) (u : Loc) (rest : List Loc) → row i u rest ≡ row i (unlinked u) rest
row-unlinked i u [] = refl
row-unlinked i u (v ∷ rest) = refl

pub length-row : (i : ℕ) (u : Loc) (rest : List Loc) → length (row i u rest) ≡ suc (length rest)
length-row i u [] = refl
length-row i u (v ∷ rest) = ap suc (length-row (i + 1) v rest)

set_next-end :
    (c : List Loc) (u v : Loc) (n : Option ℕ)
    → set_next (length c) n ((c ++ (u ∷ [])) ++ (v ∷ []))
      ≡ (c ++ (record u { next = n } ∷ [])) ++ (v ∷ [])
set_next-end [] u v n = refl
set_next-end (x ∷ c) u v n = ap (λ r. x ∷ r) (set_next-end c u v n)

length-snoc : (c : List Loc) (u : Loc) → length (c ++ (u ∷ [])) ≡ length c + 1
length-snoc c u = length-append c (u ∷ [])

-- The loop, once it has copied the loc `u` to the end of `c`.
copy_chain-rest :
    (l : List ℕ) (n : ℕ) (a : List Loc) (o : Option ℕ) (c : List Loc) (u : Loc) (first : Option ℕ)
    → IsChain a o l
    → length l ≤ n
    → length c + 1 + length l ≤ 2 ^ 31
    → copy_chain n a o (c ++ (unlinked u ∷ [])) first (some (length c))
      ≡ (c ++ row (length c) u (locs a l), (first, some (length c + length l)))
unfolding copy_chain arena_idx
copy_chain-rest [] zero a o c u first e h small = ground (arith)
copy_chain-rest [] (suc n) a o c u first e h small = rw e (ground (arith))
copy_chain-rest (i ∷ l) zero a o c u first e h small = absurd (omega (arith, h))
copy_chain-rest (i ∷ l) (suc n) a o c u first (e, lt, k) h small =
    let v = loc_at a i in
    let c' = c ++ (record u { next = some (length c + 1) } ∷ []) in
    let len : length (c ++ (unlinked u ∷ [])) ≡ length c + 1 = length-snoc c (unlinked u) in
    let len' : length c' ≡ length c + 1 = length-snoc c _ in
    let idx : arena_idx (length (c ++ (unlinked u ∷ []))) ≡ length c + 1 =
      ground (arith, len, small) in
    let rest =
      copy_chain-rest l n a v.next c' v first k (omega (arith, h)) (omega (arith, small, len')) in
    rw e (
      ap
        (λ (ni : ℕ).
          copy_chain n a v.next
            (set_next (length c) (some ni) ((c ++ (unlinked u ∷ [])) ++ (unlinked v ∷ []))) first
            (some ni))
        idx
      ∙ ap (λ b. copy_chain n a v.next b first (some (length c + 1)))
          (set_next-end c (unlinked u) (unlinked v) (some (length c + 1)))
      ∙ ap (λ (p : ℕ). copy_chain n a v.next (c' ++ (unlinked v ∷ [])) first (some p)) (sym len')
      ∙ rest
      ∙ ap (λ (q : ℕ). (c' ++ row q v (locs a l), (first, some (q + length l)))) len'
      ∙ ap (λ w. (w, (first, some (length c + 1 + length l))))
          (append_assoc c (record u { next = some (length c + 1) } ∷ [])
              (row (length c + 1) v (locs a l))
            ∙ ap (λ w. c ++ (record u { next = some (length c + 1) } ∷ w))
                (row-unlinked (length c + 1) v (locs a l)))
      ∙ ap (λ (q : ℕ). (c ++ row (length c) u (locs a (i ∷ l)), (first, some q))) (omega arith))

-- The loop over a chain that starts at `i`: its locs in a row at the end of `b`.
pub copy_chain-row :
    (l : List ℕ) (n : ℕ) (a : List Loc) (i : ℕ) (b : List Loc)
    → IsChain a (some i) (i ∷ l)
    → length (i ∷ l) ≤ n
    → length b + length (i ∷ l) ≤ 2 ^ 31
    → copy_chain n a (some i) b none none
      ≡ (b ++ row (length b) (loc_at a i) (locs a l), (some (length b), some (length b + length l)))
unfolding copy_chain arena_idx
copy_chain-row l zero a i b (e, lt, k) h small = absurd (omega (arith, h))
copy_chain-row l (suc n) a i b (e, lt, k) h small =
    let idx : arena_idx (length b) ≡ length b = ground (arith, small) in
    ap
      (λ (ni : ℕ).
        copy_chain n a (loc_at a i).next (b ++ (unlinked (loc_at a i) ∷ [])) (some ni) (some ni))
      idx
    ∙ copy_chain-rest l n a (loc_at a i).next b (loc_at a i) (some (length b)) k (omega (arith, h))
        (omega (arith, small))

loc_at-middle : (c : List Loc) (x : Loc) (xs : List Loc) → loc_at (c ++ (x ∷ xs)) (length c) ≡ x
loc_at-middle [] x xs = refl
loc_at-middle (y ∷ c) x xs = loc_at-middle c x xs

-- In `w`, the indices from `i` on and then `j` are a chain, of these locs.
abbrev pub IsRow : List Loc → ℕ → ℕ → ℕ → Loc → List Loc → Type 0
IsRow w i n j u rest =
    IsChain w (some i) (up i n ++ (j ∷ []))
    × (locs w (up i n ++ (j ∷ [])) ≡ unlinked u ∷ map unlinked rest)

-- A row of locs is a chain.
pub row-IsRow :
    (rest : List Loc) (c : List Loc) (u : Loc)
    → IsRow (c ++ row (length c) u rest) (length c) (length rest) (length c + length rest) u rest
row-IsRow [] c u =
    let last : loc_at (c ++ (unlinked u ∷ [])) (length c + 0) ≡ unlinked u =
      ap (loc_at (c ++ (unlinked u ∷ []))) (omega arith) ∙ loc_at-middle c (unlinked u) [] in
    (
      (
        ap some (omega arith),
        omega (arith, length-snoc c (unlinked u)),
        ap (λ (q : Loc). q.next) last,
      ),
      ap (λ q. unlinked q ∷ []) last,
    )
row-IsRow (v ∷ rest) c u =
    let u' = record u { next = some (length c + 1) } in
    let w = c ++ (u' ∷ row (length c + 1) v rest) in
    let at_i =
      subst (λ i. IsRow ((c ++ (u' ∷ [])) ++ row i v rest) i (length rest) (i + length rest) v rest)
        (length-snoc c u') (row-IsRow rest (c ++ (u' ∷ [])) v) in
    let in_w =
      subst (λ w. IsRow w (length c + 1) (length rest) (length c + 1 + length rest) v rest)
        (append_assoc c (u' ∷ []) (row (length c + 1) v rest)) at_i in
    let last : length c + 1 + length rest ≡ length c + suc (length rest) = omega arith in
    let (chain, same) = subst (λ j. IsRow w (length c + 1) (length rest) j v rest) last in_w in
    let here = loc_at-middle c u' (row (length c + 1) v rest) in
    (
      (
        refl,
        omega (arith, length-append c (u' ∷ row (length c + 1) v rest)),
        subst
            (λ (q : Loc).
              IsChain w q.next
                (up (length c + 1) (length rest) ++ ((length c + suc (length rest)) ∷ [])))
            (sym here) chain,
      ),
      ap
            (λ q.
              unlinked q
              ∷ locs w (up (length c + 1) (length rest) ++ ((length c + suc (length rest)) ∷ [])))
            here
          ∙ ap (λ q. unlinked u ∷ q) same,
    )

pub All-up :
    (P : ℕ → Type 0) (n i : ℕ)
    → ((j : ℕ) → i ≤ j → j ≤ i + n → P j)
    → All P (up i n ++ ((i + n) ∷ []))
All-up P zero i h = (h (i + 0) (omega arith) (omega arith), tt)
All-up P (suc n) i h = (
  h i (omega arith) (omega arith),
  subst (λ j. All P (up (i + 1) n ++ (j ∷ []))) (omega arith)
      (All-up P n (i + 1) (λ j le below. h j (omega (arith, le)) (omega (arith, below)))),
)

pub Distinct-up : (n i : ℕ) → Distinct (up i n ++ ((i + n) ∷ []))
Distinct-up zero i = (tt, tt)
Distinct-up (suc n) i =
    let last : i + 1 + n ≡ i + suc n = omega arith in
    (
      subst (λ j. All (λ k. i ≢ k) (up (i + 1) n ++ (j ∷ []))) last
          (All-up (λ k. i ≢ k) n (i + 1) (λ j le below e. omega (arith, le, e))),
      subst (λ j. Distinct (up (i + 1) n ++ (j ∷ []))) last (Distinct-up n (i + 1)),
    )
