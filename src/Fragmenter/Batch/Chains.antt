-- ===== src/Fragmenter/Batch/Chains.antt =====
-- internal/fragmenter/fragmenter.go: the chain of refs of a trace.
use retrosampler.Prelude.{
  ℕ, zero, suc, ◌<◌, ◌≤◌, ◌≡◌, refl, ap, ◌∙◌, arith, List, [], ◌∷◌, ◌++◌, map, Option, none, some,
}
use retrosampler.Prelude.{
  Bool-cases, inl, inr, ◌==◌, if◌then◌else◌, length, get_or-set_at, get_or-append_lt, bytes_eq,
}
use retrosampler.Prelude.Bytes.{Bytes}
use retrosampler.Fragmenter.Group.{SpanRef}
use retrosampler.Fragmenter.Batch.Defs.{no_ref, ref_at, set_next, flatten}

-- The indices of `id` in a list of ids, in order.
unfoldable pub positions : Bytes → List Bytes → List ℕ
positions id [] = []
positions id (x ∷ xs) =
    let rest = map suc (positions id xs) in if bytes_eq x id then 0 ∷ rest else rest

length-map_suc : (ps : List ℕ) → length (map suc ps) ≡ length ps
length-map_suc [] = refl
length-map_suc (p ∷ ps) = ap suc (length-map_suc ps)

map-append_suc : (ps qs : List ℕ) → map suc (ps ++ qs) ≡ map suc ps ++ map suc qs
map-append_suc [] qs = refl
map-append_suc (p ∷ ps) qs = ap (λ r. suc p ∷ r) (map-append_suc ps qs)

pub length-positions : (id : Bytes) (xs : List Bytes) → length (positions id xs) ≤ length xs
unfolding positions
length-positions id [] = omega arith
length-positions id (x ∷ xs) =
    ground (arith, length-positions id xs, length-map_suc (positions id xs))

-- One more id adds its index at the end, or nothing.
pub positions-append :
    (id : Bytes) (xs : List Bytes) (y : Bytes)
    → positions id (xs ++ (y ∷ []))
      ≡ positions id xs ++ (if bytes_eq y id then length xs ∷ [] else [])
unfolding positions
positions-append id [] y = ground arith
positions-append id (x ∷ xs) y = elim (Bool-cases (bytes_eq y id)) [
  | inl here ↦
      ground
        (arith, here, positions-append id xs y, map-append_suc (positions id xs) (length xs ∷ []))
  | inr other ↦ ground (arith, other, positions-append id xs y, map-append_suc (positions id xs) [])
]

abbrev pub next_at : List SpanRef → ℕ → Option ℕ
next_at refs i = (ref_at refs i).next

-- From ref `i`, the links lead over `js` to ref `t`.
pub data Chain (refs : List SpanRef) : ℕ → List ℕ → ℕ → Type 0 where
  last : (i : ℕ) → Chain refs i [] i
  link :
      {j t : ℕ} {js : List ℕ} (i : ℕ)
      → next_at refs i ≡ some j
      → Chain refs j js t
      → Chain refs i (j ∷ js) t

-- A chain stays where the links that are set stay.
pub Chain-mono :
    {refs refs' : List SpanRef} {i t : ℕ} {js : List ℕ}
    → ((k j : ℕ) → next_at refs k ≡ some j → next_at refs' k ≡ some j)
    → Chain refs i js t
    → Chain refs' i js t
Chain-mono h (last i) = last i
Chain-mono h (link i e c) = link i (h i _ e) (Chain-mono h c)

-- One more link at the end.
pub Chain-append :
    {refs : List SpanRef} {i t : ℕ} {js : List ℕ} (r : ℕ)
    → Chain refs i js t
    → next_at refs t ≡ some r
    → Chain refs i (js ++ (r ∷ [])) r
Chain-append r (last i) e = link i e (last r)
Chain-append r (link i e c) f = link i e (Chain-append r c f)

-- The walk over a chain gives its refs, when its fuel is enough.
pub flatten-Chain :
    {refs : List SpanRef} {i t : ℕ} {js : List ℕ} (fuel : ℕ)
    → Chain refs i js t
    → next_at refs t ≡ none
    → length js < fuel
    → flatten fuel refs (some i) ≡ map (ref_at refs) (i ∷ js)
unfolding flatten
flatten-Chain zero c e lt = absurd (omega (arith, lt))
flatten-Chain {refs} (suc zero) (last i) e lt = ap (λ o. ref_at refs i ∷ flatten zero refs o) e
flatten-Chain {refs} (suc (suc fuel)) (last i) e lt =
    ap (λ o. ref_at refs i ∷ flatten (suc fuel) refs o) e
flatten-Chain {refs} (suc fuel) (link i f c) e lt =
    ap (λ o. ref_at refs i ∷ flatten fuel refs o) f
    ∙ ap (λ r. ref_at refs i ∷ r) (flatten-Chain fuel c e (omega (arith, lt)))

-- A link that is set is that of a ref in the arena.
next_at_lt : (refs : List SpanRef) (i j : ℕ) → next_at refs i ≡ some j → i < length refs
next_at_lt [] i j e = cc
next_at_lt (x ∷ refs) zero j e = omega arith
next_at_lt (x ∷ refs) (suc i) j e = omega (arith, next_at_lt refs i j e)

-- A new ref at the end sets no link and keeps those that are set.
pub next_at-append :
    (refs : List SpanRef) (x : SpanRef) (i j : ℕ)
    → next_at refs i ≡ some j
    → next_at (refs ++ (x ∷ [])) i ≡ some j
next_at-append refs x i j e =
    ap (λ r. r.next) (get_or-append_lt no_ref refs (x ∷ []) i (next_at_lt refs i j e)) ∙ e

pub next_at-set :
    (refs : List SpanRef) (t r i : ℕ)
    → t < length refs
    → next_at (set_next t r refs) i ≡ (if t == i then some r else next_at refs i)
unfolding set_next
next_at-set refs t r i lt = ground (
  arith,
  ap (λ x. x.next) (get_or-set_at no_ref (record (ref_at refs t) { next = some r }) refs t i lt),
)
