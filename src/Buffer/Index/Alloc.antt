-- ===== src/Buffer/Index/Alloc.antt =====
-- internal/buffer/index.go: the loc that alloc gives is no trace's.
use mathlib.Core.Path.{subst}
use retrosampler.Prelude.{
  ℕ, ◌+◌, ◌-◌, ◌^◌, ◌≤◌, ◌<◌, ◌≡◌, ◌≢◌, refl, sym, ap, ◌∙◌, arith, List, [], ◌∷◌, ◌++◌, Option,
  none, some,
}
use retrosampler.Prelude.{
  Option-cases, inl, inr, length, length-append, set_at, get_or-set_at, length-set_at,
  get_or-append_lt, get_or-append_length, All,
}
use retrosampler.Prelude.Bytes.{Bytes}
use retrosampler.Buffer.Index.Defs.{Loc, Index, no_loc, unlinked, arena_idx, alloc_at, alloc}
use retrosampler.Buffer.Index.Links.{
  loc_at, IsChain, Distinct, All-impl, IsChain-within, IsChain-mono,
}
use retrosampler.Buffer.Index.Invariant.{IsFree, IsIndex}

-- A free list stays where its locs do.
pub IsFree-mono :
    (a b : List Loc) (own own' : ℕ → Option Bytes) (free : Option ℕ) (n : ℕ)
    (f : IsFree a own free n)
    → All (λ i. ((i < length b) × (loc_at b i ≡ loc_at a i)) × (own' i ≡ none)) f.nodes
    → IsFree b own' free n
IsFree-mono a b own own' free n f all = record {
  nodes = f.nodes;
  chain =
      (IsChain-mono a b free f.nodes
        (All-impl f.nodes
          (λ i (p : ((i < length b) × (loc_at b i ≡ loc_at a i)) × (own' i ≡ none)). p.0) all)
        f.chain).0;
  unowned =
      All-impl f.nodes
        (λ i (p : ((i < length b) × (loc_at b i ≡ loc_at a i)) × (own' i ≡ none)). p.1) all;
  distinct = f.distinct;
  number = f.number;
}

pub record IsFresh (x : Index) (own : ℕ → Option Bytes) (l : Loc) (n : ℕ) (z : Index) : Type 0 where
  pub grows : length x.arena ≤ length z.arena
  pub by_one : length z.arena ≤ length x.arena + 1
  pub below : n < length z.arena
  pub here : loc_at z.arena n ≡ unlinked l
  pub there : (i : ℕ) → i < length x.arena → i ≢ n → loc_at z.arena i ≡ loc_at x.arena i
  pub unowned : own n ≡ none
  pub frees : IsFree z.arena own z.free z.free_len
  pub apart : All (λ i. i ≢ n) frees.nodes
  pub lives : z.live_count ≡ x.live_count

pub away :
    (a : List Loc) (own : ℕ → Option Bytes) (i : ℕ) (v : Loc) (l : List ℕ)
    → i < length a
    → All (λ j. i ≢ j) l
    → All (λ j. j < length a) l
    → All (λ j. (j < length (set_at i v a)) × (loc_at (set_at i v a) j ≡ loc_at a j)) l
away a own i v [] lt ne all = tt
away a own i v (j ∷ l) lt (ne, nes) (j_lt, all) = (
  (omega (arith, j_lt, length-set_at i v a), ground (arith, get_or-set_at no_loc v a i j lt, ne)),
  away a own i v l lt nes all,
)

flip : (i : ℕ) (l : List ℕ) → All (λ j. i ≢ j) l → All (λ j. j ≢ i) l
flip i l all = All-impl l (λ j ne e. ne (sym e)) all

pop-IsFree :
    (a : List Loc) (own : ℕ → Option Bytes) (i n : ℕ) (v : Loc) (l : List ℕ)
    → IsChain a (some i) l
    → All (λ j. own j ≡ none) l
    → Distinct l
    → length l ≡ n
    → (i < length a)
      × (own i ≡ none)
      × ((f : IsFree (set_at i v a) own (loc_at a i).next (n - 1)) × All (λ j. j ≢ i) f.nodes)
pop-IsFree a own i n v [] c u d e = cc
pop-IsFree a own i n v (j ∷ l) (same, lt, c) (u, us) (ne, d) e =
    let ij : i ≡ j = ground (arith, same) in
    let lt_i : i < length a = omega (arith, lt, ij) in
    let c_i : IsChain a (loc_at a i).next l =
      subst (λ k. IsChain a (loc_at a k).next l) (sym ij) c in
    let ne_i : All (λ k. i ≢ k) l = subst (λ m. All (λ k. m ≢ k) l) (sym ij) ne in
    let (chain, _) =
      IsChain-mono a (set_at i v a) (loc_at a i).next l
        (away a own i v l lt_i ne_i (IsChain-within a (loc_at a i).next l c_i)) c_i in
    (
      lt_i,
      ap own ij ∙ u,
      (
        record { nodes = l; chain = chain; unowned = us; distinct = d; number = omega (arith, e) },
        flip i l ne_i,
      ),
    )

no_nodes : (a : List Loc) (l : List ℕ) → IsChain a none l → l ≡ []
no_nodes a [] c = refl
no_nodes a (i ∷ l) (e, lt, c) = cc

alloc_at-IsFresh :
    (o : Option ℕ) (x : Index) (t : IsIndex x) (l : Loc)
    → x.free ≡ o
    → length x.arena < 2 ^ 31
    → IsFresh x t.own l (alloc_at o x l).0 (alloc_at o x l).1
unfolding alloc_at arena_idx
alloc_at-IsFresh none x t l e small =
    let n = length x.arena in
    let grown = x.arena ++ (unlinked l ∷ []) in
    let len : length grown ≡ n + 1 = length-append x.arena (unlinked l ∷ []) in
    let f = t.frees in
    let empty : f.nodes ≡ [] =
      no_nodes x.arena f.nodes (subst (λ o. IsChain x.arena o f.nodes) e f.chain) in
    let idx : arena_idx n ≡ n = ground (arith, small) in
    let unowned : t.own n ≡ none = elim (Option-cases (t.own n)) [
      | inl free ↦ free
      | inr (k, taken) ↦ absurd (omega (arith, t.within n k taken))
    ] in
    subst (λ m. IsFresh x t.own l m (record x { arena = grown })) (sym idx)
      (record {
        grows = omega (arith, len);
        by_one = omega (arith, len);
        below = omega (arith, len);
        here = get_or-append_length no_loc (unlinked l) x.arena;
        there = λ i lt ne. get_or-append_lt no_loc x.arena (unlinked l ∷ []) i lt;
        unowned = unowned;
        frees = record {
          nodes = [];
          chain = e;
          unowned = tt;
          distinct = tt;
          number = ap length (sym empty) ∙ f.number;
        };
        apart = tt;
        lives = refl;
      })
alloc_at-IsFresh (some i) x t l e small =
    let f = t.frees in
    let (lt, u, (f', ne)) =
      pop-IsFree x.arena t.own i x.free_len (unlinked l) f.nodes
        (subst (λ o. IsChain x.arena o f.nodes) e f.chain) f.unowned f.distinct f.number in
    let len = length-set_at i (unlinked l) x.arena in
    record {
      grows = omega (arith, len);
      by_one = omega (arith, len);
      below = omega (arith, len, lt);
      here = ground (arith, get_or-set_at no_loc (unlinked l) x.arena i i lt);
      there =
          λ j j_lt apart. ground (arith, get_or-set_at no_loc (unlinked l) x.arena i j lt, apart);
      unowned = u;
      frees = f';
      apart = ne;
      lives = refl;
    }

-- Of a well-formed index below its limit, alloc takes a loc that no trace has, off the free list.
pub alloc-IsFresh :
    (x : Index) (t : IsIndex x) (l : Loc)
    → length x.arena < 2 ^ 31
    → IsFresh x t.own l (alloc x l).0 (alloc x l).1
unfolding alloc
alloc-IsFresh x t l small = alloc_at-IsFresh x.free x t l refl small
