-- ===== src/Buffer/Index/Packed.antt =====
-- internal/buffer/index.go: one slot of compact's loop.
use mathlib.Core.Path.{subst}
use native.Mathlib.Decide.{dec_lt}
use retrosampler.Prelude.{
  ℕ, suc, ◌+◌, ◌^◌, ◌≤◌, ◌<◌, ◌≡◌, ◌≢◌, refl, sym, ap, ◌∙◌, arith, List, [], ◌∷◌, ◌++◌, map, Option,
  none, some,
}
use retrosampler.Prelude.{
  ltb, if◌then◌else◌, length, length-append, get_or-append_lt, All, All-append,
}
use retrosampler.Prelude.Bytes.{Bytes}
use retrosampler.Probing.Search.{full}
use retrosampler.Probing.Table.{full-injective}
use retrosampler.Buffer.Index.Defs.{
  Loc, Ref, nowhere, buried, ref_of, Slot, no_loc, slot_view, idx_of, unlinked,
}
use retrosampler.Buffer.Index.Reclaim.{to_ref, compact_slot}
use retrosampler.Buffer.Index.Links.{
  loc_at, IsChain, Distinct, locs, All-impl, IsChain-within, length-chain,
}
use retrosampler.Buffer.Index.Invariant.{IsRun, stored, stored-IsRun}
use retrosampler.Buffer.Index.Copy.{
  up, row, length-row, copy_chain-row, row-IsRow, IsRow, All-up, Distinct-up,
}

-- The new arena `b` has a loc for each index of `visited`, and is owned as `own` says.
pub record IsPart (a b : List Loc) (own : ℕ → Option Bytes) (visited : List ℕ) : Type 0 where
  pub within : (i : ℕ) (k : Bytes) → own i ≡ some k → i < length b
  pub distinct : Distinct visited
  pub inside : All (λ i. i < length a) visited
  pub number : length visited ≡ length b

abbrev pub Extends : List Loc → (ℕ → Option Bytes) → List Loc → (ℕ → Option Bytes) → Type 0
Extends b own b' own' =
    (length b ≤ length b')
    × ((i : ℕ) → i < length b → (loc_at b' i ≡ loc_at b i) × (own' i ≡ own i))

-- What compact gives for a slot `s`: the slot `s'` and the new arena `b'`.
pub record IsPacked (a : List Loc) (from : ℕ → Option Bytes) (b : List Loc) (own : ℕ → Option Bytes)
    (visited : List ℕ) (s s' : Slot) (b' : List Loc) : Type 0 where
  pub own' : ℕ → Option Bytes
  pub visited' : List ℕ
  pub part : IsPart a b' own' visited'
  pub extends : Extends b own b' own'
  pub same : slot_view s' ≡ slot_view s
  pub run :
      (k : Bytes)
      → slot_view s ≡ full k
      → IsRun b' own' k s' × (stored b' (some s') ≡ stored a (some s))
  pub spared :
      (k : Bytes)
      → slot_view s ≢ full k
      → All (λ i. from i ≢ some k) visited
      → All (λ i. from i ≢ some k) visited'

Distinct-both :
    (l m : List ℕ) → Distinct l → Distinct m → All (λ i. All (λ j. i ≢ j) m) l → Distinct (l ++ m)
Distinct-both [] m dl dm apart = dm
Distinct-both (i ∷ l) m (ne, dl) dm (apart_i, apart) =
    (All-append (λ j. i ≢ j) l m ne apart_i, Distinct-both l m dl dm apart)

first_node :
    (a : List Loc) (i : ℕ) (l : List ℕ) → IsChain a (some i) l → (rest : List ℕ) × (l ≡ i ∷ rest)
first_node a i [] c = cc
first_node a i (j ∷ rest) (e, lt, c) = (rest, ap (λ k. k ∷ rest) (ground (arith, e)))

length-locs : (a : List Loc) (l : List ℕ) → length (locs a l) ≡ length l
length-locs a [] = refl
length-locs a (i ∷ l) = ap suc (length-locs a l)

unlinked-locs : (a : List Loc) (l : List ℕ) → map unlinked (locs a l) ≡ locs a l
unlinked-locs a [] = refl
unlinked-locs a (i ∷ l) = ap (λ q. unlinked (loc_at a i) ∷ q) (unlinked-locs a l)

-- The owners, once `n` locs of a trace are added after `size` locs.
abbrev adds_owner : (ℕ → Option Bytes) → ℕ → ℕ → Bytes → ℕ → Option Bytes
adds_owner own size n k i = if ltb i size then own i else if ltb i (size + n) then some k else none

module _ (a : List Loc) (from : ℕ → Option Bytes) (b : List Loc) (own : ℕ → Option Bytes)
    (visited : List ℕ) (part : IsPart a b own visited) where
  IsPacked-skip :
      (s : Slot) → ((k : Bytes) → slot_view s ≢ full k) → IsPacked a from b own visited s s b
  IsPacked-skip s idle = record {
    own' = own;
    visited' = visited;
    part = part;
    extends = (omega arith, λ i lt. (refl, refl));
    same = refl;
    run = λ k v. absurd (idle k v);
    spared = λ k ne all. all;
  }

  -- A trace of the key `k` whose chain is `i` and then `l`, and its copy behind `b`.
  module _ (s : Slot) (k : Bytes) (i : ℕ) (l : List ℕ) (r : IsRun a from k s)
      (nodes : r.before ++ (r.last ∷ []) ≡ i ∷ l) where
    abbrev moved : Slot
    moved = record s { head = ref_of (length b); tail = ref_of (length b + length l) }

    abbrev copy : List Loc
    copy = b ++ row (length b) (loc_at a i) (locs a l)

    abbrev owners : ℕ → Option Bytes
    owners = adds_owner own (length b) (suc (length l)) k

    length-copy : length copy ≡ length b + suc (length l)
    length-copy =
        length-append b _
        ∙ omega (arith, length-row (length b) (loc_at a i) (locs a l), length-locs a l)

    nodes_own : All (λ j. from j ≡ some k) (i ∷ l)
    nodes_own = subst (λ q. All (λ j. from j ≡ some k) q) nodes r.owned

    copy-IsRow : IsRow copy (length b) (length l) (length b + length l) (loc_at a i) (locs a l)
    copy-IsRow =
        subst (λ n. IsRow copy (length b) n (length b + n) (loc_at a i) (locs a l))
          (length-locs a l) (row-IsRow (locs a l) b (loc_at a i))

    copy-IsRun : IsRun copy owners k moved
    copy-IsRun = record {
      before = up (length b) (length l);
      last = length b + length l;
      chain = (copy-IsRow).0;
      ends = refl;
      owned =
          All-up (λ j. owners j ≡ some k) (length l) (length b) (λ j lo hi. ground (arith, lo, hi));
      distinct = Distinct-up (length l) (length b);
    }

    -- With the chain that the run gives, which is that of the row.
    copied_locs :
        locs copy ((copy-IsRun).before ++ ((copy-IsRun).last ∷ []))
        ≡ unlinked (loc_at a i) ∷ map unlinked (locs a l)
    unfolding copy-IsRun
    copied_locs = (copy-IsRow).1

    copy-stored : stored copy (some moved) ≡ stored a (some s)
    copy-stored =
        stored-IsRun copy owners k moved copy-IsRun
        ∙ copied_locs
        ∙ ap (λ q. unlinked (loc_at a i) ∷ q) (unlinked-locs a l)
        ∙ ap (locs a) (sym nodes)
        ∙ sym (stored-IsRun a from k s r)

    copy-IsPart : All (λ j. from j ≢ some k) visited → IsPart a copy owners ((i ∷ l) ++ visited)
    copy-IsPart away = record {
      within = λ j m mine. elim (dec_lt j (length copy)) [
        | yes lt ↦ lt
        | no over ↦ ground (arith, mine, over, length-copy)
      ];
      distinct = Distinct-both (i ∷ l) visited (subst Distinct nodes r.distinct) part.distinct (
          All-impl (i ∷ l)
            (λ j (mine : from j ≡ some k).
              All-impl visited (λ m (other : from m ≢ some k) q. other (ap from (sym q) ∙ mine))
                away)
            nodes_own);
      inside =
          All-append (λ j. j < length a) (i ∷ l) visited
            (subst (All (λ j. j < length a)) nodes (IsChain-within a (idx_of s.head) _ r.chain))
            part.inside;
      number = omega (arith, length-append (i ∷ l) visited, part.number, length-copy);
    }

  IsPacked-row :
      (s : Slot) (k : Bytes) (i : ℕ) (l : List ℕ) (r : IsRun a from k s)
      → s.head ≡ ref_of i
      → slot_view s ≡ full k
      → (nodes : r.before ++ (r.last ∷ []) ≡ i ∷ l) → All (λ j. from j ≢ some k) visited
      → IsPacked a from b own visited s (moved s k i l r nodes) (copy s k i l r nodes)
  IsPacked-row s k i l r e v nodes away = record {
    own' = owners s k i l r nodes;
    visited' = (i ∷ l) ++ visited;
    part = copy-IsPart s k i l r nodes away;
    extends = (
      omega (arith, length-copy s k i l r nodes),
      λ j lt. (
        get_or-append_lt no_loc b (row (length b) (loc_at a i) (locs a l)) j lt,
        ground (arith, lt),
      ),
    );
    same = ground (arith, e);
    run = λ m u.
        let km : k ≡ m = full-injective k m (sym v ∙ u) in
        (
          subst
              (λ q. IsRun (copy s k i l r nodes) (owners s k i l r nodes) q (moved s k i l r nodes))
              km (copy-IsRun s k i l r nodes),
          copy-stored s k i l r nodes,
        );
    spared = λ m ne all.
        All-append (λ j. from j ≢ some m) (i ∷ l) visited
          (All-impl (i ∷ l)
            (λ j (mine : from j ≡ some k) q. ne (v ∙ ap full (ground (arith, sym mine ∙ q))))
            (nodes_own s k i l r nodes))
          all;
  }

  -- One round of the loop, over a slot whose trace has its chain.
  pub compact_slot-IsPacked :
      (h : Ref) (s : Slot)
      → s.head ≡ h
      → length a ≤ 2 ^ 31
      → ((k : Bytes) → slot_view s ≡ full k → IsRun a from k s × All (λ i. from i ≢ some k) visited)
      → IsPacked a from b own visited s (compact_slot h a s b).0 (compact_slot h a s b).1
  unfolding compact_slot
  compact_slot-IsPacked nowhere s e small runs = IsPacked-skip s (λ k v. ground (arith, e, v))
  compact_slot-IsPacked buried s e small runs = IsPacked-skip s (λ k v. ground (arith, e, v))
  compact_slot-IsPacked (ref_of i) s e small runs =
      let v : slot_view s ≡ full s.id = ground (arith, e) in
      let (r, away) = runs s.id v in
      let nodes = r.before ++ (r.last ∷ []) in
      let (l, split) = first_node a i nodes (subst (λ q. IsChain a (idx_of q) nodes) e r.chain) in
      let packed = IsPacked-row s s.id i l r e v split away in
      let fits = length-chain (length a) packed.visited' packed.part.distinct packed.part.inside in
      let chain =
        subst (IsChain a (some i)) split (subst (λ q. IsChain a (idx_of q) nodes) e r.chain) in
      let short =
        length-chain (length a) (i ∷ l) (subst Distinct split r.distinct)
          (IsChain-within a (some i) (i ∷ l) chain) in
      let len = length-append b (row (length b) (loc_at a i) (locs a l)) in
      let copied = copy_chain-row l (length a) a i b chain short (
        omega (
          arith,
          fits,
          packed.part.number,
          len,
          length-row (length b) (loc_at a i) (locs a l),
          length-locs a l,
          small,
        )) in
      subst
        (λ (q : List Loc × (Option ℕ × Option ℕ)).
          IsPacked a from b own visited s (record s { head = to_ref q.1.0; tail = to_ref q.1.1 })
            q.0)
        (sym copied) packed
