-- ===== src/Buffer/Index/Linked.antt =====
-- internal/buffer/index.go: the chain of a trace, once a fresh loc is linked to its last.
use native.Mathlib.Decide.{ℕ_discrete}
use retrosampler.Prelude.{
  ℕ, ◌≤◌, ◌<◌, ◌≡◌, ◌≢◌, refl, sym, ap, ◌∙◌, arith, List, [], ◌∷◌, ◌++◌, Option, none, some,
}
use retrosampler.Prelude.{◌==◌, if◌then◌else◌, length, get_or-set_at, length-set_at, All}
use retrosampler.Prelude.Bytes.{Bytes}
use retrosampler.Buffer.Index.Defs.{Loc, ref_of, Slot, Index, no_loc, idx_of, set_next, unlinked}
use retrosampler.Buffer.Index.Links.{
  locs, loc_at, All-impl, All-append_last, Distinct-append, locs-append, IsChain-last, IsChain-link,
  IsChain-within, All-both,
}
use retrosampler.Buffer.Index.Invariant.{IsFree, IsRun}
use retrosampler.Buffer.Index.Alloc.{IsFree-mono, IsFresh}

abbrev pub taken : (ℕ → Option Bytes) → ℕ → Bytes → ℕ → Option Bytes
taken own n id i = if i == n then some id else own i

pub taken-same : (own : ℕ → Option Bytes) (n : ℕ) (id : Bytes) → taken own n id n ≡ some id
taken-same own n id = ground arith

pub taken-other :
    (own : ℕ → Option Bytes) (n : ℕ) (id : Bytes) (i : ℕ) → i ≢ n → taken own n id i ≡ own i
taken-other own n id i ne = ground (arith, ne)

last_owned : (P : ℕ → Type 0) (l : List ℕ) (n : ℕ) → All P (l ++ (n ∷ [])) → P n
last_owned P [] n (p, _) = p
last_owned P (i ∷ l) n (_, all) = last_owned P l n all

pub within_taken :
    (a b : List Loc) (own : ℕ → Option Bytes) (n : ℕ) (id : Bytes)
    → ((i : ℕ) (k : Bytes) → own i ≡ some k → i < length a)
    → length a ≤ length b
    → n < length b
    → (i : ℕ) (k : Bytes) → taken own n id i ≡ some k
    → i < length b
within_taken a b own n id h le lt i k e = elim (ℕ_discrete i n) [
  | yes here ↦ omega (arith, here, lt)
  | no apart ↦ omega (arith, le, h i k (sym (taken-other own n id i apart) ∙ e))
]

-- The free list that alloc leaves, once its loc is a trace's.
pub taken-IsFree :
    (x : Index) (own : ℕ → Option Bytes) (l : Loc) (n : ℕ) (z : Index) (f : IsFresh x own l n z)
    (b : List Loc) (id : Bytes)
    → length b ≡ length z.arena
    → ((i : ℕ) → own i ≡ none → loc_at b i ≡ loc_at z.arena i)
    → IsFree b (taken own n id) z.free z.free_len
taken-IsFree x own l n z f b id len same =
    IsFree-mono z.arena b own (taken own n id) z.free z.free_len f.frees (
      All-impl f.frees.nodes
        (λ i (q : (i < length z.arena) × ((i ≢ n) × (own i ≡ none))).
          ((omega (arith, q.0, len), same i q.1.1), taken-other own n id i q.1.0 ∙ q.1.1))
        (All-both (λ i. i < length z.arena) (λ i. (i ≢ n) × (own i ≡ none)) f.frees.nodes
          (IsChain-within z.arena z.free f.frees.nodes f.frees.chain)
          (All-both (λ i. i ≢ n) (λ i. own i ≡ none) f.frees.nodes f.apart f.frees.unowned)))

module _ (x : Index) (own : ℕ → Option Bytes) (id : Bytes) (l : Loc) (s : Slot)
    (r : IsRun x.arena own id s) (n : ℕ) (z : Index) (f : IsFresh x own l n z) where
  abbrev pub linked : List Loc
  linked = set_next r.last (some n) z.arena

  pub last_owner : own r.last ≡ some id
  last_owner = last_owned (λ i. own i ≡ some id) r.before r.last r.owned

  last_lt : r.last < length x.arena
  last_lt = (IsChain-last x.arena (idx_of s.head) r.before r.last r.chain).0

  last_fresh : r.last ≢ n
  last_fresh e = ground (arith, ap own e, last_owner, f.unowned)

  pub length-linked : length linked ≡ length z.arena
  length-linked = length-set_at r.last _ z.arena

  linked_at :
      (i : ℕ)
      → loc_at linked i ≡ (
          if r.last == i
          then record (loc_at z.arena r.last) { next = some n }
          else loc_at z.arena i)
  linked_at i = get_or-set_at no_loc _ z.arena r.last i (omega (arith, last_lt, f.grows))

  pub linked_off : (i : ℕ) → i ≢ r.last → loc_at linked i ≡ loc_at z.arena i
  linked_off i ne = ground (arith, linked_at i, ne)

  pub linked_other :
      (i : ℕ) → i < length x.arena → i ≢ r.last → i ≢ n → loc_at linked i ≡ loc_at x.arena i
  linked_other i lt ne ne_n = linked_off i ne ∙ f.there i lt ne_n

  pub linked_new : loc_at linked n ≡ unlinked l
  linked_new = linked_off n (λ e. last_fresh (sym e)) ∙ f.here

  linked_last : loc_at linked r.last ≡ record (loc_at x.arena r.last) { next = some n }
  linked_last =
      ground (arith, linked_at r.last)
      ∙ ap (λ (q : Loc). record q { next = some n }) (f.there r.last last_lt last_fresh)

  -- The trace has its chain, one loc longer.
  pub linked-IsRun :
      (run : IsRun linked (taken own n id) id (record s { tail = ref_of n })) × (locs linked
          (run.before ++ (run.last ∷ []))
        ≡ locs x.arena (r.before ++ (r.last ∷ [])) ++ (unlinked l ∷ []))
  linked-IsRun =
      let l' = r.before ++ (r.last ∷ []) in
      let fresh : All (λ i. i ≢ n) l' =
        All-impl l' (λ i (q : own i ≡ some id) e. ground (arith, ap own e, q, f.unowned)) r.owned in
      let (chain, same) =
        IsChain-link x.arena linked (idx_of s.head) r.before r.last n r.chain fresh
          (omega (arith, length-linked, f.grows)) linked_other linked_last
          (omega (arith, length-linked, f.below)) (ap (λ (q : Loc). q.next) linked_new) in
      (
        record {
          before = l';
          last = n;
          chain = chain;
          ends = refl;
          owned =
              All-append_last (λ i. taken own n id i ≡ some id) l' n
                (All-impl l'
                  (λ i (q : (i ≢ n) × (own i ≡ some id)). taken-other own n id i q.0 ∙ q.1)
                  (All-both (λ i. i ≢ n) (λ i. own i ≡ some id) l' fresh r.owned))
                (taken-same own n id);
          distinct = Distinct-append l' n r.distinct fresh;
        },
        locs-append linked l' n
            ∙ ap (λ q. q ++ (unlinked (loc_at linked n) ∷ [])) same
            ∙ ap (λ q. locs x.arena l' ++ (unlinked q ∷ [])) linked_new,
      )
