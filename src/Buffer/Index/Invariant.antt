-- ===== src/Buffer/Index/Invariant.antt =====
-- internal/buffer/index.go: when an index is well formed, and where it has the fragments of a trace.
use mathlib.Core.Path.{subst}
use retrosampler.Prelude.{
  ℕ, zero, suc, ◌<◌, ◌≡◌, refl, sym, ◌∙◌, arith, false, List, [], ◌∷◌, ◌++◌, Option, none, some,
}
use retrosampler.Prelude.{
  Bool-cases, Option-cases, inl, inr, if◌then◌else◌, length, All, bytes_eq, bytes_eq→eq,
}
use retrosampler.Prelude.Bytes.{Bytes}
use retrosampler.Probing.Table.{IsProbed, scan, count_full, find_in-held, find_in_absent}
use retrosampler.Buffer.Index.Defs.{
  Loc, ref_of, Slot, Index, empty_slot, start_at, slot_view, idx_of, find_slot, head, read, places,
}
use retrosampler.Buffer.Index.Links.{
  loc_at, IsChain, Distinct, locs, All-impl, IsChain-within, IsChain-mono, read-IsChain,
  length-chain, All-both,
}

abbrev pub IsTable : List Slot → Type 0
IsTable slots = IsProbed slot_view empty_slot start_at slots

abbrev pub slot_of : Bytes → List Slot → Option Slot
slot_of id slots = scan slot_view empty_slot start_at id slots

abbrev pub held : List Slot → ℕ
held slots = count_full slot_view empty_slot start_at slots

-- The chain of a trace, from its head to its tail, is the trace's own.
pub record IsRun (a : List Loc) (own : ℕ → Option Bytes) (id : Bytes) (s : Slot) : Type 0 where
  pub before : List ℕ
  pub last : ℕ
  pub chain : IsChain a (idx_of s.head) (before ++ (last ∷ []))
  pub ends : s.tail ≡ ref_of last
  pub owned : All (λ i. own i ≡ some id) (before ++ (last ∷ []))
  pub distinct : Distinct (before ++ (last ∷ []))

-- The free list has no loc of a trace.
pub record IsFree (a : List Loc) (own : ℕ → Option Bytes) (free : Option ℕ) (free_len : ℕ)
    : Type 0 where
  pub nodes : List ℕ
  pub chain : IsChain a free nodes
  pub unowned : All (λ i. own i ≡ none) nodes
  pub distinct : Distinct nodes
  pub number : length nodes ≡ free_len

-- Each loc of the arena is one trace's at most, and each trace has its chain.
pub record IsIndex (x : Index) : Type 0 where
  pub own : ℕ → Option Bytes
  pub within : (i : ℕ) (id : Bytes) → own i ≡ some id → i < length x.arena
  pub table : IsTable x.slots
  pub runs : (id : Bytes) (s : Slot) → slot_of id x.slots ≡ some s → IsRun x.arena own id s
  pub frees : IsFree x.arena own x.free x.free_len
  pub lives : x.live_count ≡ held x.slots

-- The fragments of a trace with that slot.
unfoldable pub stored : List Loc → Option Slot → List Loc
stored a none = []
stored a (some s) = read (length a) a (idx_of s.head)

read-none : (n : ℕ) (a : List Loc) → read n a none ≡ []
unfolding read
read-none zero a = refl
read-none (suc n) a = refl

pub stored-none : (a : List Loc) → stored a none ≡ []
unfolding stored
stored-none a = refl

-- What a search for a trace finds is its slot.
pub places-slot_of :
    (x : Index) (id : Bytes) → IsTable x.slots → places x id ≡ stored x.arena (slot_of id x.slots)
unfolding places head find_slot stored
places-slot_of x id t = elim (Option-cases (slot_of id x.slots)) [
  | inl missing ↦
      rw (missing, find_in_absent slot_view empty_slot start_at x.slots id t missing)
        (read-none (length x.arena) x.arena)
  | inr (s, found) ↦
      let (j, e, lt, at, v) = find_in-held slot_view empty_slot start_at x.slots id s t found in
      rw (found, e, at) refl
]

pub stored-IsRun :
    (a : List Loc) (own : ℕ → Option Bytes) (id : Bytes) (s : Slot) (r : IsRun a own id s)
    → stored a (some s) ≡ locs a (r.before ++ (r.last ∷ []))
unfolding stored
stored-IsRun a own id s r =
    let l = r.before ++ (r.last ∷ []) in
    read-IsChain (length a) a (idx_of s.head) l
      (length-chain (length a) l r.distinct (IsChain-within a (idx_of s.head) l r.chain)) r.chain

-- A chain whose locs stay as they are stays with its trace.
pub IsRun-mono :
    (a b : List Loc) (own own' : ℕ → Option Bytes) (id : Bytes) (s : Slot)
    → ((i : ℕ)
        → own i ≡ some id
        → i < length a
        → ((i < length b) × (loc_at b i ≡ loc_at a i)) × (own' i ≡ some id))
    → IsRun a own id s
    → IsRun b own' id s × (stored b (some s) ≡ stored a (some s))
IsRun-mono a b own own' id s h r =
    let l = r.before ++ (r.last ∷ []) in
    let all =
      All-both (λ i. own i ≡ some id) (λ i. i < length a) l r.owned
        (IsChain-within a (idx_of s.head) l r.chain) in
    let (chain, same) =
      IsChain-mono a b (idx_of s.head) l
        (All-impl l (λ i (p : (own i ≡ some id) × (i < length a)). (h i p.0 p.1).0) all) r.chain in
    let r' : IsRun b own' id s = record {
      before = r.before;
      last = r.last;
      chain = chain;
      ends = r.ends;
      owned = All-impl l (λ i (p : (own i ≡ some id) × (i < length a)). (h i p.0 p.1).1) all;
      distinct = r.distinct;
    } in
    (r', stored-IsRun b own' id s r' ∙ same ∙ sym (stored-IsRun a own id s r))

-- An index in which one trace has another slot, or none, and the others have their locs as before.
pub replace-IsIndex :
    (x y : Index) (t : IsIndex x) (own' : ℕ → Option Bytes) (id : Bytes) (o : Option Slot)
    → IsTable y.slots
    → ((k : Bytes) → slot_of k y.slots ≡ (if bytes_eq id k then o else slot_of k x.slots))
    → ((i : ℕ) (k : Bytes)
        → t.own i ≡ some k
        → bytes_eq id k ≡ false
        → ((i < length y.arena) × (loc_at y.arena i ≡ loc_at x.arena i)) × (own' i ≡ some k))
    → ((s : Slot) → o ≡ some s → IsRun y.arena own' id s)
    → ((i : ℕ) (k : Bytes) → own' i ≡ some k → i < length y.arena)
    → IsFree y.arena own' y.free y.free_len
    → y.live_count ≡ held y.slots
    → IsIndex y
      × ((k : Bytes) → places y k ≡ (if bytes_eq id k then stored y.arena o else places x k))
replace-IsIndex x y t own' id o table law kept run within frees lives =
    let other : (k : Bytes) (s : Slot)
        → bytes_eq id k ≡ false
        → slot_of k x.slots ≡ some s
        → IsRun y.arena own' k s × (stored y.arena (some s) ≡ stored x.arena (some s)) =
      λ k s apart e.
        IsRun-mono x.arena y.arena t.own own' k s (λ i mine lt. kept i k mine apart)
          (t.runs k s e) in
    (
      record {
        own = own';
        within = within;
        table = table;
        runs = λ k s e. elim (Bool-cases (bytes_eq id k)) [
          | inl same ↦
              subst (λ k. IsRun y.arena own' k s) (bytes_eq→eq id k same)
                (run s (ground (arith, law k, e, same)))
          | inr apart ↦ (other k s apart (ground (arith, law k, e, apart))).0
        ];
        frees = frees;
        lives = lives;
      },
      λ k. elim (Bool-cases (bytes_eq id k)) [
        | inl same ↦ rw (places-slot_of y k table, law k, same) refl
        | inr apart ↦
            rw (places-slot_of y k table, law k, apart, places-slot_of x k t.table)
              (same_places k apart)
      ],
    )
  where
    same_places :
        (k : Bytes)
        → bytes_eq id k ≡ false
        → stored y.arena (slot_of k x.slots) ≡ stored x.arena (slot_of k x.slots)
    same_places k apart = elim (Option-cases (slot_of k x.slots)) [
      | inl missing ↦ rw missing (stored-none y.arena ∙ sym (stored-none x.arena))
      | inr (s, found) ↦
          rw found
            (IsRun-mono x.arena y.arena t.own own' k s (λ i mine lt. kept i k mine apart)
              (t.runs k s found)).1
    ]
