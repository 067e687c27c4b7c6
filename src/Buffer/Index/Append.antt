-- ===== src/Buffer/Index/Append.antt =====
-- internal/buffer/index.go: what put does to the slot and the chain of its trace.
use mathlib.Core.Path.{subst}
use retrosampler.Prelude.{
  ℕ, ◌+◌, ◌^◌, ◌≤◌, ◌<◌, ◌≡◌, ◌≢◌, refl, sym, ap, ◌∙◌, arith, false, [], ◌∷◌, ◌++◌, none, some,
}
use retrosampler.Prelude.{if◌then◌else◌, length, set_at, bytes_eq, bytes_eq_refl}
use retrosampler.Prelude.Bytes.{Bytes}
use retrosampler.Probing.Search.{full}
use retrosampler.Probing.Table.{Reaches, view_in, is_full, full-injective, scan_missing}
use retrosampler.Probing.Writes.{write-scan, count_full-set_at}
use retrosampler.Buffer.Index.Defs.{
  Loc, Ref, ref_of, Slot, Index, empty_slot, slot_at, start_at, slot_view, idx_of, or_past,
  set_next, unlinked, alloc, link, enter, places,
}
use retrosampler.Buffer.Index.Links.{locs}
use retrosampler.Buffer.Index.Invariant.{
  slot_of, IsRun, IsIndex, stored, stored-none, stored-IsRun, places-slot_of, replace-IsIndex,
}
use retrosampler.Buffer.Index.Alloc.{alloc-IsFresh}
use retrosampler.Buffer.Index.Linked.{
  taken, taken-same, taken-other, taken-IsFree, within_taken, linked, last_owner, length-linked,
  linked_off, linked_other, linked-IsRun,
}

-- The index keeps its form, and has one more fragment, at the end of those of `id`.
abbrev pub Adds : Index → Bytes → Loc → Index → Type 0
Adds x id l y =
    IsIndex y
    × ((k : Bytes)
        → places y k ≡ (if bytes_eq id k then places x id ++ (unlinked l ∷ []) else places x k))
    × (length y.arena ≤ length x.arena + 1)

places-IsRun :
    (x : Index) (t : IsIndex x) (id : Bytes) (s : Slot) (found : slot_of id x.slots ≡ some s)
    → let r = t.runs id s found in places x id ≡ locs x.arena (r.before ++ (r.last ∷ []))
places-IsRun x t id s found =
    places-slot_of x id t.table
    ∙ ap (stored x.arena) found
    ∙ stored-IsRun x.arena t.own id s (t.runs id s found)

link-at :
    (x : Index) (j last : ℕ) (l : Loc) (s : Slot)
    → slot_at x j ≡ s
    → s.tail ≡ ref_of last
    → link x j l ≡ record ((alloc x l).1) {
      arena = set_next last (some (alloc x l).0) (alloc x l).1.arena;
      slots = set_at j (record s { tail = ref_of (alloc x l).0 }) x.slots;
    }
unfolding link
link-at x j last l s e tail =
    let a = alloc x l in
    ap
      (λ (v : Slot). record (a.1) {
        arena = set_next (or_past (idx_of v.tail) (length a.1.arena)) (some a.0) a.1.arena;
        slots = set_at j (record v { tail = ref_of a.0 }) x.slots;
      })
      e
    ∙ ap
        (λ (r : Ref). record (a.1) {
          arena = set_next (or_past (idx_of r) (length a.1.arena)) (some a.0) a.1.arena;
          slots = set_at j (record s { tail = ref_of a.0 }) x.slots;
        })
        tail

-- A known trace gets the loc at the end of its chain.
pub link-Adds :
    (x : Index) (t : IsIndex x) (id : Bytes) (j : ℕ) (l : Loc) (s : Slot)
    → slot_of id x.slots ≡ some s
    → j < length x.slots
    → slot_at x j ≡ s
    → slot_view s ≡ full id
    → length x.arena < 2 ^ 31
    → Adds x id l (link x j l)
link-Adds x t id j l s found lt at v small =
    let r = t.runs id s found in
    let f = alloc-IsFresh x t l small in
    let n = (alloc x l).0 in
    let z = (alloc x l).1 in
    let s' = record s { tail = ref_of n } in
    let b = linked x t.own id l s r n z f in
    let len = length-linked x t.own id l s r n z f in
    let mine = last_owner x t.own id l s r n z f in
    let (run, same) = linked-IsRun x t.own id l s r n z f in
    let there : view_in slot_view empty_slot start_at x.slots j ≡ full id = ap slot_view at ∙ v in
    let (table, law) =
      write-scan slot_view empty_slot start_at x.slots j s' id t.table lt v
        (t.table.reach j id lt there) (λ k w. full-injective k id (sym w ∙ there))
        (λ i i_lt w. t.table.unique i j id i_lt lt w there) in
    let counts = count_full-set_at slot_view empty_slot start_at x.slots j s' lt in
    let (good, law') =
      replace-IsIndex x (record z { arena = b; slots = set_at j s' x.slots }) t (taken t.own n id)
        id (some s') table law
        (λ i k e apart.
          let i_lt = t.within i k e in
          let ne : i ≢ r.last = λ q. ground (arith, ap t.own q, e, mine, apart, bytes_eq_refl id) in
          let ne_n : i ≢ n = λ q. ground (arith, ap t.own q, e, f.unowned) in
          (
            (omega (arith, i_lt, len, f.grows), linked_other x t.own id l s r n z f i i_lt ne ne_n),
            taken-other t.own n id i ne_n ∙ e,
          ))
        (λ u e. subst (IsRun b (taken t.own n id) id) (ground (arith, e)) run)
        (within_taken x.arena b t.own n id t.within (omega (arith, len, f.grows))
          (omega (arith, len, f.below)))
        (taken-IsFree x t.own l n z f b id len (λ i free.
          linked_off x t.own id l s r n z f i (λ e. ground (arith, ap t.own e, mine, free))))
        (ground (arith, f.lives, t.lives, counts, there, v)) in
    let grown : stored b (some s') ≡ places x id ++ (unlinked l ∷ []) =
      stored-IsRun b (taken t.own n id) id s' run
      ∙ same
      ∙ ap (λ q. q ++ (unlinked l ∷ [])) (sym (places-IsRun x t id s found)) in
    subst (Adds x id l) (sym (link-at x j r.last l s at r.ends)) (
      good,
      λ k. law' k ∙ ap (λ q. if bytes_eq id k then q else places x k) grown,
      omega (arith, f.by_one, len),
    )

-- A new trace gets a slot with the loc alone.
pub enter-Adds :
    (x : Index) (t : IsIndex x) (id : Bytes) (j : ℕ) (l : Loc)
    → slot_of id x.slots ≡ none
    → j < length x.slots
    → is_full (view_in slot_view empty_slot start_at x.slots j) ≡ false
    → Reaches slot_view empty_slot start_at x.slots id j
    → length x.arena < 2 ^ 31
    → Adds x id l (enter x j id l)
unfolding enter
enter-Adds x t id j l missing lt free way small =
    let f = alloc-IsFresh x t l small in
    let n = (alloc x l).0 in
    let z = (alloc x l).1 in
    let own' = taken t.own n id in
    let s' : Slot = record { id = id; head = ref_of n; tail = ref_of n } in
    let y = enter x j id l in
    let (table, law) =
      write-scan slot_view empty_slot start_at x.slots j s' id t.table lt refl way
        (λ k w. ground (arith, ap is_full w, free))
        (λ i i_lt w.
          absurd (scan_missing slot_view empty_slot start_at id x.slots missing i i_lt w)) in
    let run : IsRun z.arena own' id s' = record {
      before = [];
      last = n;
      chain = (refl, f.below, ap (λ (q : Loc). q.next) f.here);
      ends = refl;
      owned = (taken-same t.own n id, tt);
      distinct = (tt, tt);
    } in
    let counts = count_full-set_at slot_view empty_slot start_at x.slots j s' lt in
    let (good, law') =
      replace-IsIndex x y t own' id (some s') table law
        (λ i k e apart.
          let i_lt = t.within i k e in
          let ne_n : i ≢ n = λ q. ground (arith, ap t.own q, e, f.unowned) in
          ((omega (arith, i_lt, f.grows), f.there i i_lt ne_n), taken-other t.own n id i ne_n ∙ e))
        (λ u e. subst (IsRun z.arena own' id) (ground (arith, e)) run)
        (within_taken x.arena z.arena t.own n id t.within f.grows f.below)
        (taken-IsFree x t.own l n z f z.arena id refl (λ i free_i. refl))
        (ground (arith, t.lives, counts, free)) in
    let alone : stored z.arena (some s') ≡ places x id ++ (unlinked l ∷ []) =
      stored-IsRun z.arena own' id s' run
      ∙ ap (λ q. unlinked q ∷ []) f.here
      ∙ ap (λ q. q ++ (unlinked l ∷ []))
          (sym (places-slot_of x id t.table ∙ ap (stored x.arena) missing ∙ stored-none x.arena)) in
    (good, λ k. law' k ∙ ap (λ q. if bytes_eq id k then q else places x k) alone, f.by_one)
