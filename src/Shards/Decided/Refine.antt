-- ===== src/Shards/Decided/Refine.antt =====
-- internal/shards/decided.go: the set against a plain list of entries.
use retrosampler.Prelude.{
  ℕ, zero, suc, ◌+◌, ◌-◌, ◌%◌, ◌^◌, ◌≤◌, ◌<◌, ◌≡◌, ◌≢◌, refl, sym, ap, ◌∙◌, arith, Bool, true,
  false, List, [], ◌∷◌, ◌++◌,
}
use mathlib.Core.Path.{subst}
use retrosampler.Prelude.{
  Bool-cases, inl, inr, if◌then◌else◌, length, length-append, drop, drop-append_le, drop-get_or,
  drop-length, get_or, get_or-append_lt, get_or-append_length, set_at, ◌==◌,
}
use retrosampler.Prelude.Bytes.{Bytes}
use retrosampler.Prelude.Ints.{ℤ}
use retrosampler.Shards.Decided.Defs.{
  Entry, DecidedSet, no_entry, decided_tomb, entry_at, find_slot, make_room, push, live_len, occupy,
  mark, is_expired, bury, evict_loop, evict,
}
use retrosampler.Shards.Decided.Table.{IsTable, id_at}
use retrosampler.Shards.Decided.Insert.{given}
use retrosampler.Shards.Decided.Bury.{bury-IsTable}
use retrosampler.Shards.Decided.Live.{
  IsIntact, live_entries, is_member, entry_member, find_slot-is_member,
}
use retrosampler.Shards.Decided.Rehash.{insert_found, make_room-Roomy}
use retrosampler.Shards.Decided.Compact.{compact_ring-Same}

-- What mark promises of the live entries: a new id goes to the end, an old one changes nothing.
unfoldable pub list_mark : Bytes → ℤ → List Entry → Bool × List Entry
list_mark id deadline es =
    if is_member id es
    then (false, es)
    else (true, es ++ (record { id = id; deadline = deadline } ∷ []))

-- What evict promises: the entries at the front whose deadline has passed are gone, and counted.
unfoldable pub list_evict : ℤ → List Entry → ℕ × List Entry
list_evict now [] = (0, [])
list_evict now (e ∷ es) =
    let rest = list_evict now es in if is_expired now e then (rest.0 + 1, rest.1) else (0, e ∷ es)

-- The numbers given out so far.
abbrev pub issued : DecidedSet → ℕ
issued d = d.base_seq + length d.ring

occupy-IsIntact :
    (d : DecidedSet) (e : Entry)
    → IsIntact d
    → issued d + 1 < 2 ^ 64 - 2
    → length d.ring < d.head + length d.slots
    → is_member e.id (live_entries d) ≡ false
    → let d' = occupy d (find_slot d e.id).0 e in
      IsIntact d' × (live_entries d' ≡ live_entries d ++ (e ∷ [])) × (issued d' ≡ issued d + 1)
unfolding occupy push
occupy-IsIntact d e t small room fresh =
    let n = length d.ring in
    let ring = d.ring ++ (e ∷ []) in
    let j = (find_slot d e.id).0 in
    let tombs = if get_or 0 d.slots j == decided_tomb then d.tombs - 1 else d.tombs in
    let len : length ring ≡ n + 1 = length-append d.ring (e ∷ []) in
    let last : get_or no_entry ring n ≡ e = get_or-append_length no_entry e d.ring in
    let old : (i : ℕ) → i < n → (get_or no_entry ring i).id ≡ id_at d i =
      λ i lt. ap (λ x. x.id) (get_or-append_lt no_entry d.ring (e ∷ []) i lt) in
    let other : (i : ℕ) → d.head ≤ i → i < n → id_at d i ≢ (get_or no_entry ring n).id =
      λ i lo hi same.
        ground (arith, fresh, entry_member d e.id i lo hi (same ∙ ap (λ x. x.id) last)) in
    let t1 =
      insert_found d d.head n tombs ring t (omega (arith, t.lives)) (omega (arith, len))
        (omega (arith, small)) room old other in
    let t2 =
      subst (λ x. IsTable (given d n (find_slot d x.id).0 ring tombs) d.head (n + 1)) last t1 in
    let t3 = subst (λ k. IsTable (given d n j ring tombs) d.head k) (sym len) t2 in
    let fits : (d.base_seq + n + 1) % 2 ^ 64 ≡ d.base_seq + n + 1 = omega (arith, small) in
    (
      subst
          (λ v.
            IsTable (record d { slots = set_at j v d.slots; ring = ring; tombs = tombs }) d.head
              (length ring))
          (sym fits) t3,
      drop-append_le d.head d.ring (e ∷ []) (omega (arith, t.lives)),
      omega (arith, len),
    )

-- mark on a well-formed set is mark on its live entries, and the set stays well formed.
pub mark_lem :
    (d : DecidedSet) (id : Bytes) (deadline : ℤ)
    → IsIntact d
    → issued d + 1 < 2 ^ 64 - 2
    → let r = mark d id deadline in
      IsIntact r.1
      × ((r.0, live_entries r.1) ≡ list_mark id deadline (live_entries d))
      × (issued r.1 ≤ issued d + 1)
unfolding mark list_mark
mark_lem d id deadline t small =
    let d1 = make_room d in
    let (t1, ring, head, base, room) = make_room-Roomy d t in
    let same : live_entries d1 ≡ live_entries d = ground (arith, ring, head) in
    let count : issued d1 ≡ issued d = ground (arith, ring, base) in
    let found = find_slot-is_member d1 id t1 ∙ ap (is_member id) same in
    elim (Bool-cases (is_member id (live_entries d))) [
      | inl member ↦
          rw (found ∙ member) (rw member (t1, ap (λ es. (false, es)) same, omega (arith, count)))
      | inr other ↦
          let (a, b, c) =
            occupy-IsIntact d1 (record { id = id; deadline = deadline }) t1
              (omega (arith, count, small)) (ground (arith, room, ring, head))
              (ap (is_member id) same ∙ other) in
          rw (found ∙ other) (
            rw other (
              a,
              ap (λ es. (true, es))
                  (b ∙ ap (λ es. es ++ (record { id = id; deadline = deadline } ∷ [])) same),
              omega (arith, c, count),
            ))
    ]

bury_fields :
    (d : DecidedSet)
    → ((bury d).ring ≡ d.ring) × ((bury d).base_seq ≡ d.base_seq) × ((bury d).head ≡ d.head + 1)
unfolding bury
bury_fields d = (refl, refl, refl)

-- The loop of evict, over the entries that are left.
evict_loop_lem :
    (n : ℕ) (now : ℤ) (d : DecidedSet)
    → IsIntact d
    → length d.ring ≡ d.head + n
    → let r = evict_loop n now d in
      IsIntact r.1
      × ((r.0, live_entries r.1) ≡ list_evict now (live_entries d))
      × (issued r.1 ≡ issued d)
unfolding evict_loop list_evict
evict_loop_lem zero now d t e =
    let nothing : live_entries d ≡ [] = ground (arith, e, drop-length d.ring) in
    (t, rw nothing refl, refl)
evict_loop_lem (suc n) now d t e =
    let (ring, base, head) = bury_fields d in
    let first : live_entries d ≡ entry_at d d.head ∷ drop (d.head + 1) d.ring =
      drop-get_or no_entry d.head d.ring (omega (arith, e)) in
    rw first (elim (Bool-cases (is_expired now (entry_at d d.head))) [
      | inl gone ↦
          let t1 : IsIntact (bury d) = bury-IsTable d (length d.ring) t (omega (arith, e)) in
          let (a, b, c) = evict_loop_lem n now (bury d) t1 (omega (arith, e)) in
          rw gone (a, ap (λ r. (r.0 + 1, r.1)) b, c)
      | inr stays ↦ rw stays (t, ap (λ es. (0, es)) first, refl)
    ])

-- evict on a well-formed set is evict on its live entries, and the set stays well formed.
pub evict_lem :
    (d : DecidedSet) (now : ℤ)
    → IsIntact d
    → let r = evict now d in
      IsIntact r.1
      × ((r.0, live_entries r.1) ≡ list_evict now (live_entries d))
      × (issued r.1 ≡ issued d)
unfolding evict live_len
evict_lem d now t =
    let (a, b, c) = evict_loop_lem (length d.ring - d.head) now d t (omega (arith, t.lives)) in
    let r = evict_loop (length d.ring - d.head) now d in
    let (x, y, z) = compact_ring-Same r.1 a in (x, ap (λ es. (r.0, es)) y ∙ b, z ∙ c)
