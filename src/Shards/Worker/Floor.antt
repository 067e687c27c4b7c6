-- ===== src/Shards/Worker/Floor.antt =====
-- internal/shards/worker.go: the loop of tick on the watermark.
use retrosampler.Prelude.{
  ℕ, zero, suc, ◌+◌, ◌%◌, ◌^◌, ◌<◌, ◌≡◌, refl, sym, arith, true, false, List, [], ◌∷◌, Option, none,
  some,
}
use mathlib.Core.Path.{subst}
use retrosampler.Prelude.{Bool-cases, ◌⊎◌, inl, inr}
use retrosampler.Prelude.Ints.{ℤ, ltb_ℤ, ◌-ℤ◌}
use retrosampler.Shards.Queues.Defs.{FloorCause, floor_clear, floor_protected, nothing_reclaimable}
use retrosampler.Shards.Worker.Defs.{Disk, Node}
use retrosampler.Shards.Worker.Tick.{
  Round, halt, again, load_total, sacrificed, sacrifice_next, round, sacrifice, store_cause,
  report_disk, expire_all, window_of, tick,
}

-- What the loop relies on: with no finalized segment there is no oldest one, and a removal that succeeds leaves
-- fewer of them.
pub record HasSegments {B : Type 0} (disk : Disk B) : Type 0 where
  pub none_left : (b : B) → disk.segments b ≡ 0 → disk.oldest b ≡ none
  pub one_less :
      (b b' : B) (freed : ℤ)
      → disk.expire_oldest b ≡ (some freed, b')
      → disk.segments b' < disk.segments b

-- A run of removals, `k` of which succeeded, each of a segment that is older than the cutoff.
pub data Removed {B : Type 0} (disk : Disk B) (cutoff : ℤ) : B → ℕ → B → Type 0 where
  kept : {b : B} → Removed disk cutoff b 0 b
  failed :
      {b c : B} {t : ℤ}
      → disk.oldest b ≡ some t
      → ltb_ℤ t cutoff ≡ true
      → disk.expire_oldest b ≡ (none, c)
      → Removed disk cutoff b 0 c
  gone :
      {b c d : B} {k : ℕ} {t freed : ℤ}
      → disk.oldest b ≡ some t
      → ltb_ℤ t cutoff ≡ true
      → disk.expire_oldest b ≡ (some freed, c)
      → Removed disk cutoff c k d
      → Removed disk cutoff b (suc k) d

-- A run of removals, the last of which failed, after `k` that did not.
pub data Failing {B : Type 0} (disk : Disk B) (cutoff : ℤ) : B → ℕ → B → Type 0 where
  fails_now :
      {b c : B} {t : ℤ}
      → disk.oldest b ≡ some t
      → ltb_ℤ t cutoff ≡ true
      → disk.expire_oldest b ≡ (none, c)
      → Failing disk cutoff b 0 c
  fails_later :
      {b c d : B} {k : ℕ} {t freed : ℤ}
      → disk.oldest b ≡ some t
      → ltb_ℤ t cutoff ≡ true
      → disk.expire_oldest b ≡ (some freed, c)
      → Failing disk cutoff c k d
      → Failing disk cutoff b (suc k) d

-- With nothing to reclaim, there is no finalized segment, or the run of removals failed.
abbrev pub IsBlocked : {B : Type 0} → Disk B → ℤ → FloorCause → B → ℕ → B → Type 0
IsBlocked disk cutoff floor_clear b k c = Unit {0}
IsBlocked disk cutoff floor_protected b k c = Unit {0}
IsBlocked disk cutoff nothing_reclaimable b k c = (disk.oldest c ≡ none) ⊎ Failing disk cutoff b k c

IsBlocked-later :
    {B : Type 0} (disk : Disk B) (cutoff : ℤ) (cause : FloorCause) (k : ℕ) (d : B) {b c : B}
    {t freed : ℤ}
    → disk.oldest b ≡ some t
    → ltb_ℤ t cutoff ≡ true
    → disk.expire_oldest b ≡ (some freed, c)
    → IsBlocked disk cutoff cause c k d
    → IsBlocked disk cutoff cause b (suc k) d
IsBlocked-later disk cutoff floor_clear k d e old r h = tt
IsBlocked-later disk cutoff floor_protected k d e old r h = tt
IsBlocked-later disk cutoff nothing_reclaimable k d e old r (inl nothing) = inl nothing
IsBlocked-later disk cutoff nothing_reclaimable k d e old r (inr fails) =
    inr (fails_later e old r fails)

module _ {B : Type 0} (disk : Disk B) (limit cutoff : ℤ) where
  -- Why the loop ended.
  abbrev pub Because : FloorCause → Node B → Type 0
  Because floor_clear n = ltb_ℤ limit n.disk_total ≡ false
  Because floor_protected n =
      (ltb_ℤ limit n.disk_total ≡ true)
      × ((t : ℤ) × (disk.oldest n.buf ≡ some t) × (ltb_ℤ t cutoff ≡ false))
  Because nothing_reclaimable n =
      (ltb_ℤ limit n.disk_total ≡ true)
      × ((disk.oldest n.buf ≡ none) ⊎ ((b : B) × (disk.expire_oldest b ≡ (none, n.buf))))

  -- What a round that halts gives, or one that goes on.
  abbrev Turned : Node B → Round B → Type 0
  Turned n (halt cause m) =
      Because cause m
      × Removed disk cutoff n.buf 0 m.buf
      × (m.early_expired ≡ n.early_expired)
      × IsBlocked disk cutoff cause n.buf 0 m.buf
  Turned n (again m) =
      ((t : ℤ) × (freed : ℤ) × (disk.oldest n.buf ≡ some t)
        × (ltb_ℤ t cutoff ≡ true)
        × (disk.expire_oldest n.buf ≡ (some freed, m.buf)))
      × (m.early_expired ≡ (n.early_expired + 1) % 2 ^ 64)

  load_total-same :
      (others : List ℤ) (n : Node B)
      → ((load_total others n).buf ≡ n.buf)
        × ((load_total others n).early_expired ≡ n.early_expired)
  unfolding load_total
  load_total-same [] n = (refl, refl)
  load_total-same (delta ∷ rest) n = (refl, refl)

  sacrificed-Turned :
      (r : Option ℤ × B) (n : Node B) (t : ℤ)
      → ltb_ℤ limit n.disk_total ≡ true
      → disk.oldest n.buf ≡ some t
      → ltb_ℤ t cutoff ≡ true
      → disk.expire_oldest n.buf ≡ r
      → Turned n (sacrificed disk r n)
  unfolding sacrificed
  sacrificed-Turned (none, b) n t full e old r =
      ((full, inr (n.buf, r)), failed e old r, refl, inr (fails_now e old r))
  sacrificed-Turned (some freed, b) n t full e old r = ((t, freed, e, old, r), refl)

  sacrifice_next-Turned :
      (o : Option ℤ) (n : Node B)
      → ltb_ℤ limit n.disk_total ≡ true
      → disk.oldest n.buf ≡ o
      → Turned n (sacrifice_next disk cutoff o n)
  unfolding sacrifice_next
  sacrifice_next-Turned none n full e = ((full, inl e), kept, refl, inl e)
  sacrifice_next-Turned (some t) n full e = elim (Bool-cases (ltb_ℤ t cutoff)) [
    | inl old ↦ rw old (sacrificed-Turned (disk.expire_oldest n.buf) n t full e old refl)
    | inr young ↦ rw young ((full, (t, e, young)), kept, refl, tt)
  ]

  round-Turned : (n : Node B) → Turned (load_total n.others n) (round disk limit cutoff n)
  unfolding round
  round-Turned n =
      let m = load_total n.others n in
      elim (Bool-cases (ltb_ℤ limit m.disk_total)) [
        | inl full ↦ rw full (sacrifice_next-Turned (disk.oldest m.buf) m full refl)
        | inr fine ↦ rw fine (fine, kept, refl, tt)
      ]

  -- What the loop comes to from `n` on.
  abbrev pub Settles : Node B → Option FloorCause × Node B → Type 0
  Settles n r =
      (cause : FloorCause) × (r.0 ≡ some cause)
      × Because cause r.1
      × ((k : ℕ) × Removed disk cutoff n.buf k r.1.buf
          × (r.1.early_expired ≡ (n.early_expired + k) % 2 ^ 64)
          × IsBlocked disk cutoff cause n.buf k r.1.buf)

  settle_round :
      (fuel : ℕ) (n : Node B) (r : Round B)
      → HasSegments disk
      → disk.segments n.buf < suc fuel
      → n.early_expired < 2 ^ 64
      → Turned n r
      → ((m : Node B)
          → disk.segments m.buf < fuel
          → m.early_expired < 2 ^ 64
          → Settles m (sacrifice disk limit cutoff fuel (again m)))
      → Settles n (sacrifice disk limit cutoff fuel r)
  unfolding sacrifice
  settle_round zero n (halt cause m) laws lt fits (why, way, same, blocked) next =
      (cause, refl, why, (0, way, omega (arith, same, fits), blocked))
  settle_round (suc fuel) n (halt cause m) laws lt fits (why, way, same, blocked) next =
      (cause, refl, why, (0, way, omega (arith, same, fits), blocked))
  settle_round fuel n (again m) laws lt fits ((t, freed, e, old, r), one) next =
      let (cause, found, why, (k, way, count, blocked)) =
        next m (omega (arith, laws.one_less n.buf m.buf freed r, lt)) (omega (arith, one)) in
      (
        cause,
        found,
        why,
        (
          suc k,
          gone e old r way,
          omega (arith, count, one),
          IsBlocked-later disk cutoff cause k _ e old r blocked,
        ),
      )

  sacrifice_from :
      (fuel : ℕ) (n : Node B)
      → HasSegments disk
      → disk.segments n.buf < fuel
      → n.early_expired < 2 ^ 64
      → Settles n (sacrifice disk limit cutoff fuel (again n))
  unfolding sacrifice
  sacrifice_from zero n laws lt fits = absurd (omega (arith, lt))
  sacrifice_from (suc fuel) n laws lt fits =
      let m = load_total n.others n in
      let (buf, early) = load_total-same n.others n in
      let last = (sacrifice disk limit cutoff fuel (round disk limit cutoff n)).1.buf in
      let (cause, found, why, (k, way, count, blocked)) =
        settle_round fuel m (round disk limit cutoff n) laws (ground (arith, lt, buf))
          (omega (arith, fits, early)) (round-Turned n)
          (λ m' lt' fits'. sacrifice_from fuel m' laws lt' fits') in
      (
        cause,
        found,
        why,
        (
          k,
          subst (λ b. Removed disk cutoff b k last) buf way,
          omega (arith, count, early),
          subst (λ b. IsBlocked disk cutoff cause b k last) buf blocked,
        ),
      )

-- The reason looks at neither the cause nor the window of the node.
Because-stored :
    {B : Type 0} (disk : Disk B) (limit cutoff : ℤ) (window : ℤ) (cause : FloorCause) (n : Node B)
    → Because disk limit cutoff cause n
    → Because disk limit cutoff cause (record n { at_floor = cause; eff_window = window })
Because-stored disk limit cutoff window floor_clear n h = h
Because-stored disk limit cutoff window floor_protected n h = h
Because-stored disk limit cutoff window nothing_reclaimable n h = h

store_cause-some :
    {B : Type 0} (disk : Disk B) (r : Option FloorCause × Node B) (cause : FloorCause)
    → r.0 ≡ some cause
    → store_cause disk r ≡ record (r.1) { at_floor = cause }
unfolding store_cause
store_cause-some disk (none, n) cause e = cc
store_cause-some disk (some c, n) cause e = ground (arith, e)

-- The same as tick_lem below, with the run of removals that nothing_reclaimable stands for.
pub tick_blocked_lem :
    {B : Type 0} (disk : Disk B) (window window_floor limit now fallback : ℤ) (n : Node B)
    → HasSegments disk
    → n.early_expired < 2 ^ 64
    → let n1 = expire_all disk now fallback n in
      let m = tick disk window window_floor limit now fallback n in
      Because disk limit (now -ℤ window_floor) m.at_floor m
      × ((k : ℕ) × Removed disk (now -ℤ window_floor) n1.buf k m.buf
          × (m.early_expired ≡ (n.early_expired + k) % 2 ^ 64)
          × IsBlocked disk (now -ℤ window_floor) m.at_floor n1.buf k m.buf)
unfolding tick expire_all report_disk
tick_blocked_lem disk window window_floor limit now fallback n laws fits =
    let cutoff = now -ℤ window_floor in
    let n1 = expire_all disk now fallback n in
    let r = sacrifice disk limit cutoff (disk.segments n1.buf + 1) (again n1) in
    let (cause, found, why, (k, way, count, blocked)) =
      sacrifice_from disk limit cutoff (disk.segments n1.buf + 1) n1 laws (omega arith) fits in
    let stored = store_cause-some disk r cause found in
    subst
      (λ x.
        let m : Node _ = record x { eff_window = window_of disk window now (disk.oldest x.buf) } in
        Because disk limit cutoff m.at_floor m
        × ((k : ℕ) × Removed disk cutoff n1.buf k m.buf
            × (m.early_expired ≡ (n.early_expired + k) % 2 ^ 64)
            × IsBlocked disk cutoff m.at_floor n1.buf k m.buf))
      (sym stored) (Because-stored disk limit cutoff _ cause r.1 why, (k, way, count, blocked))

-- The loop of tick on the watermark ends, within one turn for each finalized segment and one more. After it
-- the disk is not above the watermark, or the cause that Offer sheds by says why not: the oldest segment is
-- not older than the floor, or there is none or it could not be removed. Each segment that the loop removed was older
-- than the floor, and is counted. A removal that succeeds leaves fewer finalized segments, with none left there
-- is no oldest one, and the counter is a uint64.
pub tick_lem :
    {B : Type 0} (disk : Disk B) (window window_floor limit now fallback : ℤ) (n : Node B)
    → HasSegments disk
    → n.early_expired < 2 ^ 64
    → let n1 = expire_all disk now fallback n in
      let m = tick disk window window_floor limit now fallback n in
      Because disk limit (now -ℤ window_floor) m.at_floor m
      × ((k : ℕ) × Removed disk (now -ℤ window_floor) n1.buf k m.buf
          × (m.early_expired ≡ (n.early_expired + k) % 2 ^ 64))
tick_lem disk window window_floor limit now fallback n laws fits =
    let (because, (k, way, count, _)) =
      tick_blocked_lem disk window window_floor limit now fallback n laws fits in
    (because, (k, way, count))
