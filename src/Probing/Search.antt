-- ===== src/Probing/Search.antt =====
-- The search of findSlot: it goes on over full slots and tombstones, and ends at an empty slot.
use retrosampler.Prelude.{
  ℕ, zero, suc, ◌+◌, ◌≤◌, ◌<◌, ◌≡◌, ◌≢◌, refl, sym, ap, ◌∙◌, arith, Bool, true, false, Option, none,
  some,
}
use retrosampler.Prelude.{
  ◌⊎◌, inl, inr, Bool-cases, if◌then◌else◌, bytes_eq, bytes_eq→eq, bytes_eq_refl,
}
use mathlib.Core.Path.{subst}
use native.Mathlib.Decide.{dec_lt}
use retrosampler.Prelude.Bytes.{Bytes}

-- A slot as the search sees it.
pub data View : Type 0 where
  vacant : View
  tomb : View
  full : Bytes → View

abbrev pub first_of : Option ℕ → ℕ → ℕ
first_of none j = j
first_of (some t) j = t

-- The first tombstone, once slot `j` is seen.
unfoldable pub next_tomb : View → Option ℕ → ℕ → Option ℕ
next_tomb vacant t j = t
next_tomb tomb t j = some (first_of t j)
next_tomb (full k) t j = t

module _ (view : ℕ → View) (at : ℕ → ℕ) (key : Bytes) where
  -- The switch on slot `j`, where `later` is what the rest of the loop gives.
  unfoldable pub decide : View → ℕ → Option ℕ → Option ℕ × Bool → Option ℕ × Bool
  decide vacant j t later = (some (first_of t j), false)
  decide tomb j t later = later
  decide (full k) j t later = if bytes_eq k key then (some j, true) else later

  -- From probe `p` on, `n` more slots: the slot of the key, or the one that it belongs in, and whether it
  -- was found. `t` is the first tombstone so far.
  unfoldable pub search_from : ℕ → ℕ → Option ℕ → Option ℕ × Bool
  unfolding decide next_tomb
  search_from zero p t = (t, false)
  search_from (suc n) p t =
      decide (view (at p)) (at p) t (search_from n (p + 1) (next_tomb (view (at p)) t (at p)))

  -- Slot `j` stands at a probe from `p` on, and no slot before it is empty.
  pub record Open (p n j : ℕ) : Type 0 where
    pub probe : ℕ
    pub from : p ≤ probe
    pub until : probe < p + n
    pub slot : at probe ≡ j
    pub occupied : (r : ℕ) → p ≤ r → r < probe → view (at r) ≢ vacant

  search_vacant :
      (n p : ℕ) (t : Option ℕ)
      → view (at p) ≡ vacant
      → search_from (suc n) p t ≡ (some (first_of t (at p)), false)
  unfolding search_from decide
  search_vacant n p t e = rw e refl

  search_tomb :
      (n p : ℕ) (t : Option ℕ)
      → view (at p) ≡ tomb
      → search_from (suc n) p t ≡ search_from n (p + 1) (some (first_of t (at p)))
  unfolding search_from decide next_tomb
  search_tomb n p t e = rw e refl

  search_same :
      (n p : ℕ) (t : Option ℕ)
      → view (at p) ≡ full key
      → search_from (suc n) p t ≡ (some (at p), true)
  unfolding search_from decide next_tomb
  search_same n p t e = rw (e, bytes_eq_refl key) refl

  search_other :
      (n p : ℕ) (t : Option ℕ) (k : Bytes)
      → view (at p) ≡ full k
      → bytes_eq k key ≡ false
      → search_from (suc n) p t ≡ search_from n (p + 1) t
  unfolding search_from decide next_tomb
  search_other n p t k e ne = rw (e, ne) refl

  -- The four ways in which the search goes at one slot.
  data Turn (p : ℕ) : Type 0 where
    at_vacant : view (at p) ≡ vacant → Turn p
    at_tomb : view (at p) ≡ tomb → Turn p
    at_key : view (at p) ≡ full key → Turn p
    at_other : (k : Bytes) → view (at p) ≡ full k → bytes_eq k key ≡ false → Turn p

  Turn-at : (p : ℕ) (v : View) → view (at p) ≡ v → Turn p
  Turn-at p vacant e = at_vacant e
  Turn-at p tomb e = at_tomb e
  Turn-at p (full k) e = elim (Bool-cases (bytes_eq k key)) [
    | inl same ↦ at_key (e ∙ ap full (bytes_eq→eq k key same))
    | inr other ↦ at_other k e other
  ]

  Open-here : (n p : ℕ) → Open p (suc n) (at p)
  Open-here n p = record {
    probe = p;
    from = omega arith;
    until = omega arith;
    slot = refl;
    occupied = λ r lo hi. absurd (omega (arith, lo, hi));
  }

  Open-later : (n p j : ℕ) → view (at p) ≢ vacant → Open (p + 1) n j → Open p (suc n) j
  Open-later n p j full_here o = record {
    probe = o.probe;
    from = omega (arith, o.from);
    until = omega (arith, o.until);
    slot = o.slot;
    occupied = λ r lo hi e. elim (dec_lt p r) [
      | yes later ↦ o.occupied r (omega arith) hi e
      | no here ↦ full_here (ap (λ q. view (at q)) (omega arith) ∙ e)
    ];
  }

  Open-next : (n p j : ℕ) → Open p (suc n) j → at p ≢ j → (view (at p) ≢ vacant) × Open (p + 1) n j
  Open-next n p j o ne =
      let apart : p ≢ o.probe = λ e. ne (ap at e ∙ o.slot) in
      (
        o.occupied p (omega arith) (omega (arith, apart, o.from)),
        record {
          probe = o.probe;
          from = omega (arith, apart, o.from);
          until = omega (arith, o.until);
          slot = o.slot;
          occupied = λ r lo hi. o.occupied r (omega arith) hi;
        },
      )

  abbrev Sound : ℕ → ℕ → Option ℕ × Bool → Type 0
  Sound n p r = r.1 ≡ true → (j : ℕ) × (r.0 ≡ some j) × (view j ≡ full key) × Open p n j

  Sound-later :
      (n p : ℕ) (r : Option ℕ × Bool) → view (at p) ≢ vacant → Sound n (p + 1) r → Sound (suc n) p r
  Sound-later n p r full_here h found =
      let (j, e, f, o) = h found in (j, e, f, Open-later n p j full_here o)

  -- What the search finds has the key, and stands where no slot before it is empty.
  pub search_from-Sound : (n p : ℕ) (t : Option ℕ) → Sound n p (search_from n p t)
  unfolding search_from
  search_from-Sound zero p t = λ h. ground (arith, h)
  search_from-Sound (suc n) p t = elim (Turn-at p (view (at p)) refl) [
    | at_vacant e ↦ λ h. ground (arith, h, search_vacant n p t e)
    | at_tomb e ↦
        subst (Sound (suc n) p) (sym (search_tomb n p t e))
          (Sound-later n p _ (λ v. ground (arith, v, e)) (search_from-Sound n (p + 1) _))
    | at_key e ↦ λ h. (at p, ap (λ r. r.0) (search_same n p t e), e, Open-here n p)
    | at_other k e ne ↦
        subst (Sound (suc n) p) (sym (search_other n p t k e ne))
          (Sound-later n p _ (λ v. ground (arith, v, e)) (search_from-Sound n (p + 1) _))
  ]

  -- A key that stands where no slot before it is empty is found.
  pub search_from_complete :
      (n p : ℕ) (t : Option ℕ) (j : ℕ)
      → Open p n j
      → view j ≡ full key
      → (search_from n p t).1 ≡ true
  search_from_complete zero p t j o e = absurd (omega (arith, o.from, o.until))
  search_from_complete (suc n) p t j o e = elim (Turn-at p (view (at p)) refl) [
    | at_vacant v ↦ absurd ((Open-next n p j o (λ same. ground (arith, v, e, same))).0 v)
    | at_tomb v ↦
        ap (λ r. r.1) (search_tomb n p t v)
        ∙ search_from_complete n (p + 1) _ j
            (Open-next n p j o (λ same. ground (arith, v, e, same))).1 e
    | at_key v ↦ ap (λ r. r.1) (search_same n p t v)
    | at_other k v ne ↦
        ap (λ r. r.1) (search_other n p t k v ne)
        ∙ search_from_complete n (p + 1) _ j
            (Open-next n p j o (λ same. ground (arith, v, e, same, ne, bytes_eq_refl key))).1 e
  ]

  abbrev pub NotFull : ℕ → Type 0
  NotFull j = (k : Bytes) → view j ≢ full k

  -- A slot to insert at: the first tombstone from before, or one on the way that no empty slot precedes.
  abbrev pub Spot : ℕ → ℕ → Option ℕ → Option ℕ → Type 0
  Spot n p t r = (j : ℕ) × (r ≡ some j) × ((t ≡ some j) ⊎ (NotFull j × Open p n j))

  -- There is a slot left to insert at.
  abbrev pub HasSpot : ℕ → ℕ → Option ℕ → Type 0
  HasSpot n p t = ((j : ℕ) × (t ≡ some j)) ⊎ ((q : ℕ) × (p ≤ q) × (q < p + n) × NotFull (at q))

  Spot-later :
      (n p : ℕ) (t r : Option ℕ) → view (at p) ≢ vacant → Spot n (p + 1) t r → Spot (suc n) p t r
  Spot-later n p t r full_here (j, e, inl old) = (j, e, inl old)
  Spot-later n p t r full_here (j, e, inr (free, o)) =
      (j, e, inr (free, Open-later n p j full_here o))

  Spot-first :
      (n p : ℕ) (t : Option ℕ) → NotFull (at p) → Spot (suc n) p t (some (first_of t (at p)))
  Spot-first n p none free = (at p, refl, inr (free, Open-here n p))
  Spot-first n p (some j) free = (j, refl, inl refl)

  Spot-tomb :
      (n p : ℕ) (t r : Option ℕ)
      → view (at p) ≡ tomb
      → Spot n (p + 1) (some (first_of t (at p))) r
      → Spot (suc n) p t r
  Spot-tomb n p none r v (j, e, inl old) = (
    j,
    e,
    inr (
      λ k f. ground (arith, old, v, f),
      subst (Open p (suc n)) (ground (arith, old)) (Open-here n p),
    ),
  )
  Spot-tomb n p (some i) r v (j, e, inl old) = (j, e, inl old)
  Spot-tomb n p t r v (j, e, inr (free, o)) =
      (j, e, inr (free, Open-later n p j (λ w. ground (arith, v, w)) o))

  HasSpot-next :
      (n p : ℕ) (t : Option ℕ) (k : Bytes)
      → view (at p) ≡ full k
      → HasSpot (suc n) p t
      → HasSpot n (p + 1) t
  HasSpot-next n p t k v (inl old) = inl old
  HasSpot-next n p t k v (inr (q, lo, hi, free)) =
      let apart : p ≢ q = λ e. free k (ap (λ i. view (at i)) (sym e) ∙ v) in
      inr (q, omega (arith, apart, lo), omega (arith, hi), free)

  -- Where there is a slot left, a search that does not find the key gives one to insert at.
  pub search_from-Spot :
      (n p : ℕ) (t : Option ℕ)
      → HasSpot n p t
      → (search_from n p t).1 ≡ false
      → Spot n p t (search_from n p t).0
  unfolding search_from
  search_from-Spot zero p t (inl (j, e)) h = (j, e, inl e)
  search_from-Spot zero p t (inr (q, lo, hi, free)) h = absurd (omega (arith, lo, hi))
  search_from-Spot (suc n) p t left h = elim (Turn-at p (view (at p)) refl) [
    | at_vacant v ↦
        subst (λ r. Spot (suc n) p t r.0) (sym (search_vacant n p t v))
          (Spot-first n p t (λ k f. ground (arith, v, f)))
    | at_tomb v ↦
        subst (λ r. Spot (suc n) p t r.0) (sym (search_tomb n p t v))
          (Spot-tomb n p t _ v (
            search_from-Spot n (p + 1) _ (inl (_, refl))
              (ap (λ r. r.1) (sym (search_tomb n p t v)) ∙ h)))
    | at_key v ↦ ground (arith, h, search_same n p t v)
    | at_other k v ne ↦
        subst (λ r. Spot (suc n) p t r.0) (sym (search_other n p t k v ne))
          (Spot-later n p t _ (λ w. ground (arith, v, w))
            (search_from-Spot n (p + 1) t (HasSpot-next n p t k v left)
              (ap (λ r. r.1) (sym (search_other n p t k v ne)) ∙ h)))
  ]
