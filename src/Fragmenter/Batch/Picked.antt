-- ===== src/Fragmenter/Batch/Picked.antt =====
-- internal/fragmenter/fragmenter.go: the spans of a trace, picked out of a batch.
use retrosampler.Prelude.{
  ℕ, zero, suc, ◌<◌, ◌≡◌, ◌≢◌, refl, ap, ◌∙◌, arith, false, List, [], ◌∷◌, map,
}
use retrosampler.Prelude.{
  Bool-cases, inl, inr, if◌then◌else◌, length, get_or, bytes_eq, bytes_eq_iff,
}
use retrosampler.Prelude.Bytes.{Bytes}
use retrosampler.Fragmenter.Group.{SpanRef}
use retrosampler.Fragmenter.Batch.Defs.{Visit, Fragment, ref_at, no_ref}
use retrosampler.Fragmenter.Batch.Chains.{positions}
use retrosampler.Fragmenter.Batch.Steps.{trace_of, Spot, spot, spot_of}

-- The spans of a trace, in the order of the loops.
unfoldable pub picked : Bytes → List Visit → List Visit
picked id [] = []
picked id (v ∷ vs) = let rest = picked id vs in if bytes_eq (trace_of v) id then v ∷ rest else rest

abbrev pub no_spot : Spot
no_spot = (0, 0, 0)

abbrev pub no_fragment : Fragment
no_fragment = record { id = []; frag = []; reason = 0; base = false }

map_suc : {A : Type 0} (f : ℕ → A) (ps : List ℕ) → map f (map suc ps) ≡ map (λ i. f (suc i)) ps
map_suc f [] = refl
map_suc f (p ∷ ps) = ap (λ r. f (suc p) ∷ r) (map_suc f ps)

pub length-map : {A B : Type 0} (f : A → B) (xs : List A) → length (map f xs) ≡ length xs
length-map f [] = refl
length-map f (x ∷ xs) = ap suc (length-map f xs)

map_suc-nil : (ps : List ℕ) → map suc ps ≡ [] → ps ≡ []
map_suc-nil [] e = refl
map_suc-nil (p ∷ ps) e = cc

get_or-map :
    (refs : List SpanRef) (i : ℕ) → spot (get_or no_ref refs i) ≡ get_or no_spot (map spot refs) i
get_or-map [] i = refl
get_or-map (x ∷ refs) zero = refl
get_or-map (x ∷ refs) (suc i) = get_or-map refs i

pub map_spot :
    (refs : List SpanRef) (ps : List ℕ)
    → map spot (map (ref_at refs) ps) ≡ map (get_or no_spot (map spot refs)) ps
map_spot refs [] = refl
map_spot refs (p ∷ ps) =
    ap (λ h. h ∷ map spot (map (ref_at refs) ps)) (get_or-map refs p)
    ∙ ap (λ r. get_or no_spot (map spot refs) p ∷ r) (map_spot refs ps)

pub map-positions :
    (id : Bytes) (vs : List Visit)
    → map (get_or no_spot (map spot_of vs)) (positions id (map trace_of vs))
      ≡ map spot_of (picked id vs)
unfolding positions picked
map-positions id [] = refl
map-positions id (v ∷ vs) =
    let tail =
      map_suc (get_or no_spot (map spot_of (v ∷ vs))) (positions id (map trace_of vs))
      ∙ map-positions id vs in
    elim (Bool-cases (bytes_eq (trace_of v) id)) [
      | inl here ↦ rw here (ap (λ r. spot_of v ∷ r) tail)
      | inr other ↦ rw other tail
    ]

-- An id that occurs has a position.
pub positions-occurs :
    (id : Bytes) (xs : List Bytes) (n : ℕ)
    → n < length xs
    → get_or [] xs n ≡ id
    → positions id xs ≢ []
unfolding positions
positions-occurs id [] n lt e = absurd (omega (arith, lt))
positions-occurs id (x ∷ xs) zero lt e =
    λ none_there. ground (arith, none_there, bytes_eq_iff x id, e)
positions-occurs id (x ∷ xs) (suc n) lt e =
    let later = positions-occurs id xs n (omega (arith, lt)) e in
    elim (Bool-cases (bytes_eq x id)) [
      | inl here ↦ λ none_there. ground (arith, none_there, here)
      | inr other ↦
          λ none_there. later (map_suc-nil (positions id xs) (ground (arith, none_there, other)))
    ]
