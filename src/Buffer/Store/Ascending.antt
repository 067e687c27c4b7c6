-- ===== src/Buffer/Store/Ascending.antt =====
-- internal/buffer/buffer.go: the finalized segments in the order of their generations.
use retrosampler.Prelude.{
  ℕ, ◌+◌, ◌-◌, ◌^◌, ◌≤◌, ◌<◌, ◌≡◌, refl, ap, ◌∙◌, arith, Bool, false, List, [], ◌∷◌, ◌++◌, some,
}
use retrosampler.Prelude.{ltb, ◌==◌, if◌then◌else◌}
use retrosampler.Buffer.Segment.Reader.{SegMeta}
use retrosampler.Buffer.Store.Defs.{Buffer, oldest_from, delete_meta}

-- The segments' generations ascend, from `g` on and below `e`.
abbrev pub IsAscending : ℕ → ℕ → List SegMeta → Type 0
IsAscending g e [] = g ≤ e
IsAscending g e (m ∷ metas) = (g ≤ m.gen) × IsAscending (m.gen + 1) e metas

-- The lowest generation that can be live once these segments are removed.
abbrev pub floor_after : ℕ → List SegMeta → ℕ
floor_after g [] = g
floor_after g (m ∷ metas) = floor_after (m.gen + 1) metas

pub IsAscending_le : (g e : ℕ) (metas : List SegMeta) → IsAscending g e metas → g ≤ e
IsAscending_le g e [] row = row
IsAscending_le g e (m ∷ metas) (le, row) = omega (arith, le, IsAscending_le (m.gen + 1) e metas row)

pub IsAscending-after :
    (g e : ℕ) (gone rest : List SegMeta)
    → IsAscending g e (gone ++ rest)
    → IsAscending (floor_after g gone) e rest
IsAscending-after g e [] rest row = row
IsAscending-after g e (m ∷ gone) rest (le, row) = IsAscending-after (m.gen + 1) e gone rest row

abbrev pub total : List SegMeta → ℕ
total [] = 0
total (m ∷ metas) = m.size + total metas

-- The finalized segments' generations ascend from minGen on, and their sizes are counted.
pub record IsSegments (b : Buffer) : Type 0 where
  pub row : IsAscending b.min_gen (2 ^ 32 - 1) b.metas
  pub bytes : b.finalized_bytes ≡ total b.metas

pub oldest_from-IsAscending :
    (best : SegMeta) (g e : ℕ) (metas : List SegMeta)
    → best.gen < g
    → IsAscending g e metas
    → oldest_from (some best) metas ≡ some best
unfolding oldest_from
oldest_from-IsAscending best g e [] lt row = refl
oldest_from-IsAscending best g e (m ∷ metas) lt (le, row) =
    let older : ltb m.gen best.gen ≡ false = ground (arith, le, lt) in
    ap (λ (t : Bool). oldest_from (some (if t then m else best)) metas) older
    ∙ oldest_from-IsAscending best (m.gen + 1) e metas (omega (arith, le, lt)) row

pub delete_meta-IsAscending :
    (gen g e : ℕ) (metas : List SegMeta)
    → gen < g
    → IsAscending g e metas
    → delete_meta gen metas ≡ metas
unfolding delete_meta
delete_meta-IsAscending gen g e [] lt row = refl
delete_meta-IsAscending gen g e (m ∷ metas) lt (le, row) =
    let other : (m.gen == gen) ≡ false = ground (arith, le, lt) in
    ap (λ (t : Bool). if t then delete_meta gen metas else m ∷ delete_meta gen metas) other
    ∙ ap (λ r. m ∷ r) (delete_meta-IsAscending gen (m.gen + 1) e metas (omega (arith, le, lt)) row)
