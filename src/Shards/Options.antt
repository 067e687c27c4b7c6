-- ===== src/Shards/Options.antt =====
-- internal/shards/shards.go: the options that New accepts, and the buffers that it opens and closes.
use retrosampler.Prelude.{
  ℕ, zero, suc, ◌+◌, ◌*◌, ◌/◌, ◌<◌, ◌≡◌, refl, sym, ap, ◌∙◌, arith, Bool, true, false, not, ◌||◌,
  List, [], ◌∷◌, ◌++◌, Option, none, some,
}
use mathlib.Core.Path.{subst}
use retrosampler.Prelude.{Bool-cases, Option-cases, All, ◌⊎◌, inl, inr, if◌then◌else◌}
use retrosampler.Prelude.Ints.{ℤ, pos, negsuc, sub_ℕ, ltb_ℤ, ◌<ℤ◌, ◌≤ℤ◌, wrap64}

-- The fields of Options that New checks; a length of time is in nanoseconds.
pub record SetOptions : Type 0 where
  pub shards : ℤ
  pub window : ℤ
  pub segment_size : ℤ
  pub disk_budget : ℤ
  pub watermark_pct : ℤ
  pub window_floor : ℤ
  pub has_now : Bool

pub data NewError : Type 0 where
  bad_shards bad_segment_size bad_window bad_disk_budget bad_watermark_pct bad_window_floor no_now :
      NewError
  floor_above_watermark : NewError
  open_failed : ℕ → NewError

-- Go's product and quotient of int64 values.
unfoldable pub mul_i64 : ℤ → ℤ → ℤ
mul_i64 (pos a) (pos b) = wrap64 (pos (a * b))
mul_i64 (pos a) (negsuc b) = wrap64 (sub_ℕ 0 (a * (b + 1)))
mul_i64 (negsuc a) (pos b) = wrap64 (sub_ℕ 0 ((a + 1) * b))
mul_i64 (negsuc a) (negsuc b) = wrap64 (pos ((a + 1) * (b + 1)))

unfoldable pub div_100 : ℤ → ℤ
div_100 (pos a) = pos (a / 100)
div_100 (negsuc a) = sub_ℕ 0 ((a + 1) / 100)

unfoldable pub watermark : SetOptions → ℤ
unfolding mul_i64 div_100
watermark o = mul_i64 (div_100 o.disk_budget) o.watermark_pct

unfoldable pub floor_bytes : SetOptions → ℤ
unfolding mul_i64
floor_bytes o = mul_i64 o.shards o.segment_size

unfoldable pub check_options : SetOptions → Option NewError
unfolding watermark floor_bytes
check_options o =
    if ltb_ℤ o.shards (pos 1)
    then some bad_shards
    else if ltb_ℤ o.segment_size (pos 1)
    then some bad_segment_size
    else if not (ltb_ℤ (pos 0) o.window)
    then some bad_window
    else if not (ltb_ℤ (pos 0) o.disk_budget)
    then some bad_disk_budget
    else if not (ltb_ℤ (pos 0) o.watermark_pct) || ltb_ℤ (pos 100) o.watermark_pct
    then some bad_watermark_pct
    else if not (ltb_ℤ (pos 0) o.window_floor) || not (ltb_ℤ o.window_floor o.window)
    then some bad_window_floor
    else if not o.has_now
    then some no_now
    else if not (ltb_ℤ (floor_bytes o) (watermark o))
    then some floor_above_watermark
    else none

-- What New leaves: the shards whose buffers are open, those whose buffers it closed, and its error.
pub record Opened : Type 0 where
  pub open_shards : List ℕ
  pub closed : List ℕ
  pub error : Option NewError

-- The loop that opens a buffer for each shard, from shard `i` on; `opens` says whether a buffer opens.
unfoldable pub open_from : (ℕ → Bool) → ℕ → ℕ → List ℕ → Opened
open_from opens zero i done = record { open_shards = done; closed = []; error = none }
open_from opens (suc n) i done =
    let rest = open_from opens n (i + 1) (done ++ (i ∷ [])) in
    if opens i
    then rest
    else record { open_shards = []; closed = done; error = some (open_failed i) }

unfoldable pub shard_count : ℤ → ℕ
shard_count (pos n) = n
shard_count (negsuc n) = 0

unfoldable pub open_checked : (ℕ → Bool) → ℤ → Option NewError → Opened
unfolding open_from shard_count
open_checked opens shards (some e) = record { open_shards = []; closed = []; error = some e }
open_checked opens shards none = open_from opens (shard_count shards) 0 []

unfoldable pub new_shards : (ℕ → Bool) → SetOptions → Opened
unfolding open_checked check_options
new_shards opens o = open_checked opens o.shards (check_options o)

-- The numbers from `i` on.
abbrev pub range : ℕ → ℕ → List ℕ
range i zero = []
range i (suc n) = i ∷ range (i + 1) n

range-append : (i n : ℕ) → range i n ++ ((i + n) ∷ []) ≡ range i (suc n)
range-append i zero = ap (λ k. k ∷ []) (omega arith)
range-append i (suc n) =
    ap (λ r. i ∷ r) (ap (λ k. range (i + 1) n ++ (k ∷ [])) (omega arith) ∙ range-append (i + 1) n)

-- The buffers before the `i`-th open.
abbrev pub AllOpen : (ℕ → Bool) → ℕ → Type 0
AllOpen opens zero = Unit {0}
AllOpen opens (suc i) = AllOpen opens i × (opens i ≡ true)

-- What a loop over `n` shards leaves: all of them, or none, with those closed that had been opened.
abbrev pub IsOpened : (ℕ → Bool) → ℕ → Opened → Type 0
IsOpened opens n r =
    (AllOpen opens n × (r.error ≡ none) × (r.open_shards ≡ range 0 n) × (r.closed ≡ []))
    ⊎ ((i : ℕ) × (i < n)
        × AllOpen opens i
        × (opens i ≡ false)
        × (r.error ≡ some (open_failed i))
        × (r.open_shards ≡ [])
        × (r.closed ≡ range 0 i))

AllOpen-suc : (opens : ℕ → Bool) (i : ℕ) → AllOpen opens i → opens i ≡ true → AllOpen opens (i + 1)
AllOpen-suc opens i before here =
    let one_more : suc i ≡ i + 1 = omega arith in subst (AllOpen opens) one_more (before, here)

open_from_lem :
    (opens : ℕ → Bool) (n i : ℕ)
    → AllOpen opens i
    → IsOpened opens (i + n) (open_from opens n i (range 0 i))
unfolding open_from
open_from_lem opens zero i before =
    let same : i ≡ i + 0 = omega arith in
    inl (subst (AllOpen opens) same before, refl, ap (range 0) same, refl)
open_from_lem opens (suc n) i before = elim (Bool-cases (opens i)) [
  | inl opened ↦
      let one_more : i + 1 ≡ suc i = omega arith in
      let from_zero : 0 + i ≡ i = omega arith in
      let grown : range 0 (i + 1) ≡ range 0 i ++ (i ∷ []) =
        ap (range 0) one_more
        ∙ sym (range-append 0 i)
        ∙ ap (λ k. range 0 i ++ (k ∷ [])) from_zero in
      rw opened (
        subst (λ m. IsOpened opens m (open_from opens n (i + 1) (range 0 i ++ (i ∷ []))))
          (omega arith)
          (subst (λ done. IsOpened opens (i + 1 + n) (open_from opens n (i + 1) done)) grown
            (open_from_lem opens n (i + 1) (AllOpen-suc opens i before opened))))
  | inr refused ↦ rw refused (inr (i, omega arith, before, refused, refl, refl, refl))
]

-- What each of New's checks asks for, in their order.
abbrev pub IsRight : SetOptions → NewError → Type 0
IsRight o bad_shards = pos 1 ≤ℤ o.shards
IsRight o bad_segment_size = pos 1 ≤ℤ o.segment_size
IsRight o bad_window = pos 0 <ℤ o.window
IsRight o bad_disk_budget = pos 0 <ℤ o.disk_budget
IsRight o bad_watermark_pct = (pos 0 <ℤ o.watermark_pct) × (o.watermark_pct ≤ℤ pos 100)
IsRight o bad_window_floor = (pos 0 <ℤ o.window_floor) × (o.window_floor <ℤ o.window)
IsRight o no_now = o.has_now ≡ true
IsRight o floor_above_watermark = floor_bytes o <ℤ watermark o
IsRight o (open_failed i) = Unit {0}

-- The checks that come before one.
abbrev earlier : NewError → List NewError
earlier bad_shards = []
earlier bad_segment_size = bad_shards ∷ []
earlier bad_window = bad_segment_size ∷ bad_shards ∷ []
earlier bad_disk_budget = bad_window ∷ bad_segment_size ∷ bad_shards ∷ []
earlier bad_watermark_pct = bad_disk_budget ∷ bad_window ∷ bad_segment_size ∷ bad_shards ∷ []
earlier bad_window_floor =
    bad_watermark_pct ∷ bad_disk_budget ∷ bad_window ∷ bad_segment_size ∷ bad_shards ∷ []
earlier no_now =
    bad_window_floor ∷ bad_watermark_pct ∷ bad_disk_budget ∷ bad_window ∷ bad_segment_size
    ∷ bad_shards ∷ []
earlier floor_above_watermark =
    no_now ∷ bad_window_floor ∷ bad_watermark_pct ∷ bad_disk_budget ∷ bad_window ∷ bad_segment_size
    ∷ bad_shards ∷ []
earlier (open_failed i) = []

-- The options that New accepts.
abbrev pub AreGood : SetOptions → Type 0
AreGood o = All (IsRight o) (floor_above_watermark ∷ earlier floor_above_watermark)

-- What is wrong where one check fails.
abbrev pub Fails : SetOptions → NewError → Type 0
Fails o bad_shards = o.shards ≤ℤ pos 0
Fails o bad_segment_size = o.segment_size ≤ℤ pos 0
Fails o bad_window = o.window ≤ℤ pos 0
Fails o bad_disk_budget = o.disk_budget ≤ℤ pos 0
Fails o bad_watermark_pct = (o.watermark_pct ≤ℤ pos 0) ⊎ (pos 100 <ℤ o.watermark_pct)
Fails o bad_window_floor = (o.window_floor ≤ℤ pos 0) ⊎ (o.window ≤ℤ o.window_floor)
Fails o no_now = o.has_now ≡ false
Fails o floor_above_watermark = watermark o ≤ℤ floor_bytes o
Fails o (open_failed i) = ⊥

-- The first check that the options fail.
abbrev pub IsWrong : SetOptions → NewError → Type 0
IsWrong o e = Fails o e × All (IsRight o) (earlier e)

check_options-AreGood : (o : SetOptions) → check_options o ≡ none → AreGood o
unfolding check_options
check_options-AreGood o h = ground (arith, h)

check_options-IsWrong : (o : SetOptions) (e : NewError) → check_options o ≡ some e → IsWrong o e
unfolding check_options
check_options-IsWrong o bad_shards h = ground (arith, h)
check_options-IsWrong o bad_segment_size h = ground (arith, h)
check_options-IsWrong o bad_window h = ground (arith, h)
check_options-IsWrong o bad_disk_budget h = ground (arith, h)
check_options-IsWrong o bad_watermark_pct h = ground (arith, h)
check_options-IsWrong o bad_window_floor h = ground (arith, h)
check_options-IsWrong o no_now h = ground (arith, h)
check_options-IsWrong o floor_above_watermark h = ground (arith, h)
check_options-IsWrong o (open_failed i) h = ground (arith, h)

-- New opens the buffer of each shard, for options that are good, or returns an error and leaves none open: the
-- first of its checks that the options fail, before any was opened, or that of the first buffer that did not open,
-- with all those before it closed.
pub new_shards_lem :
    (opens : ℕ → Bool) (o : SetOptions)
    → let r = new_shards opens o in
      (AreGood o × IsOpened opens (shard_count o.shards) r)
      ⊎ ((e : NewError) × IsWrong o e × (r.error ≡ some e) × (r.open_shards ≡ []) × (r.closed ≡ []))
unfolding new_shards open_checked
new_shards_lem opens o = elim (Option-cases (check_options o)) [
  | inl good ↦ rw good (
      inl (
        check_options-AreGood o good,
        subst (λ m. IsOpened opens m (open_from opens (shard_count o.shards) 0 [])) (omega arith)
            (open_from_lem opens (shard_count o.shards) 0 tt),
      ))
  | inr (e, wrong) ↦ rw wrong (inr (e, check_options-IsWrong o e wrong, refl, refl, refl))
]
