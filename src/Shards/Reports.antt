-- ===== src/Shards/Reports.antt =====
-- internal/shards/shards.go: the default of the tick, and what the Set reports of its shards.
use mathlib.Core.Path.{subst}
use retrosampler.Prelude.{◌≡◌, refl, sym, ap, ◌∙◌, Bool, ◌^◌, arith, List, [], ◌∷◌}
use retrosampler.Prelude.{Bool-cases, inl, inr, if◌then◌else◌, All}
use retrosampler.Prelude.Ints.{ℤ, pos, ltb_ℤ, ◌≤ℤ◌, ◌+ℤ◌}

-- `if opts.Tick <= 0 { opts.Tick = defaultTick }`
unfoldable pub tick_or_default : ℤ → ℤ
tick_or_default tick = if ltb_ℤ (pos 0) tick then tick else pos (10 ^ 9)

-- The loop of PendingFlushes and of DecidedEntries, over what each shard has published.
unfoldable pub sum_of : List ℤ → ℤ → ℤ
sum_of [] n = n
sum_of (v ∷ vs) n = sum_of vs (n +ℤ v)

-- The loop of EffectiveWindow, over the windows of the shards.
unfoldable pub least_window : List ℤ → ℤ → ℤ
least_window [] m = m
least_window (w ∷ ws) m = least_window ws (if ltb_ℤ w m then w else m)

-- It reports a window that is no larger than the configured one nor that of any shard.
pub least_window-IsLeast :
    (ws : List ℤ) (m : ℤ) → (least_window ws m ≤ℤ m) × All (λ w. least_window ws m ≤ℤ w) ws
unfolding least_window
least_window-IsLeast [] m = (omega arith, tt)
least_window-IsLeast (w ∷ ws) m =
    let next = λ (t : Bool). least_window ws (if t then w else m) in
    let start : least_window (w ∷ ws) m ≡ next (ltb_ℤ w m) = refl in
    let Bounds = λ (x : ℤ). (x ≤ℤ m) × ((x ≤ℤ w) × All (λ v. x ≤ℤ v) ws) in
    elim (Bool-cases (ltb_ℤ w m)) [
      | inl less ↦
          let (below, all) = least_window-IsLeast ws w in
          subst Bounds (sym (start ∙ ap next less)) (ground (arith, less, below), (below, all))
      | inr more ↦
          let (below, all) = least_window-IsLeast ws m in
          subst Bounds (sym (start ∙ ap next more)) (below, (ground (arith, more, below), all))
    ]
