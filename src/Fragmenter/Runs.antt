-- ===== src/Fragmenter/Runs.antt =====
-- internal/fragmenter/spanenc.go: the runs that sizeGroup and putGroup cut a trace's refs into.
use retrosampler.Prelude.{
  ℕ, ◌≡◌, refl, ap, ◌∙◌, arith, List, [], ◌∷◌, ◌++◌, All, Bool-cases, inl, inr, ◌==◌,
}
use retrosampler.Fragmenter.Group.{SpanRef, Run, run_refs, add_to_runs, runs_by}

abbrev pub flatten_runs : List Run → List SpanRef
flatten_runs [] = []
flatten_runs (run ∷ runs) = run_refs run ++ flatten_runs runs

-- All refs of each run agree with its first one in the field.
abbrev pub Agree : (SpanRef → ℕ) → List Run → Type 0
Agree field runs = All (λ run. All (λ r. field r ≡ field run.first) run.others) runs

flatten-add_to_runs :
    (field : SpanRef → ℕ) (r : SpanRef) (runs : List Run)
    → flatten_runs (add_to_runs field r runs) ≡ r ∷ flatten_runs runs
unfolding add_to_runs
flatten-add_to_runs field r [] = refl
flatten-add_to_runs field r (run ∷ runs) = ground arith

All-agree :
    (field : SpanRef → ℕ) (a b : SpanRef) (rs : List SpanRef)
    → field a ≡ field b
    → All (λ r. field r ≡ field a) rs
    → All (λ r. field r ≡ field b) rs
All-agree field a b [] e h = tt
All-agree field a b (r ∷ rs) e h = (h.0 ∙ e, All-agree field a b rs e h.1)

Agree-add_to_runs :
    (field : SpanRef → ℕ) (r : SpanRef) (runs : List Run)
    → Agree field runs
    → Agree field (add_to_runs field r runs)
unfolding add_to_runs
Agree-add_to_runs field r [] h = (tt, tt)
Agree-add_to_runs field r (run ∷ runs) h = elim (Bool-cases (field run.first == field r)) [
  | inl same ↦
      rw same ((ground arith, All-agree field run.first r run.others (ground arith) h.0), h.1)
  | inr new ↦ rw new (tt, h)
]

-- Cutting refs into runs loses none and changes no order, and each run agrees in the field.
pub runs_by_lem :
    (field : SpanRef → ℕ) (refs : List SpanRef)
    → (flatten_runs (runs_by field refs) ≡ refs) × Agree field (runs_by field refs)
unfolding runs_by
runs_by_lem field [] = (refl, tt)
runs_by_lem field (r ∷ refs) =
    let (same, agree) = runs_by_lem field refs in
    (
      flatten-add_to_runs field r (runs_by field refs) ∙ ap (λ t. r ∷ t) same,
      Agree-add_to_runs field r (runs_by field refs) agree,
    )
