-- ===== src/Shards/Decided/Runs.antt =====
-- internal/shards/decided.go: what a caller sees of a run of operations.
use retrosampler.Prelude.{
  ℕ, ◌+◌, ◌-◌, ◌^◌, ◌≤◌, ◌<◌, ◌≡◌, refl, ap, ◌∙◌, arith, Bool, List, [], ◌∷◌, length,
}
use retrosampler.Prelude.Bytes.{Bytes}
use retrosampler.Prelude.Ints.{ℤ}
use retrosampler.Shards.Decided.Defs.{Entry, DecidedSet, new_decided_set, mark, has, evict}
use retrosampler.Shards.Decided.Live.{IsIntact, live_entries, is_member, has-is_member}
use retrosampler.Shards.Decided.Rehash.{new_decided_set-IsIntact}
use retrosampler.Shards.Decided.Refine.{list_mark, list_evict, issued, mark_lem, evict_lem}

pub data Call : Type 0 where
  marks : Bytes → ℤ → Call
  asks : Bytes → Call
  evicts : ℤ → Call

pub data Answer : Type 0 where
  truth : Bool → Answer
  number : ℕ → Answer

unfoldable pub call : Call → DecidedSet → Answer × DecidedSet
call (marks id deadline) d = let r = mark d id deadline in (truth r.0, r.1)
call (asks id) d = (truth (has d id), d)
call (evicts now) d = let r = evict now d in (number r.0, r.1)

-- The same calls on a list of entries.
unfoldable pub list_call : Call → List Entry → Answer × List Entry
list_call (marks id deadline) es = let r = list_mark id deadline es in (truth r.0, r.1)
list_call (asks id) es = (truth (is_member id es), es)
list_call (evicts now) es = let r = list_evict now es in (number r.0, r.1)

unfoldable pub answers : List Call → DecidedSet → List Answer
unfolding call
answers [] d = []
answers (c ∷ cs) d = let r = call c d in r.0 ∷ answers cs r.1

unfoldable pub list_answers : List Call → List Entry → List Answer
unfolding list_call
list_answers [] es = []
list_answers (c ∷ cs) es = let r = list_call c es in r.0 ∷ list_answers cs r.1

call_lem :
    (c : Call) (d : DecidedSet)
    → IsIntact d
    → issued d + 1 < 2 ^ 64 - 2
    → let r = call c d in
      IsIntact r.1
      × ((r.0, live_entries r.1) ≡ list_call c (live_entries d))
      × (issued r.1 ≤ issued d + 1)
unfolding call list_call
call_lem (marks id deadline) d t small =
    let (a, b, c) = mark_lem d id deadline t small in (a, ap (λ r. (truth r.0, r.1)) b, c)
call_lem (asks id) d t small =
    (t, ap (λ b. (truth b, live_entries d)) (has-is_member d id t), omega arith)
call_lem (evicts now) d t small =
    let (a, b, c) = evict_lem d now t in (a, ap (λ r. (number r.0, r.1)) b, omega (arith, c))

answers_from :
    (cs : List Call) (d : DecidedSet)
    → IsIntact d
    → issued d + length cs < 2 ^ 64 - 2
    → answers cs d ≡ list_answers cs (live_entries d)
unfolding answers list_answers
answers_from [] d t small = refl
answers_from (c ∷ cs) d t small =
    let (a, b, e) = call_lem c d t (omega (arith, small)) in
    let r = call c d in
    ap (λ s. r.0 ∷ s) (answers_from cs r.1 a (omega (arith, e, small)))
    ∙ ap (λ s. s.0 ∷ list_answers cs s.1) b

-- From an empty set, and for fewer than 2 ^ 64 - 2 calls, every answer is the one that a plain list of entries
-- gives.
pub answers_lem :
    (cs : List Call) → length cs < 2 ^ 64 - 2 → answers cs new_decided_set ≡ list_answers cs []
unfolding new_decided_set
answers_lem cs small =
    answers_from cs new_decided_set new_decided_set-IsIntact (omega (arith, small))
