-- ===== src/Fragmenter/Batch/Groups.antt =====
-- internal/fragmenter/fragmenter.go: the groups of the spans seen so far.
use mathlib.Core.Path.{subst}
use native.Mathlib.Decide.{ℕ_discrete}
use retrosampler.Prelude.{
  ℕ, ◌+◌, ◌<◌, ◌≡◌, ◌≢◌, sym, ap, ◌∙◌, arith, false, List, [], ◌∷◌, ◌++◌, none, some, append-nil,
}
use retrosampler.Prelude.{
  length, length-append, get_or, get_or-append_lt, get_or-append_length, length-set_at, bytes_eq,
  bytes_eq_iff, bytes_eq_refl,
}
use retrosampler.Prelude.Bytes.{Bytes}
use retrosampler.Fragmenter.Group.{SpanRef}
use retrosampler.Fragmenter.Batch.Defs.{no_ref, set_next}
use retrosampler.Fragmenter.Batch.Chains.{
  positions, positions-append, Chain, last, Chain-mono, Chain-append, next_at, next_at-append,
  next_at-set,
}

-- The chain of a trace: from its head to its tail over all the positions of its id.
pub record IsTrace (xs : List Bytes) (refs : List SpanRef) (id : Bytes) (h t : ℕ) : Type 0 where
  pub others : List ℕ
  pub whole : positions id xs ≡ h ∷ others
  pub way : Chain refs h others t
  pub end : next_at refs t ≡ none
  pub inside : t < length refs
  pub mine : get_or [] xs t ≡ id

pub IsTrace-at :
    {xs : List Bytes} {refs : List SpanRef} {id id' : Bytes} {h h' t t' : ℕ}
    → id ≡ id'
    → h ≡ h'
    → t ≡ t'
    → IsTrace xs refs id h t
    → IsTrace xs refs id' h' t'
IsTrace-at {xs} {refs} {id} {id'} {h} {h'} {t} {t'} a b c x =
    subst (λ u. IsTrace xs refs id' h' u) c
      (subst (λ u. IsTrace xs refs id' u t) b (subst (λ u. IsTrace xs refs u h t) a x))

-- A span of another trace.
pub IsTrace-append :
    (xs : List Bytes) (refs : List SpanRef) (id x : Bytes) (h t : ℕ) (r : SpanRef)
    → length refs ≡ length xs
    → id ≢ x
    → IsTrace xs refs id h t
    → IsTrace (xs ++ (x ∷ [])) (refs ++ (r ∷ [])) id h t
IsTrace-append xs refs id x h t r len other tr =
    let apart : bytes_eq x id ≡ false = ground (arith, bytes_eq_iff x id, other) in
    record {
      others = tr.others;
      whole =
          ground (arith, positions-append id xs x, apart, append-nil (positions id xs), tr.whole);
      way = Chain-mono (next_at-append refs r) tr.way;
      end = ap (λ y. y.next) (get_or-append_lt no_ref refs (r ∷ []) t tr.inside) ∙ tr.end;
      inside = omega (arith, tr.inside, length-append refs (r ∷ []));
      mine = get_or-append_lt [] xs (x ∷ []) t (omega (arith, tr.inside, len)) ∙ tr.mine;
    }

pub length-set_next : (t r : ℕ) (refs : List SpanRef) → length (set_next t r refs) ≡ length refs
unfolding set_next
length-set_next t r refs = length-set_at t _ refs

-- A link that is set where there was none keeps the links that are set.
set_next-keeps :
    (refs : List SpanRef) (t r : ℕ)
    → t < length refs
    → next_at refs t ≡ none
    → (k j : ℕ) → next_at refs k ≡ some j
    → next_at (set_next t r refs) k ≡ some j
set_next-keeps refs t r lt e k j f = elim (ℕ_discrete t k) [
  | yes here ↦ absurd (ground (arith, ap (next_at refs) here, e, f))
  | no apart ↦ ground (arith, next_at-set refs t r k lt, apart, f)
]

-- A link from the tail of another trace.
pub IsTrace-set :
    (xs : List Bytes) (refs : List SpanRef) (id : Bytes) (h t u r : ℕ)
    → u < length refs
    → next_at refs u ≡ none
    → u ≢ t
    → IsTrace xs refs id h t
    → IsTrace xs (set_next u r refs) id h t
IsTrace-set xs refs id h t u r lt e apart tr = record {
  others = tr.others;
  whole = tr.whole;
  way = Chain-mono (set_next-keeps refs u r lt e) tr.way;
  end = ground (arith, next_at-set refs u r t lt, apart, tr.end);
  inside = omega (arith, tr.inside, length-set_next u r refs);
  mine = tr.mine;
}

-- A span of the trace itself is linked from its tail.
pub IsTrace-extend :
    (xs : List Bytes) (refs : List SpanRef) (id : Bytes) (h t : ℕ) (r : SpanRef)
    → length refs ≡ length xs
    → r.next ≡ none
    → IsTrace xs refs id h t
    → IsTrace (xs ++ (id ∷ [])) (set_next t (length refs) (refs ++ (r ∷ []))) id h (length refs)
IsTrace-extend xs refs id h t r len fresh tr =
    let n = length refs in
    let refs1 = refs ++ (r ∷ []) in
    let len1 : length refs1 ≡ n + 1 = length-append refs (r ∷ []) in
    let end1 : next_at refs1 t ≡ none =
      ap (λ y. y.next) (get_or-append_lt no_ref refs (r ∷ []) t tr.inside) ∙ tr.end in
    let in1 : t < length refs1 = omega (arith, tr.inside, len1) in
    let linked : next_at (set_next t n refs1) t ≡ some n =
      ground (arith, next_at-set refs1 t n t in1) in
    let newest : next_at refs1 n ≡ none =
      ap (λ y. y.next) (get_or-append_length no_ref r refs) ∙ fresh in
    record {
      others = tr.others ++ (n ∷ []);
      whole = ground (arith, positions-append id xs id, bytes_eq_refl id, tr.whole, len);
      way =
          Chain-append n
            (Chain-mono
              (λ k j f. set_next-keeps refs1 t n in1 end1 k j (next_at-append refs r k j f)) tr.way)
            linked;
      end = ground (arith, next_at-set refs1 t n n in1, tr.inside, newest);
      inside = omega (arith, len1, length-set_next t n refs1);
      mine =
          subst (λ k. get_or [] (xs ++ (id ∷ [])) k ≡ id) (sym len) (get_or-append_length [] id xs);
    }

-- The first span of a trace.
pub IsTrace-new :
    (xs : List Bytes) (refs : List SpanRef) (id : Bytes) (r : SpanRef)
    → length refs ≡ length xs
    → r.next ≡ none
    → positions id xs ≡ []
    → IsTrace (xs ++ (id ∷ [])) (refs ++ (r ∷ [])) id (length refs) (length refs)
IsTrace-new xs refs id r len fresh unseen = record {
  others = [];
  whole = ground (arith, positions-append id xs id, bytes_eq_refl id, unseen, len);
  way = last (length refs);
  end = ap (λ y. y.next) (get_or-append_length no_ref r refs) ∙ fresh;
  inside = omega (arith, length-append refs (r ∷ []));
  mine = subst (λ k. get_or [] (xs ++ (id ∷ [])) k ≡ id) (sym len) (get_or-append_length [] id xs);
}
