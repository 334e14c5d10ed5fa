-- ===== src/Toml/Gaps.antt =====
-- The test on the size of an array leaves no gap.
use snowcone.Prelude.{
  ℕ, zero, suc, ◌+◌, ◌≤◌, ◌<◌, ◌≡◌, ◌≢◌, refl, sym, ap, ◌∙◌, ◌⊎◌, inl, inr, List, [], ◌∷◌, map,
  arith, length, All, ltb, if◌then◌else◌, Shuffle, keep, exchange, both, Shuffle_self,
  Shuffle-length, Shuffle-All, Shuffle-Distinct, Holds, Distinct, pos, neg,
}
use native.Mathlib.Decide.{ℕ_discrete}
use snowcone.Toml.{Key, index, real, name, object, Result, ok}
use snowcone.Toml.Export.{array_size, array_index}
use snowcone.Toml.Export.Arrays.{index_key, greatest, max, array_size-keys}
use snowcone.Toml.RoundTrip.{>>=-ok}

abbrev number : ℕ → ℕ
number i = i

abbrev Differ : List ℕ → Type 0
Differ = Distinct number

-- A number is in a list, or differs from all of them.
held_or_not : (a : ℕ) (is : List ℕ) → Holds is a ⊎ All (λ i. i ≢ a) is
held_or_not a [] = inr tt
held_or_not a (i ∷ is) = elim (ℕ_discrete i a) [
  | yes e ↦ inl (inl e)
  | no ne ↦ elim (held_or_not a is) [ inl h ↦ inl (inr h) | inr h ↦ inr (ne, h) ]
]

-- What a list holds can stand first.
to_front : (a : ℕ) (is : List ℕ) → Holds is a → (rest : List ℕ) × Shuffle is (a ∷ rest)
to_front a [] h = absurd h
to_front a (i ∷ is) (inl e) = (is, rw e (Shuffle_self (a ∷ is)))
to_front a (i ∷ is) (inr h) =
    let (rest, s) = to_front a is h in (i ∷ rest, both (keep i s) (exchange i a rest))

narrow : (n : ℕ) (is : List ℕ) → All (λ i. i ≢ n) is → All (λ i. i < suc n) is → All (λ i. i < n) is
narrow n [] other below = tt
narrow n (i ∷ is) (ne, other) (h, below) = (ground arith, narrow n is other below)

-- Different numbers below `n` are at most `n`.
length-le_bound : (n : ℕ) (is : List ℕ) → Differ is → All (λ i. i < n) is → length is ≤ n
length-le_bound zero [] d below = omega arith
length-le_bound zero (i ∷ is) d (h, below) = absurd (omega arith)
length-le_bound (suc n) is d below = elim (held_or_not n is) [
  | inl h ↦
      let (rest, s) = to_front n is h in
      let (other, d') = Shuffle-Distinct number s d in
      let (_, below') = Shuffle-All (λ i. i < suc n) s below in
      let shorter = length-le_bound n rest d' (narrow n rest other below') in
      omega (arith, Shuffle-length s)
  | inr other ↦ let shorter = length-le_bound n is d (narrow n is other below) in omega arith
]

-- And `n` of them are all of them.
fills_up :
    (n : ℕ) (is : List ℕ)
    → Differ is
    → All (λ i. i < n) is
    → length is ≡ n
    → (i : ℕ) → i < n
    → Holds is i
fills_up zero is d below e i h = absurd (omega arith)
fills_up (suc n) is d below e i h = elim (held_or_not i is) [
  | inl held ↦ held
  | inr other ↦ elim (held_or_not n is) [
    | inl held ↦
        let (rest, s) = to_front n is held in
        let (others, d') = Shuffle-Distinct number s d in
        let (_, below') = Shuffle-All (λ j. j < suc n) s below in
        let (ne, other') = Shuffle-All (λ j. j ≢ i) s other in
        absurd (
          lacks rest i other' (
            fills_up n rest d' (narrow n rest others below') (omega (arith, Shuffle-length s)) i
              (ground arith)))
    | inr others ↦
        let shorter = length-le_bound n is d (narrow n is others below) in absurd (omega arith)
  ]
]
  where
    lacks : (js : List ℕ) (a : ℕ) → All (λ j. j ≢ a) js → Holds js a → ⊥
    lacks [] a other held = held
    lacks (j ∷ js) a (ne, other) (inl q) = ne q
    lacks (j ∷ js) a (ne, other) (inr held) = lacks js a other held

Differ-indices : (is : List ℕ) → Distinct (λ (k : Key). k) (map index_key is) → Differ is
Differ-indices [] d = tt
Differ-indices (i ∷ is) (other, d) = (differ is other, Differ-indices is d)
  where
    differ : (js : List ℕ) → All (λ k. k ≢ index_key i) (map index_key js) → All (λ j. j ≢ i) js
    differ [] h = tt
    differ (j ∷ js) (ne, h) = (λ e. ne (ap index_key e), differ js h)

below_greatest : (is : List ℕ) (n : ℕ) → greatest is ≤ n → All (λ i. i < n) is
below_greatest [] n h = tt
below_greatest (i ∷ is) n h = (ground arith, below_greatest is n (ground arith))

array_index-ok : (k : Key) (i : ℕ) → array_index k ≡ ok i → (j : ℕ) × (k ≡ index_key j)
unfolding array_index
array_index-ok (index (pos zero)) i e = absurd (cc)
array_index-ok (index (pos (suc j))) i e = (j, refl)
array_index-ok (index (neg j)) i e = absurd (cc)
array_index-ok (real x) i e = absurd (cc)
array_index-ok (name s) i e = absurd (cc)
array_index-ok (object o) i e = absurd (cc)

-- The first loop accepts positive integers only.
array_size-indices :
    (ks : List Key) (entries max_key : ℕ) (sizes : ℕ × ℕ)
    → array_size ks entries max_key ≡ ok sizes
    → (is : List ℕ) × (ks ≡ map index_key is)
unfolding array_size
array_size-indices [] entries max_key sizes e = ([], refl)
array_size-indices (k ∷ ks) entries max_key sizes e =
    let (i, accepted, e') =
      >>=-ok (array_index k)
        (λ i. array_size ks (suc entries) (if ltb max_key i then i else max_key)) e in
    let (j, first_key) = array_index-ok k i accepted in
    let (is, others) =
      array_size-indices ks (suc entries) (if ltb max_key i then i else max_key) sizes e' in
    (j ∷ is, cc)

Holds-map : (is : List ℕ) (i : ℕ) → Holds is i → Holds (map index_key is) (index_key i)
Holds-map [] i h = h
Holds-map (j ∷ is) i (inl e) = inl (ap index_key e)
Holds-map (j ∷ is) i (inr h) = inr (Holds-map is i h)

-- If the keys of a table differ and the first loop over them counts as many as the greatest of
-- them: the keys are just the integers from 1 to their number, so the second loop finds an entry
-- for each index and leaves none out.
pub array_size-fills :
    (ks : List Key) (n : ℕ)
    → Distinct (λ (k : Key). k) ks
    → array_size ks 0 0 ≡ ok (n, n)
    → (length ks ≡ n) × ((i : ℕ) → i < n → Holds ks (index_key i))
array_size-fills ks n d e =
    let (is, keys) = array_size-indices ks 0 0 (n, n) e in
    let sized : ◌≡◌ {A = Result (ℕ × ℕ)} (ok (0 + length is, max 0 (greatest is))) (ok (n, n)) =
      sym (array_size-keys is 0 0) ∙ (ap (λ t. array_size t 0 0) (sym keys) ∙ e) in
    let long : 0 + length is ≡ n = cc in
    let top : max 0 (greatest is) ≡ n = cc in
    let differ : Differ is = Differ-indices is (rw (← keys) d) in
    let below : All (λ i. i < n) is = below_greatest is n (ground arith) in
    (
      rw keys (length-map is ∙ omega arith),
      λ i h. rw keys (Holds-map is i (fills_up n is differ below (omega arith) i h)),
    )
  where
    length-map : (js : List ℕ) → length (map index_key js) ≡ length js
    length-map [] = refl
    length-map (j ∷ js) = ap suc (length-map js)
