-- ===== src/Toml/Export/Arrays.antt =====
-- The loops over a table whose keys are the numbers from 1 on, in any order.
use snowcone.Prelude.{
  ℕ, zero, suc, ◌+◌, ◌<◌, ◌≡◌, refl, ap, ◌∙◌, List, [], ◌∷◌, map, pos, ltb, ==_self, if◌then◌else◌,
  arith, length, Shuffle, nothing, keep, exchange, both, Shuffle-length,
}
use snowcone.Toml.{Toml, Items, no_items, item, Key, index, ok}
use snowcone.Toml.Export.{Slot, geti, array_size, array_items}

-- The key with the index `suc i`.
abbrev pub index_key : ℕ → Key
index_key i = index (pos (suc i))

abbrev pub max : ℕ → ℕ → ℕ
max a b = if ltb a b then b else a

abbrev pub greatest : List ℕ → ℕ
greatest [] = 0
greatest (i ∷ is) = max (suc i) (greatest is)

greatest-Shuffle : {is js : List ℕ} → Shuffle is js → greatest js ≡ greatest is
greatest-Shuffle nothing = refl
greatest-Shuffle (keep i s) = ap (max (suc i)) (greatest-Shuffle s)
greatest-Shuffle (exchange i j is) = ground arith
greatest-Shuffle (both s t) = greatest-Shuffle t ∙ greatest-Shuffle s

-- The first loop counts the keys and finds the greatest.
pub array_size-keys :
    (is : List ℕ) (entries max_key : ℕ)
    → array_size (map index_key is) entries max_key
      ≡ ok (entries + length is, max max_key (greatest is))
unfolding array_size
array_size-keys [] entries max_key = ground arith
array_size-keys (i ∷ is) entries max_key =
    array_size-keys is (suc entries) (max max_key (suc i)) ∙ ground arith

-- The indices of an array of `n` elements.
abbrev pub count_up : ℕ → ℕ → List ℕ
count_up zero i = []
count_up (suc n) i = i ∷ count_up n (suc i)

abbrev pub array_slots : ℕ → List Toml → List Slot
array_slots i [] = []
array_slots i (v ∷ vs) = record { key = index_key i; exported = ok v } ∷ array_slots (suc i) vs

abbrev pub to_items : List Toml → Items
to_items [] = no_items
to_items (v ∷ vs) = item v (to_items vs)

pub keys-array_slots :
    (i : ℕ) (vs : List Toml)
    → map (λ s. s.key) (array_slots i vs) ≡ map index_key (count_up (length vs) i)
keys-array_slots i [] = refl
keys-array_slots i (v ∷ vs) = ap (λ t. index_key i ∷ t) (keys-array_slots (suc i) vs)

length-count_up : (n i : ℕ) → length (count_up n i) ≡ n
length-count_up zero i = refl
length-count_up (suc n) i = ap suc (length-count_up n (suc i))

greatest-count_up : (n i : ℕ) → greatest (count_up (suc n) i) ≡ suc (i + n)
greatest-count_up zero i = ground arith
greatest-count_up (suc n) i = ground (arith, greatest-count_up n (suc i))

-- An element of the table is found under its index, whatever stands before it.
abbrev pub Finds : List Slot → ℕ → List Toml → Type 0
Finds slots i [] = Unit
Finds slots i (v ∷ vs) = (geti (suc i) slots ≡ ok v) × Finds slots (suc i) vs

geti-skip :
    (i j : ℕ) (v : Toml) (slots : List Slot)
    → j < i
    → geti (suc i) (record { key = index_key j; exported = ok v } ∷ slots) ≡ geti (suc i) slots
unfolding geti
geti-skip i j v slots h = ground arith

Finds-skip :
    (i j : ℕ) (v : Toml) (slots : List Slot) (vs : List Toml)
    → j < i
    → Finds slots i vs
    → Finds (record { key = index_key j; exported = ok v } ∷ slots) i vs
Finds-skip i j v slots [] h f = tt
Finds-skip i j v slots (w ∷ vs) h (e, f) =
    (geti-skip i j v slots h ∙ e, Finds-skip (suc i) j v slots vs (omega arith) f)

pub array_slots-Finds : (i : ℕ) (vs : List Toml) → Finds (array_slots i vs) i vs
unfolding geti
array_slots-Finds i [] = tt
array_slots-Finds i (v ∷ vs) = (
  rw (==_self (suc i)) refl,
  Finds-skip (suc i) i v (array_slots (suc i) vs) vs (omega arith) (array_slots-Finds (suc i) vs),
)

-- The second loop reads them in the order of their indices.
pub array_items-Finds :
    (slots : List Slot) (i : ℕ) (vs : List Toml)
    → Finds slots i vs
    → array_items (length vs) (suc i) slots ≡ ok (to_items vs)
unfolding array_items
array_items-Finds slots i [] f = refl
array_items-Finds slots i (v ∷ vs) (e, f) = rw e (rw (array_items-Finds slots (suc i) vs f) refl)

-- So the first loop finds no gap, in whatever order it visits the keys.
pub array_size-Shuffle :
    (n : ℕ) {is : List ℕ}
    → Shuffle (count_up (suc n) 0) is
    → array_size (map index_key is) 0 0 ≡ ok (suc n, suc n)
array_size-Shuffle n {is} s =
    let long : length is ≡ suc n = Shuffle-length s ∙ length-count_up (suc n) 0 in
    let top : greatest is ≡ suc n = greatest-Shuffle s ∙ (greatest-count_up n 0 ∙ omega arith) in
    array_size-keys is 0 0 ∙ rw (long, top) (ground arith)
