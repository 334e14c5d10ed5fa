-- ===== src/Toml/Tables.antt =====
-- A table whose keys are all strings, or all the numbers from 1 on, is exported whole, in whatever
-- order `lua_next` visits it.
use snowcone.Prelude.{
  ℕ, zero, suc, ◌≤◌, ◌≡◌, refl, ap, ◌∙◌, List, [], ◌∷◌, map, arith, length, Shuffle, nothing, keep,
  exchange, both, Shuffle-length, map-Shuffle, Shuffle-Distinct, Distinct, ==_self,
}
use mathlib.Core.Path.{subst}
use snowcone.Toml.{Toml, array, table, no_fields, ok}
use snowcone.Toml.Export.{
  Slot, Interpreter, export_array, export_from, export_table, array_size, is_index,
}
use snowcone.Toml.Export.Loops.{Pair, slot, pair_key, to_fields, export_fields-pairs}
use snowcone.Toml.Export.Arrays.{
  index_key, count_up, array_slots, to_items, keys-array_slots, array_slots-Finds,
  array_items-Finds, array_size-Shuffle,
}

Shuffle-map {ℓ κ} :
    {A : Type ℓ} {B : Type κ} (f : A → B) {xs ys : List A}
    → Shuffle xs ys
    → Shuffle (map f xs) (map f ys)
Shuffle-map f nothing = nothing
Shuffle-map f (keep x s) = keep (f x) (Shuffle-map f s)
Shuffle-map f (exchange x y xs) = exchange (f x) (f y) (map f xs)
Shuffle-map f (both s t) = both (Shuffle-map f s) (Shuffle-map f t)

-- Wherever the visit begins, an array is seen to be one.
export_from-array :
    (lua : Interpreter) (fuel : ℕ) (visited slots : List Slot) (is : List ℕ) (n : ℕ)
    → map (λ (s : Slot). s.key) visited ≡ map index_key is
    → length is ≡ suc n
    → export_from lua fuel visited slots ≡ export_array visited slots
export_from-array lua fuel [] slots [] n e h = absurd (omega arith)
export_from-array lua fuel [] slots (i ∷ is) n e h = absurd (cc)
export_from-array lua fuel (s ∷ visited) slots [] n e h = absurd (cc)
export_from-array lua fuel (s ∷ visited) slots (i ∷ is) n e h =
    let first_key : s.key ≡ index_key i = cc in rw (ap is_index first_key) refl

module _ (lua : Interpreter) (visits : (slots : List Slot) → Shuffle slots (lua.order slots)) where
  pub export_table-array :
      (fuel : ℕ) (v : Toml) (vs : List Toml)
      → export_table lua fuel (array_slots 0 (v ∷ vs)) ≡ ok (array (to_items (v ∷ vs)))
  unfolding export_table
  export_table-array fuel v vs =
      let slots : List Slot = array_slots 0 (v ∷ vs) in
      let visited : List Slot = lua.order slots in
      let keys : Shuffle (map index_key (count_up (suc (length vs)) 0))
          (map (λ (s : Slot). s.key) visited) =
        subst (λ ks. Shuffle ks (map (λ (s : Slot). s.key) visited)) (keys-array_slots 0 (v ∷ vs))
          (Shuffle-map (λ (s : Slot). s.key) (visits slots)) in
      let (is, e, s) = map-Shuffle index_key (count_up (suc (length vs)) 0) keys in
      let sized : array_size (map (λ (s : Slot). s.key) visited) 0 0
          ≡ ok (suc (length vs), suc (length vs)) =
        ap (λ ks. array_size ks 0 0) e ∙ array_size-Shuffle (length vs) s in
      export_from-array lua fuel visited slots is (length vs) e
        (Shuffle-length s ∙ length-keys (length vs) 0)
      ∙ export_array-sized visited slots sized
    where
      length-keys : (n i : ℕ) → length (count_up (suc n) i) ≡ suc n
      length-keys zero i = refl
      length-keys (suc n) i = ap suc (length-keys n (suc i))

      export_array-sized :
          (visited slots : List Slot)
          → array_size (map (λ (s : Slot). s.key) visited) 0 0
            ≡ ok (suc (length vs), suc (length vs))
          → export_array visited (array_slots 0 (v ∷ vs)) ≡ ok (array (to_items (v ∷ vs)))
      export_array-sized visited slots sized =
          rw (sized, ==_self (suc (length vs)))
            (rw
              (array_items-Finds (array_slots 0 (v ∷ vs)) 0 (v ∷ vs) (array_slots-Finds 0 (v ∷ vs)))
              refl)

  export_from-fields :
      (fuel : ℕ) (pairs : List Pair) (slots : List Slot)
      → length pairs ≤ fuel
      → Distinct pair_key pairs
      → export_from lua fuel (map slot pairs) slots ≡ ok (table (to_fields pairs))
  export_from-fields fuel [] slots h d = refl
  export_from-fields fuel ((k, v) ∷ pairs) slots h d =
      rw (export_fields-pairs lua pairs [] k v fuel (omega arith) d) refl

  pub export_table-fields :
      (fuel : ℕ) (pairs : List Pair)
      → length pairs ≤ fuel
      → Distinct pair_key pairs
      → (visited : List Pair) × Shuffle pairs visited
        × (export_table lua fuel (map slot pairs) ≡ ok (table (to_fields visited)))
  unfolding export_table
  export_table-fields fuel pairs h d =
      let (visited, e, s) = map-Shuffle slot pairs (visits (map slot pairs)) in
      let fits : length visited ≤ fuel = omega (arith, Shuffle-length s) in
      (
        visited,
        s,
        ap (λ t. export_from lua fuel t (map slot pairs)) e
            ∙ export_from-fields fuel visited (map slot pairs) fits (Shuffle-Distinct pair_key s d),
      )

  pub export_table-empty : (fuel : ℕ) → export_table lua fuel [] ≡ ok (table no_fields)
  export_table-empty fuel =
      let (visited, s, e) = export_table-fields fuel [] (omega arith) tt in
      let none_left : visited ≡ [] = is_nil visited (Shuffle-length s) in
      e ∙ ap (λ t. ok (table (to_fields t))) none_left
    where
      is_nil : (ps : List Pair) → length ps ≡ 0 → ps ≡ []
      is_nil [] h = refl
      is_nil (p ∷ ps) h = absurd (omega arith)
