-- ===== src/Toml/Export/Loops.antt =====
-- The loop over a table whose keys are different strings.
use snowcone.Prelude.{
  ℕ, zero, suc, ◌<◌, ◌≡◌, ◌≢◌, refl, sym, ap, ◌∙◌, Bool-cases, inl, inr, false, List, [], ◌∷◌, ◌++◌,
  append_assoc, map, Bytes, same, same-eq, same_self, arith, length, All, All-of_append, Distinct,
}
use mathlib.Core.Path.{subst}
use snowcone.Toml.{Toml, Fields, no_fields, field, name, ok}
use snowcone.Toml.Export.{Slot, Interpreter, next, first, emplace, export_fields, follow}

abbrev pub Pair : Type 0
Pair = Bytes × Toml

abbrev pub slot : Pair → Slot
slot (k, v) = record { key = name k; exported = ok v }

abbrev pub pair_key : Pair → Bytes
pair_key (k, v) = k

abbrev pub to_fields : List Pair → Fields
to_fields [] = no_fields
to_fields ((k, v) ∷ pairs) = field k v (to_fields pairs)

pub same_ne : (s t : Bytes) → s ≢ t → same s t ≡ false
same_ne s t h = elim (Bool-cases (same s t)) [ inl e ↦ absurd (h (same-eq s t e)) | inr e ↦ e ]

abbrev IsFresh : Bytes → List Pair → Type 0
IsFresh k = All (λ p. pair_key p ≢ k)

IsFresh-append :
    (pre : List Pair) (k : Bytes) (v : Toml) (post : List Pair)
    → Distinct pair_key (pre ++ (k, v) ∷ post)
    → IsFresh k pre
IsFresh-append [] k v post h = tt
IsFresh-append ((j, w) ∷ pre) k v post (others, h) =
    let (_, rest) = All-of_append (λ p. pair_key p ≢ j) pre ((k, v) ∷ post) others in
    (λ e. rest.0 (sym e), IsFresh-append pre k v post h)

next-found :
    (pre : List Pair) (k : Bytes) (v : Toml) (post : List Pair)
    → IsFresh k pre
    → next (name k) (map slot (pre ++ (k, v) ∷ post)) ≡ first (map slot post)
unfolding next
next-found [] k v post h = rw (same_self k) refl
next-found ((j, w) ∷ pre) k v post (other, h) = rw (same_ne j k other) (next-found pre k v post h)

emplace-fresh :
    (k : Bytes) (v : Toml) (pre : List Pair)
    → IsFresh k pre
    → emplace k v (to_fields pre) ≡ to_fields (pre ++ (k, v) ∷ [])
unfolding emplace
emplace-fresh k v [] h = refl
emplace-fresh k v ((j, w) ∷ pre) (other, h) =
    rw (same_ne j k other) (ap (field j w) (emplace-fresh k v pre h))

module _ (lua : Interpreter) where
  export_fields_step :
      (fuel : ℕ) (pre : List Pair) (k : Bytes) (v : Toml) (post : List Pair)
      → Distinct pair_key (pre ++ (k, v) ∷ post)
      → export_fields lua (suc fuel) (map slot (pre ++ (k, v) ∷ post)) (slot (k, v)) (to_fields pre)
        ≡ follow lua
            (first (map slot post))
            (λ s t. export_fields lua fuel (map slot (pre ++ (k, v) ∷ post)) s t)
            (to_fields (pre ++ (k, v) ∷ []))
  unfolding export_fields
  export_fields_step fuel pre k v post h =
      let fresh = IsFresh-append pre k v post h in
      rw (next-found pre k v post fresh, emplace-fresh k v pre fresh) refl

  -- The loop takes every entry, in order.
  pub export_fields-pairs :
      (post pre : List Pair) (k : Bytes) (v : Toml) (fuel : ℕ)
      → length post < fuel
      → Distinct pair_key (pre ++ (k, v) ∷ post)
      → export_fields lua fuel (map slot (pre ++ (k, v) ∷ post)) (slot (k, v)) (to_fields pre)
        ≡ ok (to_fields (pre ++ (k, v) ∷ post))
  export_fields-pairs post pre k v zero h d = absurd (omega arith)
  export_fields-pairs [] pre k v (suc fuel) h d = export_fields_step fuel pre k v [] d
  export_fields-pairs ((j, w) ∷ post) pre k v (suc fuel) h d =
      let joined : (pre ++ (k, v) ∷ []) ++ (j, w) ∷ post ≡ pre ++ (k, v) ∷ (j, w) ∷ post =
        append_assoc pre ((k, v) ∷ []) ((j, w) ∷ post) in
      export_fields_step fuel pre k v ((j, w) ∷ post) d
      ∙ subst
          (λ all.
            Distinct pair_key all
            → export_fields lua fuel (map slot all) (slot (j, w)) (to_fields (pre ++ (k, v) ∷ []))
              ≡ ok (to_fields all))
          joined (λ e. export_fields-pairs post (pre ++ (k, v) ∷ []) j w fuel (omega arith) e) d
