-- ===== src/Toml/Numbers.antt =====
-- Tables with strings and numbers among their keys.
use snowcone.Prelude.{
  inl, inr, Bool-cases, ℕ, zero, suc, ◌≡◌, refl, ap, ◌∙◌, true, false, List, [], ◌∷◌, Bytes,
  Integer, same, same_self, if◌then◌else◌,
}
use snowcone.Toml.{Toml, Fields, no_fields, index, name, ok, invalid_key_to_next, running}
use snowcone.Toml.Export.{Slot, Interpreter, export_fields, export_from, export_table, emplace}

-- A table that holds `v` under the string `k`, and `w` under the integer `i`.
abbrev pub two_entries : Bytes → Toml → Integer → Toml → List Slot
two_entries k v i w =
    record { key = name k; exported = ok v } ∷ record { key = index i; exported = ok w } ∷ []

module _ (lua : Interpreter) (k : Bytes) (v : Toml) (i : Integer) (w : Toml) where
  -- `lua_next` is asked for what follows the number's text, which is the first key.
  number_loops :
      (fuel : ℕ) (t : Fields)
      → same k (lua.show_integer i) ≡ true
      → export_fields lua fuel (two_entries k v i w) (record { key = index i; exported = ok w }) t
        ≡ running
  unfolding export_fields
  number_loops zero t e = refl
  number_loops (suc fuel) t e = rw e (number_loops fuel (emplace (lua.show_integer i) w t) e)

  number_raises :
      (fuel : ℕ) (t : Fields)
      → same k (lua.show_integer i) ≡ false
      → export_fields lua
          (suc fuel)
          (two_entries k v i w)
          (record { key = index i; exported = ok w })
          t
        ≡ invalid_key_to_next
  unfolding export_fields
  number_raises fuel t e = rw e refl

  string_first :
      (fuel : ℕ)
      → export_fields lua
          (suc fuel)
          (two_entries k v i w)
          (record { key = name k; exported = ok v })
          no_fields
        ≡ export_fields lua fuel
            (two_entries k v i w)
            (record { key = index i; exported = ok w })
            (emplace k v no_fields)
  unfolding export_fields
  string_first fuel = rw (same_self k) refl

  -- If `lua_next` visits the string first: with the number's text as the string the export never
  -- ends, however much fuel it is given, and with another string it raises a Lua error instead of
  -- throwing the exception for such keys.
  pub export_table-number_key :
      (fuel : ℕ)
      → lua.order (two_entries k v i w) ≡ two_entries k v i w
      → export_table lua (suc (suc fuel)) (two_entries k v i w)
        ≡ (if same k (lua.show_integer i) then running else invalid_key_to_next)
  unfolding export_table
  export_table-number_key fuel visits =
      ap (λ t. export_from lua (suc (suc fuel)) t (two_entries k v i w)) visits
      ∙ elim (Bool-cases (same k (lua.show_integer i))) [
        | inl e ↦
            rw (e, string_first (suc fuel))
              (rw (number_loops (suc fuel) (emplace k v no_fields) e) refl)
        | inr e ↦
            rw (e, string_first (suc fuel)) (rw (number_raises fuel (emplace k v no_fields) e) refl)
      ]
