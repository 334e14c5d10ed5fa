-- ===== src/Toml/Tests.antt =====
-- Runs of the conversions.
use snowcone.Prelude.{
  ℕ, suc, ◌+◌, ◌<◌, ◌≡◌, refl, List, [], ◌∷◌, codes, Bytes, Integer, pos, neg, length, some, Holds,
  if◌then◌else◌, same,
}
use snowcone.Toml.{
  Toml, integer, array, table, datetime, no_items, item, no_fields, field, Lua, Entries, entry,
  no_entries, name, object, Key, Error, ok, thrown, incomplete_array, non_string_table_key, running,
  invalid_key_to_next,
}
use snowcone.Toml.Export.{Slot, Interpreter, array_size, export_table, export_value}
use snowcone.Toml.Export.Arrays.{index_key}
use snowcone.Toml.Push.{Called, value, toml_exception, l_parse_toml}
use snowcone.Toml.Same.{Same}
use snowcone.Toml.Ends.{EndsFor, l_parse_toml-EndsFor}
use snowcone.Toml.Numbers.{two_entries, export_table-number_key}
use snowcone.Toml.Gaps.{array_size-fills}

-- An interpreter that visits the second entry of a table first.
abbrev swapped : List Slot → List Slot
swapped [] = []
swapped (s ∷ []) = s ∷ []
swapped (s ∷ t ∷ slots) = t ∷ s ∷ slots

abbrev show : Integer → Bytes
show (pos n) = (48 + n) ∷ []
show (neg n) = codes "-"

abbrev second_first : Interpreter
second_first = record { show_integer = show; show_number = λ x. []; order = swapped }

abbrev in_order : Interpreter
in_order = record { show_integer = show; show_number = λ x. []; order = λ slots. slots }

abbrev numbers : Toml
numbers = array (item (integer (pos 5)) (item (integer (pos 6)) no_items))

-- `a = [5, 6]` and `b = []`
abbrev settings : Toml
settings = table (field (codes "a") numbers (field (codes "b") (array no_items) no_fields))

abbrev pushed_numbers : Entries
pushed_numbers =
    entry (index_key 0) (Lua.integer (pos 5)) (entry (index_key 1) (Lua.integer (pos 6)) no_entries)

abbrev pushed_settings : Lua
pushed_settings = Lua.table (
    entry (name (codes "a")) (Lua.table pushed_numbers)
      (entry (name (codes "b")) (Lua.table no_entries) no_entries))

settings_exported :
    export_value second_first 9 pushed_settings
    ≡ ok (table (field (codes "b") (table no_fields) (field (codes "a") numbers no_fields)))
unfolding export_value
settings_exported = refl

-- Keys 1 and 3 leave a gap.
incomplete :
    export_value in_order 9 (
      Lua.table (
        entry
          (index_key 0)
          (Lua.integer (pos 5))
          (entry (index_key 2) (Lua.integer (pos 6)) no_entries)))
    ≡ thrown incomplete_array
unfolding export_value
incomplete = refl

bad_key :
    export_value in_order 9 (Lua.table (entry (object 1) (Lua.integer (pos 5)) no_entries))
    ≡ thrown non_string_table_key
unfolding export_value
bad_key = refl

-- The message of an exception.
abbrev message : Error → Bytes
message e = codes "toml value not supported"

-- A parser that knows one date.
abbrev parse_date : Bytes → Called Toml
parse_date [] = toml_exception (codes "unexpected end")
parse_date (c ∷ s) = value (array (item (datetime 20240101) no_items))

l_parse_toml-EndsFor_example :
    EndsFor message (parse_date (codes "d")) (l_parse_toml message parse_date (some (codes "d")))
l_parse_toml-EndsFor_example = l_parse_toml-EndsFor message parse_date (codes "d")

-- `{["1"] = 5, [1] = 6}`
export_table-number_key_example :
    export_table in_order
      (suc (suc 40))
      (two_entries (codes "1") (integer (pos 5)) (pos 1) (integer (pos 6)))
    ≡ (if same (codes "1") (show (pos 1)) then running else invalid_key_to_next)
export_table-number_key_example =
    export_table-number_key in_order (codes "1") (integer (pos 5)) (pos 1) (integer (pos 6)) 40 refl

abbrev three_keys : List Key
three_keys = index_key 2 ∷ index_key 0 ∷ index_key 1 ∷ []

array_size-fills_example :
    (length three_keys ≡ 3) × ((i : ℕ) → i < 3 → Holds three_keys (index_key i))
unfolding array_size
array_size-fills_example =
    array_size-fills three_keys 3 ((λ e. cc, (λ e. cc, tt)), ((λ e. cc, tt), (tt, tt))) refl
