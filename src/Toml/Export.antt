-- ===== src/Toml/Export.antt =====
-- `export_value`, `export_table` and `l_to_toml` of mytoml/to_toml.cpp. Exporting a value changes
-- nothing but the stack, so the exports of a table's values stand beside their keys, and the loops
-- take those that they reach.
pub mod Loops
pub mod Arrays
use snowcone.Prelude.{
  ℕ, zero, suc, ◌+◌, Bool, true, false, List, [], ◌∷◌, map, Bytes, Integer, pos, neg, same, ltb,
  ◌==◌, if◌then◌else◌,
}
use snowcone.Toml.{
  Toml, boolean, integer, floating, string, array, table, Items, no_items, item, Fields, no_fields,
  field, Key, index, real, name, object, key_eq, Lua, nil, number, other, Entries, no_entries,
  entry, bad_array_index_type, non_positive_array_index, incomplete_array, non_string_table_key,
  unsupported_value_type, Result, ok, thrown, invalid_key_to_next, running, ◌>>=◌, ◌>>◌, guard,
}

-- A key, and the export of its value.
pub record Slot : Type 0 where
  pub key : Key
  pub exported : Result Toml

-- What Lua does: how it writes numbers, and in what order `lua_next` visits a table.
pub record Interpreter : Type 0 where
  pub show_integer : Integer → Bytes
  pub show_number : ℕ → Bytes
  pub order : List Slot → List Slot

-- What `lua_next` finds for a key: an error if the key is not in the table.
pub data Next : Type 0 where
  invalid : Next
  last : Next
  at : Slot → Next

abbrev pub first : List Slot → Next
first [] = last
first (s ∷ slots) = at s

unfoldable pub next : Key → List Slot → Next
next k [] = invalid
next k (s ∷ slots) = let rest = next k slots in if key_eq s.key k then first slots else rest

-- `lua_geti`; the export of `nil` throws.
unfoldable pub geti : ℕ → List Slot → Result Toml
geti i [] = thrown unsupported_value_type
geti i (s ∷ slots) =
    let rest = geti i slots in if key_eq s.key (index (pos i)) then s.exported else rest

-- `t.emplace` keeps the value that is there.
unfoldable pub emplace : Bytes → Toml → Fields → Fields
emplace k v no_fields = field k v no_fields
emplace k v (field j w fs) =
    let rest = emplace k v fs in if same j k then field j w fs else field j w rest

abbrev pub is_index : Key → Bool
is_index (index i) = true
is_index _ = false

-- The tests on one key of an array.
unfoldable pub array_index : Key → Result ℕ
array_index (index (pos zero)) = thrown non_positive_array_index
array_index (index (pos (suc i))) = ok (suc i)
array_index (index (neg i)) = thrown non_positive_array_index
array_index (real x) = thrown bad_array_index_type
array_index (name s) = thrown bad_array_index_type
array_index (object o) = thrown bad_array_index_type

-- The first loop over an array gives `entries` and `max_key`.
unfoldable pub array_size : List Key → (entries max_key : ℕ) → Result (ℕ × ℕ)
unfolding array_index
array_size [] entries max_key = ok (entries, max_key)
array_size (k ∷ keys) entries max_key = do
  i ← array_index k
  array_size keys (suc entries) (if ltb max_key i then i else max_key)

-- The second loop, from the index `i` on.
unfoldable pub array_items : (rounds i : ℕ) → List Slot → Result Items
unfolding geti
array_items zero i slots = ok no_items
array_items (suc rounds) i slots = do
  v ← geti i slots
  vs ← array_items rounds (suc i) slots
  ok (item v vs)

-- The slots in the order of `lua_next`, and the same table for `lua_geti`.
unfoldable pub export_array : List Slot → List Slot → Result Toml
unfolding array_size array_items
export_array visited slots = do
  (entries, max_key) ← array_size (map (λ s. s.key) visited) 0 0
  guard (entries == max_key) incomplete_array
  items ← array_items entries 1 slots
  ok (array items)

-- `lua_toboolean` gives an `int`, of which `toml::value` makes an integer.
abbrev pub toboolean : Bool → Integer
toboolean true = pos 1
toboolean false = pos 0

module _ (lua : Interpreter) where
  -- `lua_isstring` takes numbers, too, and `lua_tolstring` turns the key on the stack into a string.
  unfoldable pub to_key : Key → Result Bytes
  to_key (index i) = ok (lua.show_integer i)
  to_key (real x) = ok (lua.show_number x)
  to_key (name s) = ok s
  to_key (object o) = thrown non_string_table_key

  abbrev pub follow : Next → (Slot → Fields → Result Fields) → Fields → Result Fields
  follow invalid more t = invalid_key_to_next
  follow last more t = ok t
  follow (at s) more t = more s t

  -- The loop over a table, a unit of fuel for each round.
  unfoldable pub export_fields : ℕ → List Slot → Slot → Fields → Result Fields
  unfolding to_key next emplace
  export_fields zero slots s t = running
  export_fields (suc fuel) slots s t = do
    str ← to_key s.key
    v ← s.exported
    follow (next (name str) slots) (λ s' t'. export_fields fuel slots s' t') (emplace str v t)

  abbrev pub export_from : ℕ → List Slot → List Slot → Result Toml
  export_from fuel [] slots = ok (table no_fields)
  export_from fuel (s ∷ visited) slots =
      if is_index s.key
      then export_array (s ∷ visited) slots
      else (do t ← export_fields fuel (s ∷ visited) s no_fields; ok (table t))

  unfoldable pub export_table : ℕ → List Slot → Result Toml
  unfolding export_fields export_array
  export_table fuel slots = export_from fuel (lua.order slots) slots

  unfoldable mutual
    unfolding export_table

    pub export_value : ℕ → Lua → Result Toml
    export_value fuel nil = thrown unsupported_value_type
    export_value fuel (Lua.boolean b) = ok (Toml.integer (toboolean b))
    export_value fuel (Lua.integer i) = ok (Toml.integer i)
    export_value fuel (number x) = ok (floating x)
    export_value fuel (Lua.string s) = ok (Toml.string s)
    export_value fuel (Lua.table es) = export_table fuel (slots_of fuel es)
    export_value fuel (other o) = thrown unsupported_value_type

    pub slots_of : ℕ → Entries → List Slot
    slots_of fuel no_entries = []
    slots_of fuel (entry k v es) =
        record { key = k; exported = export_value fuel v } ∷ slots_of fuel es
