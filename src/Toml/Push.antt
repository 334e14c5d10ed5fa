-- ===== src/Toml/Push.antt =====
-- `push_toml` and `l_parse_toml` of mytoml/parse_toml.cpp, and `l_to_toml` of mytoml/to_toml.cpp. The
-- keys of a `toml::table` differ, so each assignment to the Lua table makes a new entry.
use snowcone.Prelude.{ℕ, suc, Option, none, some, Bytes, pos}
use snowcone.Toml.{
  Toml, floating, array, datetime, Items, no_items, item, Fields, no_fields, field, index, name,
  Lua, number, Entries, no_entries, entry, Error, toml_value_not_supported, Result, ok, thrown,
  invalid_key_to_next, running, ◌>>=◌,
}
use snowcone.Toml.Export.{Interpreter, export_value}

unfoldable mutual
  pub push_toml : Toml → Result Lua
  push_toml (array xs) = do es ← push_array 0 xs; ok (Lua.table es)
  push_toml (Toml.table fs) = do es ← push_table fs; ok (Lua.table es)
  push_toml (Toml.boolean b) = ok (Lua.boolean b)
  push_toml (floating x) = ok (number x)
  push_toml (Toml.integer i) = ok (Lua.integer i)
  push_toml (Toml.string s) = ok (Lua.string s)
  push_toml (datetime d) = thrown toml_value_not_supported

  -- The loop over an array, with `i` elements behind it: `lua_rawseti` at `i + 1`.
  pub push_array : ℕ → Items → Result Entries
  push_array i no_items = ok no_entries
  push_array i (item x xs) = do
    v ← push_toml x
    es ← push_array (suc i) xs
    ok (entry (index (pos (suc i))) v es)

  pub push_table : Fields → Result Entries
  push_table no_fields = ok no_entries
  push_table (field k x fs) = do v ← push_toml x; es ← push_table fs; ok (entry (name k) v es)

-- How a binding ends: with its result, with `nil` and a message, with a Lua error, with a C++
-- exception that no handler catches, or not at all.
pub data Ended (A : Type 0) : Type 0 where
  returns : A → Ended A
  fails : Bytes → Ended A
  raises : Ended A
  uncaught : Bytes → Ended A
  hangs : Ended A

-- A library call gives a value or throws. The exceptions of TOML are not `std::runtime_error`s.
pub data Called (A : Type 0) : Type 0 where
  value : A → Called A
  toml_exception : Bytes → Called A

module _ (what : Error → Bytes) where
  abbrev pub formatted : Called Bytes → Ended Bytes
  formatted (value text) = returns text
  formatted (toml_exception message) = fails message

  -- The handler catches every `std::exception`.
  unfoldable pub l_to_toml :
      Interpreter → (format : Toml → Called Bytes) → (fuel : ℕ) → Lua → Ended Bytes
  l_to_toml lua format fuel v = elim (export_value lua fuel v) [
    | ok t ↦ formatted (format t)
    | thrown e ↦ fails (what e)
    | invalid_key_to_next ↦ raises
    | running ↦ hangs
  ]

  -- The handler catches `std::runtime_error` only.
  abbrev pub pushed : Result Lua → Ended Lua
  pushed (ok v) = returns v
  pushed (thrown e) = fails (what e)
  pushed invalid_key_to_next = raises
  pushed running = hangs

  abbrev pub parsed : Called Toml → Ended Lua
  parsed (value t) = pushed (push_toml t)
  parsed (toml_exception message) = uncaught message

  -- The argument is `none` if it is no string.
  unfoldable pub l_parse_toml : (parse_str : Bytes → Called Toml) → Option Bytes → Ended Lua
  unfolding push_toml
  l_parse_toml parse_str none = raises
  l_parse_toml parse_str (some src) = parsed (parse_str src)
