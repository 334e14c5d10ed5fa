-- ===== src/Toml.antt =====
-- The TOML bindings: the values of Lua and of TOML, and the results of the conversions between them.
-- The conversions are in the children: Export is mytoml/to_toml.cpp, and Push mytoml/parse_toml.cpp.
pub mod Export
pub mod Push
pub mod Same
pub mod Tables
pub mod RoundTrip
pub mod Ends
pub mod Numbers
pub mod Gaps
mod Tests
use snowcone.Prelude.{ℕ, Bool, true, false, List, Bytes, Integer, integer_eq, same, ◌==◌}

-- `toml::value`. A float is the bits of its double, and the four types of dates and times are one.
mutual
  pub data Toml : Type 0 where
    boolean : Bool → Toml
    integer : Integer → Toml
    floating : ℕ → Toml
    string : Bytes → Toml
    array : Items → Toml
    table : Fields → Toml
    datetime : ℕ → Toml

  pub data Items : Type 0 where
    no_items : Items
    item : Toml → Items → Items

  pub data Fields : Type 0 where
    no_fields : Fields
    field : Bytes → Toml → Fields → Fields

-- A key of a Lua table: an integer, another number, a string, or a value of another type.
pub data Key : Type 0 where
  index : Integer → Key
  real : ℕ → Key
  name : Bytes → Key
  object : ℕ → Key

abbrev pub key_eq : Key → Key → Bool
key_eq (index i) (index j) = integer_eq i j
key_eq (real x) (real y) = x == y
key_eq (name s) (name t) = same s t
key_eq (object o) (object p) = o == p
key_eq _ _ = false

-- A Lua value. `other` stands for functions, userdata and threads.
mutual
  pub data Lua : Type 0 where
    nil : Lua
    boolean : Bool → Lua
    integer : Integer → Lua
    number : ℕ → Lua
    string : Bytes → Lua
    table : Entries → Lua
    other : ℕ → Lua

  pub data Entries : Type 0 where
    no_entries : Entries
    entry : Key → Lua → Entries → Entries

-- The exceptions that the code throws.
pub data Error : Type 0 where
  bad_array_index_type non_positive_array_index incomplete_array : Error
  non_string_table_key unsupported_value_type toml_value_not_supported : Error

-- A conversion returns, throws, raises a Lua error, or runs on for longer than its fuel.
pub data Result {ℓ} (A : Type ℓ) : Type ℓ where
  ok : A → Result A
  thrown : Error → Result A
  invalid_key_to_next : Result A
  running : Result A

infixl 5 ◌>>=◌ ◌>>◌
abbrev pub ◌>>=◌ {ℓ κ} : {A : Type ℓ} {B : Type κ} → Result A → (A → Result B) → Result B
ok a >>= more = more a
thrown e >>= more = thrown e
invalid_key_to_next >>= more = invalid_key_to_next
running >>= more = running

abbrev pub ◌>>◌ {ℓ} : {B : Type ℓ} → Result (Unit {0}) → Result B → Result B
first >> second = first >>= λ _. second

abbrev pub guard : Bool → Error → Result (Unit {0})
guard true e = ok tt
guard false e = thrown e
