-- ===== src/Toml/Same.antt =====
-- What a value is after a way through Lua: tables keep their values under their keys, in any order,
-- an empty array has become an empty table, and a boolean the integer 1 or 0.
use snowcone.Prelude.{ℕ, suc, ◌+◌, ◌≡◌, ◌≢◌, Option, none, some, Bytes, same, if◌then◌else◌}
use snowcone.Toml.{
  Toml, boolean, integer, floating, string, array, table, datetime, Items, no_items, item, Fields,
  no_fields, field,
}
use snowcone.Toml.Export.{toboolean}

unfoldable pub find : Bytes → Fields → Option Toml
find k no_fields = none
find k (field j v fs) = let rest = find k fs in if same j k then some v else rest

abbrev pub count : Fields → ℕ
count no_fields = 0
count (field k v fs) = suc (count fs)

unfoldable mutual
  pub Same : Toml → Toml → Type 0
  Same (array xs) w = SameArray xs w
  Same (table fs) w = (gs : Fields) × (w ≡ table gs) × (count gs ≡ count fs) × SameFields fs gs
  Same (boolean b) w = w ≡ integer (toboolean b)
  Same (integer i) w = w ≡ integer i
  Same (floating x) w = w ≡ floating x
  Same (string s) w = w ≡ string s
  Same (datetime d) w = w ≡ datetime d

  pub SameArray : Items → Toml → Type 0
  SameArray no_items w = w ≡ table no_fields
  SameArray (item x xs) w =
      (y : Toml) × (ys : Items) × (w ≡ array (item y ys)) × Same x y × SameItems xs ys

  pub SameItems : Items → Items → Type 0
  SameItems no_items ys = ys ≡ no_items
  SameItems (item x xs) ys = (y : Toml) × (t : Items) × (ys ≡ item y t) × Same x y × SameItems xs t

  pub SameFields : Fields → Fields → Type 0
  SameFields no_fields gs = Unit
  SameFields (field k x fs) gs = ((y : Toml) × (find k gs ≡ some y) × Same x y) × SameFields fs gs

-- The keys of each table differ.
abbrev pub Lacks : Bytes → Fields → Type 0
Lacks k no_fields = Unit
Lacks k (field j v fs) = (j ≢ k) × Lacks k fs

unfoldable mutual
  pub HasKeys : Toml → Type 0
  HasKeys (array xs) = HaveKeys xs
  HasKeys (table fs) = AreKeys fs
  HasKeys _ = Unit

  pub HaveKeys : Items → Type 0
  HaveKeys no_items = Unit
  HaveKeys (item x xs) = HasKeys x × HaveKeys xs

  pub AreKeys : Fields → Type 0
  AreKeys no_fields = Unit
  AreKeys (field k x fs) = Lacks k fs × HasKeys x × AreKeys fs

-- The number of values in a value.
unfoldable mutual
  pub size : Toml → ℕ
  size (array xs) = suc (size_items xs)
  size (table fs) = suc (size_fields fs)
  size _ = 1

  pub size_items : Items → ℕ
  size_items no_items = 0
  size_items (item x xs) = size x + size_items xs

  pub size_fields : Fields → ℕ
  size_fields no_fields = 0
  size_fields (field k x fs) = suc (size x + size_fields fs)
