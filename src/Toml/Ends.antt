-- ===== src/Toml/Ends.antt =====
-- How `l_parse_toml` ends.
use snowcone.Prelude.{ℕ, suc, ◌≡◌, refl, Bool, true, false, ◌||◌, some, Bytes, pos}
use snowcone.Toml.{
  Toml, boolean, integer, floating, string, array, table, datetime, Items, no_items, item, Fields,
  no_fields, field, index, name, Lua, number, Entries, no_entries, entry, Error,
  toml_value_not_supported, Result, ok, thrown, invalid_key_to_next, running, ◌>>=◌,
}
use snowcone.Toml.Push.{
  push_toml, push_array, push_table, Ended, returns, fails, uncaught, Called, value, toml_exception,
  l_parse_toml, pushed,
}

-- There is a date or a time somewhere in the value.
unfoldable mutual
  pub has_dates : Toml → Bool
  has_dates (array xs) = have_dates xs
  has_dates (table fs) = hold_dates fs
  has_dates (datetime d) = true
  has_dates (boolean b) = false
  has_dates (integer i) = false
  has_dates (floating x) = false
  has_dates (string s) = false

  pub have_dates : Items → Bool
  have_dates no_items = false
  have_dates (item x xs) = has_dates x || have_dates xs

  pub hold_dates : Fields → Bool
  hold_dates no_fields = false
  hold_dates (field k x fs) = has_dates x || hold_dates fs

-- A conversion throws if there is a date, and else has a value.
abbrev Converts : {A : Type 0} → Bool → Result A → Type 0
Converts {A} true r = r ≡ thrown toml_value_not_supported
Converts {A} false r = (a : A) × (r ≡ ok a)

one_more :
    {A B C : Type 0} (x xs : Bool) (r : Result A) (s : Result B) (join : A → B → C)
    → Converts x r
    → Converts xs s
    → Converts (x || xs) (r >>= λ a. s >>= λ b. ok (join a b))
one_more true xs r s join h hs = rw h refl
one_more false true r s join (a, h) hs = rw (h, hs) refl
one_more false false r s join (a, h) (b, hs) = (join a b, rw (h, hs) refl)

wrap :
    {A B : Type 0} (x : Bool) (r : Result A) (f : A → B)
    → Converts x r
    → Converts x (r >>= λ a. ok (f a))
wrap true r f h = rw h refl
wrap false r f (a, h) = (f a, rw h refl)

mutual
  unfolding push_toml has_dates

  push_toml-Converts : (v : Toml) → Converts (has_dates v) (push_toml v)
  push_toml-Converts (array xs) =
      wrap (have_dates xs) (push_array 0 xs) (λ t. Lua.table t) (push_array-Converts 0 xs)
  push_toml-Converts (table fs) =
      wrap (hold_dates fs) (push_table fs) (λ t. Lua.table t) (push_table-Converts fs)
  push_toml-Converts (datetime d) = refl
  push_toml-Converts (boolean b) = (Lua.boolean b, refl)
  push_toml-Converts (integer i) = (Lua.integer i, refl)
  push_toml-Converts (floating x) = (number x, refl)
  push_toml-Converts (string s) = (Lua.string s, refl)

  push_array-Converts : (i : ℕ) (xs : Items) → Converts (have_dates xs) (push_array i xs)
  push_array-Converts i no_items = (no_entries, refl)
  push_array-Converts i (item x xs) =
      one_more (has_dates x) (have_dates xs) (push_toml x) (push_array (suc i) xs)
        (λ v es. entry (index (pos (suc i))) v es) (push_toml-Converts x)
        (push_array-Converts (suc i) xs)

  push_table-Converts : (fs : Fields) → Converts (hold_dates fs) (push_table fs)
  push_table-Converts no_fields = (no_entries, refl)
  push_table-Converts (field k x fs) =
      one_more (has_dates x) (hold_dates fs) (push_toml x) (push_table fs)
        (λ v es. entry (name k) v es) (push_toml-Converts x) (push_table-Converts fs)

-- The Lua value for a value of TOML: the elements of an array under the keys from 1 on, and the
-- fields of a table under their names.
unfoldable mutual
  pub Becomes : Toml → Lua → Type 0
  Becomes (array xs) l = (es : Entries) × (l ≡ Lua.table es) × Elements 1 xs es
  Becomes (table fs) l = (es : Entries) × (l ≡ Lua.table es) × Members fs es
  Becomes (boolean b) l = l ≡ Lua.boolean b
  Becomes (integer i) l = l ≡ Lua.integer i
  Becomes (floating x) l = l ≡ number x
  Becomes (string s) l = l ≡ Lua.string s
  Becomes (datetime d) l = ⊥

  pub Elements : ℕ → Items → Entries → Type 0
  Elements i no_items es = es ≡ no_entries
  Elements i (item x xs) es =
      (v : Lua) × (rest : Entries) × (es ≡ entry (index (pos i)) v rest)
      × Becomes x v
      × Elements (suc i) xs rest

  pub Members : Fields → Entries → Type 0
  Members no_fields es = es ≡ no_entries
  Members (field k x fs) es =
      (v : Lua) × (rest : Entries) × (es ≡ entry (name k) v rest) × Becomes x v × Members fs rest

>>=-value :
    {A B : Type 0} (r : Result A) (more : A → Result B) {b : B}
    → (r >>= more) ≡ ok b
    → (a : A) × (r ≡ ok a) × (more a ≡ ok b)
>>=-value (ok a) more h = (a, refl, h)
>>=-value (thrown e) more h = absurd (cc)
>>=-value invalid_key_to_next more h = absurd (cc)
>>=-value running more h = absurd (cc)

mutual
  unfolding push_toml Becomes

  push_toml-Becomes : (t : Toml) (l : Lua) → push_toml t ≡ ok l → Becomes t l
  push_toml-Becomes (array xs) l h =
      let (es, pushed_es, h1) = >>=-value (push_array 0 xs) _ h in
      (es, cc, push_array-Elements 0 xs es pushed_es)
  push_toml-Becomes (table fs) l h =
      let (es, pushed_es, h1) = >>=-value (push_table fs) _ h in
      (es, cc, push_table-Members fs es pushed_es)
  push_toml-Becomes (boolean b) l h = cc
  push_toml-Becomes (integer i) l h = cc
  push_toml-Becomes (floating x) l h = cc
  push_toml-Becomes (string s) l h = cc
  push_toml-Becomes (datetime d) l h = cc

  push_array-Elements :
      (i : ℕ) (xs : Items) (es : Entries) → push_array i xs ≡ ok es → Elements (suc i) xs es
  push_array-Elements i no_items es h = cc
  push_array-Elements i (item x xs) es h =
      let (v, pushed_v, h1) = >>=-value (push_toml x) _ h in
      let (rest, pushed_rest, h2) =
        >>=-value (push_array (suc i) xs) (λ t. ok (entry (index (pos (suc i))) v t)) h1 in
      (v, rest, cc, push_toml-Becomes x v pushed_v, push_array-Elements (suc i) xs rest pushed_rest)

  push_table-Members : (fs : Fields) (es : Entries) → push_table fs ≡ ok es → Members fs es
  push_table-Members no_fields es h = cc
  push_table-Members (field k x fs) es h =
      let (v, pushed_v, h1) = >>=-value (push_toml x) _ h in
      let (rest, pushed_rest, h2) = >>=-value (push_table fs) (λ t. ok (entry (name k) v t)) h1 in
      (v, rest, cc, push_toml-Becomes x v pushed_v, push_table-Members fs rest pushed_rest)

-- What the binding makes of the parser's answer.
abbrev pub EndsWell : (what : Error → Bytes) → Toml → Bool → Ended Lua → Type 0
EndsWell what t true ended = ended ≡ fails (what toml_value_not_supported)
EndsWell what t false ended = (l : Lua) × (ended ≡ returns l) × Becomes t l

abbrev pub EndsFor : (what : Error → Bytes) → Called Toml → Ended Lua → Type 0
EndsFor what (value t) ended = EndsWell what t (has_dates t) ended
EndsFor what (toml_exception message) ended = ended ≡ uncaught message

Converts-EndsWell :
    (what : Error → Bytes) (t : Toml) (x : Bool)
    → Converts x (push_toml t)
    → EndsWell what t x (pushed what (push_toml t))
Converts-EndsWell what t true h = rw h refl
Converts-EndsWell what t false (l, h) = (l, rw h refl, push_toml-Becomes t l h)

answer-EndsFor :
    (what : Error → Bytes) (parse_str : Bytes → Called Toml) (src : Bytes) (answer : Called Toml)
    → parse_str src ≡ answer
    → EndsFor what answer (l_parse_toml what parse_str (some src))
unfolding l_parse_toml
answer-EndsFor what parse_str src (value t) e =
    rw e (Converts-EndsWell what t (has_dates t) (push_toml-Converts t))
answer-EndsFor what parse_str src (toml_exception message) e = rw e refl

-- Whatever the text and the parser: an exception of the parser is not caught, and leaves the
-- function; a parsed value with a date or time anywhere in it gives `nil` and the message; and of any
-- other value its Lua value is returned, the tables' and arrays' with all that they hold.
pub l_parse_toml-EndsFor :
    (what : Error → Bytes) (parse_str : Bytes → Called Toml) (src : Bytes)
    → EndsFor what (parse_str src) (l_parse_toml what parse_str (some src))
l_parse_toml-EndsFor what parse_str src = answer-EndsFor what parse_str src (parse_str src) refl
