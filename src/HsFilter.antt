-- ===== src/HsFilter.antt =====
-- `l_serialize_regexp_db` of hsfilter/hsfilter.cpp with `compile`. What Hyperscan answers is a
-- parameter. That the first three arguments are tables is taken as checked. The memory that it hands out is followed by the order of what is done with it.
pub mod Entries
pub mod Released
mod Tests
use snowcone.Prelude.{ℕ, zero, suc, Bool, true, false, List, [], ◌∷◌, ◌++◌, Bytes, if◌then◌else◌}

-- What stands at an index of a table: a string, a number as the conversion to `unsigned` makes it, or
-- anything else.
pub data Cell : Type 0 where
  text : Bytes → Cell
  number : ℕ → Cell
  other : Cell

pub record Entry : Type 0 where
  pub expr : Bytes
  pub flags : ℕ
  pub id : ℕ

abbrev pub entry : Bytes → ℕ → ℕ → Entry
entry e f i = record { expr = e; flags = f; id = i }

-- The Lua errors of the two functions.
pub data Error : Type 0 where
  not_a_string flags_not_a_number id_not_a_number : ℕ → Error
  in_expression : ℕ → Bytes → Error
  compile_failed serialize_failed : ℕ → Error

pub data Result (A : Type 0) : Type 0 where
  ok : A → Result A
  raise : Error → Result A

infixl 5 ◌>>=◌
abbrev pub ◌>>=◌ : {A B : Type 0} → Result A → (A → Result B) → Result B
ok a >>= more = more a
raise e >>= more = raise e

-- The tests on the three values at one index.
abbrev pub check_expr : ℕ → Cell → Result Bytes
check_expr i (text s) = ok s
check_expr i (number n) = raise (not_a_string i)
check_expr i other = raise (not_a_string i)

abbrev pub check_number : Error → Cell → Result ℕ
check_number e (text s) = raise e
check_number e (number n) = ok n
check_number e other = raise e

-- `lua_rawgeti` of the three tables.
pub record Tables : Type 0 where
  pub exprs : ℕ → Cell
  pub flags : ℕ → Cell
  pub ids : ℕ → Cell

-- The loop over the indices, from `i` on.
unfoldable pub read_entries : (rounds i : ℕ) → Tables → Result (List Entry)
read_entries zero i t = ok []
read_entries (suc rounds) i t = do
  e ← check_expr i (t.exprs i)
  f ← check_number (flags_not_a_number i) (t.flags i)
  d ← check_number (id_not_a_number i) (t.ids i)
  rest ← read_entries rounds (suc i) t
  ok (entry e f d ∷ rest)

-- What `hs_compile_multi` and `hs_serialize_database` answer.
pub data Compiled : Type 0 where
  database : Compiled
  compiler_error : ℕ → Bytes → Compiled
  compile_code : ℕ → Compiled

pub data Serialized : Type 0 where
  bytes : Bytes → Serialized
  serialize_code : ℕ → Serialized

pub data Memory : Type 0 where
  db error_text serialized : Memory

pub data Action : Type 0 where
  allocates : Memory → Action
  frees : Memory → Action

-- The function returns a string or raises an error, or the program is terminated.
pub data Ended : Type 0 where
  returns : Bytes → Ended
  raises : Error → Ended
  terminates : Ended

abbrev pub Done : Type 0
Done = List Action × Ended

abbrev pub after : List Action → Done → Done
after actions (more, ended) = (actions ++ more, ended)

-- The answers of Hyperscan for the platform that the function was given, if any: the flags tell whether
-- the two frees succeed. It reads an expression up to its first zero byte.
pub record Hyperscan : Type 0 where
  pub compile_multi : List Entry → Compiled
  pub serialize : List Entry → Serialized
  pub frees_error : Bool
  pub frees_database : Bool

abbrev pub push_serialized : Serialized → Done
push_serialized (bytes s) = (frees serialized ∷ [], returns s)
push_serialized (serialize_code c) = ([], raises (serialize_failed c))

abbrev pub allocated : Serialized → List Action
allocated (bytes s) = allocates serialized ∷ []
allocated (serialize_code c) = []

abbrev pub serialize_database : Bool → Serialized → Done
serialize_database true s = after (allocated s ++ frees db ∷ []) (push_serialized s)
serialize_database false s = after (allocated s ++ frees db ∷ []) ([], terminates)

abbrev pub compiled : Hyperscan → List Entry → Compiled → Done
compiled hs entries database =
    after (allocates db ∷ []) (serialize_database hs.frees_database (hs.serialize entries))
compiled hs entries (compiler_error n message) = (
  allocates error_text ∷ frees error_text ∷ [],
  if hs.frees_error then raises (in_expression n message) else terminates,
)
compiled hs entries (compile_code c) = ([], raises (compile_failed c))

unfoldable pub compile : Hyperscan → List Entry → Done
compile hs entries = compiled hs entries (hs.compile_multi entries)

abbrev pub compile_read : Hyperscan → Result (List Entry) → Done
compile_read hs (ok entries) = compile hs entries
compile_read hs (raise e) = ([], raises e)

-- `size` is `luaL_len` of the first table.
unfoldable pub l_serialize_regexp_db : Hyperscan → (size : ℕ) → Tables → Done
unfolding read_entries compile
l_serialize_regexp_db hs size t = compile_read hs (read_entries size 1 t)
