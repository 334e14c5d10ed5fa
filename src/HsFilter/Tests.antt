-- ===== src/HsFilter/Tests.antt =====
-- Runs of the filters' binding.
use snowcone.Prelude.{ℕ, ◌≡◌, refl, true, List, [], ◌∷◌, codes, length, zero, suc}
use snowcone.HsFilter.{
  Cell, text, number, other, Entry, Tables, Compiled, database, compiler_error, bytes,
  serialize_code, flags_not_a_number, in_expression, serialize_failed, allocates, frees, db,
  error_text, raises, Hyperscan, l_serialize_regexp_db,
}
use snowcone.HsFilter.Released.{l_serialize_regexp_db-IsReleased, IsReleased}
use snowcone.HsFilter.Entries.{l_serialize_regexp_db-returns, Reads}

-- Two expressions; the third index is empty.
abbrev exprs : ℕ → Cell
exprs zero = other
exprs (suc zero) = text (codes "a+")
exprs (suc (suc zero)) = text (codes "b*")
exprs (suc (suc (suc i))) = other

abbrev flags : ℕ → Cell
flags zero = other
flags (suc zero) = number 8
flags (suc (suc zero)) = number 0
flags (suc (suc (suc i))) = other

abbrev ids : ℕ → Cell
ids zero = other
ids (suc zero) = number 10
ids (suc (suc zero)) = number 20
ids (suc (suc (suc i))) = other

abbrev tables : Tables
tables = record { exprs = exprs; flags = flags; ids = ids }

-- A compiler that takes any expressions and refuses to compile none.
abbrev compile_multi : List Entry → Compiled
compile_multi [] = compiler_error 0 (codes "empty")
compile_multi _ = database

abbrev hyperscan : Hyperscan
hyperscan = record {
  compile_multi = compile_multi;
  serialize = λ entries. bytes (codes "db");
  frees_error = true;
  frees_database = true;
}

l_serialize_regexp_db-IsReleased_example : IsReleased (l_serialize_regexp_db hyperscan 2 tables)
l_serialize_regexp_db-IsReleased_example = l_serialize_regexp_db-IsReleased hyperscan 2 tables

l_serialize_regexp_db-returns_example :
    (entries : List Entry) × (length entries ≡ 2)
    × Reads tables 1 entries
    × (hyperscan.compile_multi entries ≡ database)
    × (hyperscan.serialize entries ≡ bytes (codes "db"))
unfolding l_serialize_regexp_db
l_serialize_regexp_db-returns_example =
    l_serialize_regexp_db-returns hyperscan 2 tables (codes "db") refl

missing_flags :
    l_serialize_regexp_db hyperscan 1 (record { exprs = exprs; flags = λ i. other; ids = ids })
    ≡ ([], raises (flags_not_a_number 1))
unfolding l_serialize_regexp_db
missing_flags = refl

no_expressions :
    l_serialize_regexp_db hyperscan 0 tables
    ≡ (allocates error_text ∷ frees error_text ∷ [], raises (in_expression 0 (codes "empty")))
unfolding l_serialize_regexp_db
no_expressions = refl

-- The database is freed before the error of the serialization is raised.
not_serialized :
    l_serialize_regexp_db
      (record {
        compile_multi = compile_multi;
        serialize = λ entries. serialize_code 1;
        frees_error = true;
        frees_database = true;
      })
      2
      tables
    ≡ (allocates db ∷ frees db ∷ [], raises (serialize_failed 1))
unfolding l_serialize_regexp_db
not_serialized = refl
