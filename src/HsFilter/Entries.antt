-- ===== src/HsFilter/Entries.antt =====
-- What Hyperscan is given.
use snowcone.Prelude.{
  ℕ, zero, suc, ◌≡◌, refl, ap, Bool, true, false, List, [], ◌∷◌, Bytes, length, if◌then◌else◌,
}
use mathlib.Core.Path.{subst}
use snowcone.HsFilter.{
  Cell, text, number, other, Entry, entry, Error, Result, ok, raise, ◌>>=◌, check_expr,
  check_number, Tables, read_entries, Compiled, database, compiler_error, compile_code, Serialized,
  bytes, serialize_code, returns, raises, terminates, Hyperscan, compile, compiled, compile_read,
  serialize_database, l_serialize_regexp_db, flags_not_a_number, id_not_a_number,
}

-- The entries are those of the tables, from the index `i` on.
abbrev pub Reads : Tables → ℕ → List Entry → Type 0
Reads t i [] = Unit
Reads t i (x ∷ entries) =
    (t.exprs i ≡ text x.expr)
    × (t.flags i ≡ number x.flags)
    × (t.ids i ≡ number x.id)
    × Reads t (suc i) entries

>>=-ok :
    {A B : Type 0} (m : Result A) (more : A → Result B) {b : B}
    → (m >>= more) ≡ ok b
    → (a : A) × (m ≡ ok a) × (more a ≡ ok b)
>>=-ok (ok a) more h = (a, refl, h)
>>=-ok (raise e) more h = cc

check_expr-ok : (i : ℕ) (c : Cell) {s : Bytes} → check_expr i c ≡ ok s → c ≡ text s
check_expr-ok i (text s) h = cc
check_expr-ok i (number n) h = cc
check_expr-ok i other h = cc

check_number-ok : (e : Error) (c : Cell) {n : ℕ} → check_number e c ≡ ok n → c ≡ number n
check_number-ok e (text s) h = cc
check_number-ok e (number n) h = cc
check_number-ok e other h = cc

read_entries-Reads :
    (rounds i : ℕ) (t : Tables) (entries : List Entry)
    → read_entries rounds i t ≡ ok entries
    → (length entries ≡ rounds) × Reads t i entries
unfolding read_entries
read_entries-Reads zero i t [] h = (refl, tt)
read_entries-Reads zero i t (x ∷ entries) h = absurd (cc)
read_entries-Reads (suc rounds) i t entries h =
    let (e, is_text, h1) = >>=-ok (check_expr i (t.exprs i)) _ h in
    let (f, is_flags, h2) = >>=-ok (check_number (flags_not_a_number i) (t.flags i)) _ h1 in
    let (d, is_id, h3) = >>=-ok (check_number (id_not_a_number i) (t.ids i)) _ h2 in
    let (rest, others, h4) =
      >>=-ok (read_entries rounds (suc i) t) (λ r. ok (entry e f d ∷ r)) h3 in
    let (long, reads) = read_entries-Reads rounds (suc i) t rest others in
    let made : entry e f d ∷ rest ≡ entries = cc in
    subst (λ es. (length es ≡ suc rounds) × Reads t i es) made
      (
        ap suc long,
        (
          check_expr-ok i (t.exprs i) is_text,
          check_number-ok (flags_not_a_number i) (t.flags i) is_flags,
          check_number-ok (id_not_a_number i) (t.ids i) is_id,
          reads,
        ),
      )

serialize_database-returns :
    (freed : Bool) (s : Serialized) (result : Bytes)
    → (serialize_database freed s).1 ≡ returns result
    → s ≡ bytes result
serialize_database-returns true (bytes s) result h = cc
serialize_database-returns true (serialize_code c) result h = cc
serialize_database-returns false (bytes s) result h = cc
serialize_database-returns false (serialize_code c) result h = cc

compiled-returns :
    (hs : Hyperscan) (entries : List Entry) (c : Compiled) (result : Bytes)
    → (compiled hs entries c).1 ≡ returns result
    → (c ≡ database) × (hs.serialize entries ≡ bytes result)
compiled-returns hs entries database result h =
    (refl, serialize_database-returns hs.frees_database (hs.serialize entries) result h)
compiled-returns hs entries (compiler_error n message) result h = absurd (ends_not hs.frees_error h)
  where
    ends_not :
        (freed : Bool)
        → (if freed then raises (Error.in_expression n message) else terminates) ≡ returns result
        → ⊥
    ends_not true e = cc
    ends_not false e = cc
compiled-returns hs entries (compile_code c) result h = absurd (cc)

compile_read-returns :
    (hs : Hyperscan) (size : ℕ) (t : Tables) (r : Result (List Entry)) (result : Bytes)
    → read_entries size 1 t ≡ r
    → (compile_read hs r).1 ≡ returns result
    → (entries : List Entry) × (length entries ≡ size)
      × Reads t 1 entries
      × (hs.compile_multi entries ≡ database)
      × (hs.serialize entries ≡ bytes result)
unfolding compile
compile_read-returns hs size t (ok entries) result e h =
    let (long, reads) = read_entries-Reads size 1 t entries e in
    let (is_database, is_result) =
      compiled-returns hs entries (hs.compile_multi entries) result h in
    (entries, long, reads, is_database, is_result)
compile_read-returns hs size t (raise error) result e h = absurd (cc)

-- If a text is returned, it is the serialized database of just the entries of the tables, in order:
-- each expression with the flags and the id at its own index, as many as the first table holds.
pub l_serialize_regexp_db-returns :
    (hs : Hyperscan) (size : ℕ) (t : Tables) (result : Bytes)
    → (l_serialize_regexp_db hs size t).1 ≡ returns result
    → (entries : List Entry) × (length entries ≡ size)
      × Reads t 1 entries
      × (hs.compile_multi entries ≡ database)
      × (hs.serialize entries ≡ bytes result)
unfolding l_serialize_regexp_db
l_serialize_regexp_db-returns hs size t result h =
    compile_read-returns hs size t (read_entries size 1 t) result refl h
