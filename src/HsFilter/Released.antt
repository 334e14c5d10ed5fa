-- ===== src/HsFilter/Released.antt =====
-- What Hyperscan allocates is freed.
use snowcone.Prelude.{ℕ, ◌≡◌, refl, Bool, true, false, List, [], ◌∷◌, if◌then◌else◌}
use snowcone.HsFilter.{
  Entry, Error, Result, ok, raise, Tables, read_entries, Compiled, database, compiler_error,
  compile_code, Serialized, bytes, serialize_code, Memory, db, error_text, serialized, Action,
  allocates, frees, returns, raises, terminates, Done, Hyperscan, compile, compiled, compile_read,
  serialize_database, after, l_serialize_regexp_db,
}

abbrev pub same_memory : Memory → Memory → Bool
same_memory db db = true
same_memory error_text error_text = true
same_memory serialized serialized = true
same_memory _ _ = false

-- What is allocated and not freed after the actions; `none` if something is freed that is not
-- allocated, or allocated twice.
pub data Held : Type 0 where
  held : (has_db has_error has_bytes : Bool) → Held
  misused : Held

abbrev pub act : Action → Held → Held
act (allocates db) (held false e b) = held true e b
act (allocates error_text) (held d false b) = held d true b
act (allocates serialized) (held d e false) = held d e true
act (frees db) (held true e b) = held false e b
act (frees error_text) (held d true b) = held d false b
act (frees serialized) (held d e true) = held d e false
act _ _ = misused

abbrev pub act_all : List Action → Held → Held
act_all [] h = h
act_all (a ∷ actions) h = act_all actions (act a h)

abbrev pub nothing_held : Held
nothing_held = held false false false

-- Everything has been freed, or the program has been terminated.
abbrev pub IsReleased : Done → Type 0
IsReleased (actions, terminates) = Unit
IsReleased (actions, returns s) = act_all actions nothing_held ≡ nothing_held
IsReleased (actions, raises e) = act_all actions nothing_held ≡ nothing_held

serialize_database-IsReleased :
    (freed : Bool) (s : Serialized)
    → IsReleased (after (allocates db ∷ []) (serialize_database freed s))
serialize_database-IsReleased true (bytes s) = refl
serialize_database-IsReleased true (serialize_code c) = refl
serialize_database-IsReleased false (bytes s) = tt
serialize_database-IsReleased false (serialize_code c) = tt

compiler_error-IsReleased :
    (freed : Bool) (e : Error)
    → IsReleased
        (allocates error_text ∷ frees error_text ∷ [], if freed then raises e else terminates)
compiler_error-IsReleased true e = refl
compiler_error-IsReleased false e = tt

compiled-IsReleased :
    (hs : Hyperscan) (entries : List Entry) (c : Compiled) → IsReleased (compiled hs entries c)
compiled-IsReleased hs entries database =
    serialize_database-IsReleased hs.frees_database (hs.serialize entries)
compiled-IsReleased hs entries (compiler_error n message) =
    compiler_error-IsReleased hs.frees_error (Error.in_expression n message)
compiled-IsReleased hs entries (compile_code c) = refl

compile_read-IsReleased :
    (hs : Hyperscan) (r : Result (List Entry)) → IsReleased (compile_read hs r)
unfolding compile
compile_read-IsReleased hs (ok entries) = compiled-IsReleased hs entries (hs.compile_multi entries)
compile_read-IsReleased hs (raise e) = refl

-- Whatever stands in the tables and whatever Hyperscan answers: unless the program is terminated,
-- the database, the error and the bytes are freed once if they are allocated, also where a Lua error
-- is raised, and nothing else is freed.
pub l_serialize_regexp_db-IsReleased :
    (hs : Hyperscan) (size : ℕ) (t : Tables) → IsReleased (l_serialize_regexp_db hs size t)
unfolding l_serialize_regexp_db
l_serialize_regexp_db-IsReleased hs size t = compile_read-IsReleased hs (read_entries size 1 t)
