-- ===== src/LuaStack/Calls.antt =====
-- `safecall` calls the function under its arguments, and leaves what was below.
use snowcone.Prelude.{
  ℕ, suc, ◌≡◌, refl, ap, ◌∙◌, sym, true, false, Option, none, some, List, [], ◌∷◌, ◌++◌,
  append_assoc, arith, length, drop, get_or, reverse, take_front, drop_front, get_or_front,
  length-append,
}
use snowcone.LuaStack.{
  Lua, Outcome, finished, failed, Safe, safecall, insert, pcall, finish, report,
}

drop_below :
    {V : Type 0} (args : List V) (f : V) (rest : List V)
    → drop (suc (length args)) (args ++ f ∷ rest) ≡ rest
drop_below [] f rest = refl
drop_below (a ∷ args) f rest = drop_below args f rest

get_below :
    {V : Type 0} (args : List V) (f h d : V) (rest : List V)
    → get_or (args ++ f ∷ h ∷ rest) (suc (length args)) d ≡ h
get_below [] f h d rest = refl
get_below (a ∷ args) f h d rest = get_below args f h d rest

module _ {V : Type 0} (lua : Lua V) where
  -- The call of `f` behind its arguments, the last of them on top.
  pub pcall-front :
      (args : List V) (f : V) (nresults : ℕ) (msgh : Option V) (rest : List V)
      → pcall lua (length args) nresults msgh (args ++ f ∷ rest)
        ≡ finish lua (lua.call f (reverse args)) nresults msgh rest
  pcall-front args f nresults msgh rest =
      rw (get_or_front args f lua.nil rest, take_front args (f ∷ rest), drop_below args f rest) refl

  insert-front :
      (args : List V) (f h : V) (rest : List V)
      → insert lua (suc (length args)) (h ∷ (args ++ f ∷ rest)) ≡ args ++ f ∷ h ∷ rest
  insert-front args f h rest =
      let grouped : args ++ f ∷ rest ≡ (args ++ f ∷ []) ++ rest =
        sym (append_assoc args (f ∷ []) rest) in
      let long : length (args ++ f ∷ []) ≡ suc (length args) =
        omega (arith, length-append args (f ∷ [])) in
      rw (grouped, ← long, take_front (args ++ f ∷ []) rest, drop_front (args ++ f ∷ []) rest)
        (append_assoc args (f ∷ []) (h ∷ rest))

  -- What is left when the call has ended.
  abbrev pub settled : Outcome V → List V → Safe lua
  settled (finished results) rest = record { stack = rest; ok = true; printed = none }
  settled (failed e) rest = record {
    stack = rest;
    ok = false;
    printed = some (lua.handle lua.traceback e);
  }

  report-finish :
      (outcome : Outcome V) (rest : List V)
      → report lua (finish lua outcome 0 (some lua.traceback) (lua.traceback ∷ rest))
        ≡ settled outcome rest
  report-finish (finished results) rest = refl
  report-finish (failed e) rest = refl

  -- The function below the arguments is called with them, in the order in which they were pushed;
  -- an error is printed with its traceback; and the stack is left as it was below the function.
  pub safecall-settled :
      (args : List V) (f : V) (rest : List V)
      → safecall lua (length args) (args ++ f ∷ rest) ≡ settled (lua.call f (reverse args)) rest
  unfolding safecall
  safecall-settled args f rest =
      rw (insert-front args f lua.traceback rest, get_below args f lua.traceback lua.nil rest)
        (ap (report lua) (pcall-front args f 0 (some lua.traceback) (lua.traceback ∷ rest))
          ∙ report-finish (lua.call f (reverse args)) rest)
