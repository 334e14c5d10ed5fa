-- ===== src/LuaStack.antt =====
-- The stack of a Lua state, `safecall` of client/safecall.cpp and `lua_callback` of
-- client/applib.cpp. A stack is the list of its values,
-- the top first. The values and what calls of them do are the interpreter's.
pub mod Calls
pub mod Handlers
mod Tests
use snowcone.Prelude.{
  ℕ, zero, suc, ◌+◌, Bool, true, false, Option, none, some, List, [], ◌∷◌, ◌++◌, Bytes, take, drop,
  get_or, reverse, Integer, if◌then◌else◌,
}

-- How a call ends: with its results, or with an error value.
pub data Outcome (V : Type 0) : Type 0 where
  finished : List V → Outcome V
  failed : V → Outcome V

pub record Lua (V : Type 0) : Type 0 where
  pub nil : V
  -- The function that `safecall` pushes: it adds a traceback to the error.
  pub traceback : V
  pub string : Bytes → V
  pub integer : Integer → V
  pub boolean : Bool → V
  -- A new table, with the assignments in order.
  pub table : List (Bytes × Bytes) → V
  -- The pairs of a table in the order of `lua_next`, if the value is a table.
  pub pairs : V → Option (List (V × V))
  pub call : V → List V → Outcome V
  -- What a message handler makes of an error.
  pub handle : V → V → V
  -- `lua_tointeger`; 0 if the value is no integer.
  pub tointeger : V → Integer
  -- `lua_tolstring`; the null pointer if the value is neither a string nor a number.
  pub tolstring : V → Option Bytes
  -- `luaL_tolstring`.
  pub display : V → Bytes

module _ {V : Type 0} (lua : Lua V) where
  -- Index -1 is the top.
  abbrev pub at : ℕ → List V → V
  at depth stack = get_or stack depth lua.nil

  abbrev pub adjust : ℕ → List V → List V
  adjust zero results = []
  adjust (suc n) [] = lua.nil ∷ adjust n []
  adjust (suc n) (r ∷ results) = r ∷ adjust n results

  abbrev pub handled : Option V → V → V
  handled none e = e
  handled (some handler) e = lua.handle handler e

  abbrev pub finish : Outcome V → ℕ → Option V → List V → List V × Bool
  finish (finished results) nresults msgh rest = (reverse (adjust nresults results) ++ rest, true)
  finish (failed e) nresults msgh rest = (handled msgh e ∷ rest, false)

  -- `lua_pcall`, which takes the function and its arguments off the stack.
  abbrev pub pcall : (nargs nresults : ℕ) → Option V → List V → List V × Bool
  pcall nargs nresults msgh stack =
      finish (lua.call (at nargs stack) (reverse (take nargs stack))) nresults msgh
        (drop (suc nargs) stack)

  -- `lua_insert` of the top at the index `-1 - depth`.
  abbrev pub insert : ℕ → List V → List V
  insert depth [] = []
  insert depth (top ∷ stack) = take depth stack ++ top ∷ drop depth stack

  -- What a call of `safecall` leaves: the stack, the status, and the error that it has printed.
  pub record Safe : Type 0 where
    pub stack : List V
    pub ok : Bool
    pub printed : Option V

  abbrev pub report : List V × Bool → Safe
  report (stack, true) = record { stack = drop 1 stack; ok = true; printed = none }
  report (stack, false) = record { stack = drop 2 stack; ok = false; printed = some (at 0 stack) }

  unfoldable pub safecall : ℕ → List V → Safe
  safecall args stack =
      let inserted : List V = insert (suc args) (lua.traceback ∷ stack) in
      report (pcall args 0 (some (at (suc args) inserted)) inserted)

  -- `lua_rotate` of the top `size` values, `n` of them to the bottom.
  abbrev pub rotate : (size n : ℕ) → List V → List V
  rotate size n stack = (drop n (take size stack) ++ take n stack) ++ drop size stack

  -- The module in the registry, if there is one, is called with the key and the arguments.
  unfoldable pub lua_callback : Option V → (key : Bytes) → (args : ℕ) → List V → Safe
  unfolding safecall
  lua_callback none key args stack = record {
    stack = drop (suc args) (lua.nil ∷ stack);
    ok = false;
    printed = none;
  }
  lua_callback (some logic_module) key args stack =
      safecall (suc args) (rotate (suc (suc args)) 2 (lua.string key ∷ logic_module ∷ stack))
