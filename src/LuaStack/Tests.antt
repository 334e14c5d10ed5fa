-- ===== src/LuaStack/Tests.antt =====
-- Calls of an interpreter whose values are texts: the function "f" returns its arguments, and others
-- fail.
use snowcone.Prelude.{
  ◌≡◌, refl, true, false, none, some, [], ◌∷◌, ◌++◌, Bytes, codes, same, pos, if◌then◌else◌,
}
use snowcone.LuaStack.{Lua, finished, failed, safecall}
use snowcone.LuaStack.Handlers.{addresses, handle, handle-settled}
use snowcone.LuaStack.Calls.{settled}

abbrev texts : Lua Bytes
texts = record {
  nil = [];
  traceback = codes "traceback";
  string = λ s. s;
  integer = λ i. [];
  boolean = λ b. [];
  table = λ pairs. codes "table";
  pairs = λ v. none;
  call = λ f args. if same f (codes "f") then finished args else failed f;
  handle = λ handler e. e ++ handler;
  tointeger = λ v. pos 0;
  tolstring = λ v. some v;
  display = λ v. v;
}

-- An error is printed with its traceback.
safecall_fails :
    safecall texts 1 (codes "a" ∷ codes "g" ∷ codes "below" ∷ [])
    ≡ record { stack = codes "below" ∷ []; ok = false; printed = some (codes "gtraceback") }
unfolding safecall
safecall_fails = refl

safecall_returns :
    safecall texts 1 (codes "a" ∷ codes "f" ∷ codes "below" ∷ [])
    ≡ record { stack = codes "below" ∷ []; ok = true; printed = none }
unfolding safecall
safecall_returns = refl

handle-settled_example :
    handle texts (addresses (codes "::1" ∷ codes "127.0.0.1" ∷ [])) (codes "f") []
    ≡ settled texts (finished ([] ∷ codes "::1" ∷ codes "127.0.0.1" ∷ [])) []
handle-settled_example =
    handle-settled texts (addresses (codes "::1" ∷ codes "127.0.0.1" ∷ [])) (codes "f") []
