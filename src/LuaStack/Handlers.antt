-- ===== src/LuaStack/Handlers.antt =====
-- The completion handlers that call a Lua function: `fail` and `Websocket::on_read` of
-- client/httpd.cpp, `l_dnslookup` of client/dnslookup.cpp and `l_execute1` of client/process.cpp; and
-- the calls of the logic module, `lua_callback` of client/applib.cpp.
use snowcone.Prelude.{
  ℕ, suc, ◌+◌, ◌≡◌, refl, ap, ◌∙◌, sym, false, Option, none, some, List, [], ◌∷◌, ◌++◌,
  append_assoc, arith, length, reverse, map, take_front, drop_front, length-append, Bytes, Integer,
}
use mathlib.Core.List.{reverse-append, reverse-cons, reverse-reverse}
use snowcone.LuaStack.{Lua, Safe, safecall, lua_callback, rotate}
use snowcone.LuaStack.Calls.{settled, safecall-settled}

-- What a handler has been called for.
pub data Event : Type 0 where
  http_failure : (what message : Bytes) → Event
  websocket_message : Bytes → Event
  websocket_failure : Bytes → Event
  addresses : List Bytes → Event
  lookup_failure : Bytes → Event
  exited : Integer → (output errors : Bytes) → Event
  process_failure : Bytes → Event

length-reverse : {V : Type 0} (xs : List V) → length (reverse xs) ≡ length xs
length-reverse [] = refl
length-reverse (x ∷ xs) =
    ap length (reverse-cons x xs)
    ∙ omega (arith, length-append (reverse xs) (x ∷ []), length-reverse xs)

module _ {V : Type 0} (lua : Lua V) where
  abbrev pub push_all : List Bytes → List V → List V
  push_all [] stack = stack
  push_all (text ∷ more) stack = push_all more (lua.string text ∷ stack)

  -- Each pushes the function and the arguments, and calls.
  unfoldable pub http_fail : (what message : Bytes) → (cb : V) → List V → Safe lua
  http_fail what message cb stack =
      safecall lua 3 (lua.string message ∷ lua.string what ∷ lua.nil ∷ cb ∷ stack)

  unfoldable pub websocket_read : Bytes → (cb : V) → List V → Safe lua
  websocket_read text cb stack = safecall lua 1 (lua.string text ∷ cb ∷ stack)

  unfoldable pub websocket_read_error : Bytes → (cb : V) → List V → Safe lua
  websocket_read_error what cb stack = safecall lua 2 (lua.string what ∷ lua.nil ∷ cb ∷ stack)

  unfoldable pub dnslookup_success : List Bytes → (cb : V) → List V → Safe lua
  dnslookup_success results cb stack =
      safecall lua (1 + length results) (push_all results (lua.nil ∷ cb ∷ stack))

  unfoldable pub dnslookup_failure : Bytes → (cb : V) → List V → Safe lua
  dnslookup_failure message cb stack = safecall lua 1 (lua.string message ∷ cb ∷ stack)

  unfoldable pub process_complete : Integer → (output errors : Bytes) → (cb : V) → List V → Safe lua
  process_complete code output errors cb stack =
      safecall lua 3 (lua.string errors ∷ lua.string output ∷ lua.integer code ∷ cb ∷ stack)

  unfoldable pub process_fail : Bytes → (cb : V) → List V → Safe lua
  process_fail what cb stack = safecall lua 2 (lua.string what ∷ lua.nil ∷ cb ∷ stack)

  unfoldable pub handle : Event → (cb : V) → List V → Safe lua
  unfolding http_fail websocket_read websocket_read_error dnslookup_success dnslookup_failure
      process_complete process_fail
  handle (http_failure what message) = http_fail what message
  handle (websocket_message text) = websocket_read text
  handle (websocket_failure what) = websocket_read_error what
  handle (addresses results) = dnslookup_success results
  handle (lookup_failure message) = dnslookup_failure message
  handle (exited code output errors) = process_complete code output errors
  handle (process_failure what) = process_fail what

  -- What the function is told: an error stands behind `nil`, except in a look-up, which tells the
  -- error first.
  abbrev pub arguments : Event → List V
  arguments (http_failure what message) = lua.nil ∷ lua.string what ∷ lua.string message ∷ []
  arguments (websocket_message text) = lua.string text ∷ []
  arguments (websocket_failure what) = lua.nil ∷ lua.string what ∷ []
  arguments (addresses results) = lua.nil ∷ map lua.string results
  arguments (lookup_failure message) = lua.string message ∷ []
  arguments (exited code output errors) =
      lua.integer code ∷ lua.string output ∷ lua.string errors ∷ []
  arguments (process_failure what) = lua.nil ∷ lua.string what ∷ []

  push_all-reverse :
      (results : List Bytes) (stack : List V)
      → push_all results stack ≡ reverse (map lua.string results) ++ stack
  push_all-reverse [] stack = refl
  push_all-reverse (text ∷ more) stack =
      push_all-reverse more (lua.string text ∷ stack)
      ∙ (sym (append_assoc (reverse (map lua.string more)) (lua.string text ∷ []) stack)
          ∙ ap (λ t. t ++ stack)
              (sym (reverse-append (lua.string text ∷ []) (map lua.string more))))

  -- The call of a function with arguments that have been pushed in order.
  safecall-arguments :
      (n : ℕ) (args : List V) (f : V) (rest : List V)
      → n ≡ length (reverse args)
      → safecall lua n (reverse args ++ f ∷ rest) ≡ settled lua (lua.call f args) rest
  safecall-arguments n args f rest h = rw h (
      safecall-settled lua (reverse args) f rest
      ∙ ap (λ t. settled lua (lua.call f t) rest) (reverse-reverse args))

  length-map_string : (results : List Bytes) → length (map lua.string results) ≡ length results
  length-map_string [] = refl
  length-map_string (text ∷ more) = ap suc (length-map_string more)

  -- What a call of the logic module does.
  abbrev pub called : Option V → List V → List V → Safe lua
  called none args rest = record { stack = rest; ok = false; printed = none }
  called (some logic_module) args rest = settled lua (lua.call logic_module args) rest

  -- What every handler leaves is what a call of its function with just these arguments leaves: the
  -- status, an error of the call printed with its traceback, and the stack as it was. A failure of
  -- HTTP, of a web socket or of a process stands behind `nil`. A look-up gives its message alone, or
  -- `nil` and each address.
  pub handle-settled :
      (event : Event) (cb : V) (stack : List V)
      → handle event cb stack ≡ settled lua (lua.call cb (arguments event)) stack
  unfolding handle
  handle-settled (http_failure what message) cb stack =
      safecall-settled lua (lua.string message ∷ lua.string what ∷ lua.nil ∷ []) cb stack
  handle-settled (websocket_message text) cb stack =
      safecall-settled lua (lua.string text ∷ []) cb stack
  handle-settled (websocket_failure what) cb stack =
      safecall-settled lua (lua.string what ∷ lua.nil ∷ []) cb stack
  handle-settled (addresses results) cb stack =
      let args : List V = lua.nil ∷ map lua.string results in
      let pushed : push_all results (lua.nil ∷ cb ∷ stack) ≡ reverse args ++ cb ∷ stack =
        push_all-reverse results (lua.nil ∷ cb ∷ stack)
        ∙ (sym (append_assoc (reverse (map lua.string results)) (lua.nil ∷ []) (cb ∷ stack))
            ∙ ap (λ t. t ++ cb ∷ stack) (sym (reverse-cons lua.nil (map lua.string results)))) in
      ap (safecall lua (1 + length results)) pushed
      ∙ safecall-arguments (1 + length results) args cb stack
          (omega (arith, length-reverse args, length-map_string results))
  handle-settled (lookup_failure message) cb stack =
      safecall-settled lua (lua.string message ∷ []) cb stack
  handle-settled (exited code output errors) cb stack =
      safecall-settled lua (lua.string errors ∷ lua.string output ∷ lua.integer code ∷ []) cb stack
  handle-settled (process_failure what) cb stack =
      safecall-settled lua (lua.string what ∷ lua.nil ∷ []) cb stack

  -- Without a module nothing is called, and the arguments are popped. Else the module is called with
  -- the key in front of the arguments, which are those on the stack in the order in which they were
  -- pushed; the result tells whether the call succeeded. What was below the arguments is left.
  pub lua_callback-settled :
      (logic_module : Option V) (key : Bytes) (args : List V) (rest : List V)
      → lua_callback lua logic_module key (length args) (args ++ rest)
        ≡ called logic_module (lua.string key ∷ reverse args) rest
  unfolding lua_callback
  lua_callback-settled none key args rest = rw (drop_front args rest) refl
  lua_callback-settled (some m) key args rest =
      let k : V = lua.string key in
      let back : reverse (k ∷ reverse args) ≡ args ++ k ∷ [] =
        reverse-cons k (reverse args) ∙ ap (λ t. t ++ k ∷ []) (reverse-reverse args) in
      ap (safecall lua (suc (length args))) (
        rotated k m args rest
        ∙ (sym (append_assoc args (k ∷ []) (m ∷ rest)) ∙ ap (λ t. t ++ m ∷ rest) (sym back)))
      ∙ safecall-arguments (suc (length args)) (k ∷ reverse args) m rest
          (omega (arith, length-reverse (k ∷ reverse args), length-reverse args))
    where
      rotated :
          (k m : V) (args rest : List V)
          → rotate lua (suc (suc (length args))) 2 (k ∷ m ∷ (args ++ rest)) ≡ args ++ k ∷ m ∷ rest
      rotated k m args rest =
          rw (take_front args rest, drop_front args rest) (append_assoc args (k ∷ m ∷ []) rest)
