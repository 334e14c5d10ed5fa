-- ===== src/Httpd.antt =====
-- The HTTP server of client/httpd.cpp around the web sockets: `handle_request`, the class `Session`
-- and the class `Listener`. A response is Beast's, and so are the functions on it.
pub mod Answer
pub mod Session
pub mod Serving
pub mod Listener
pub mod Accepting
mod ListenerTests
mod Tests
use snowcone.Prelude.{
  ℕ, zero, suc, ◌+◌, Bool, true, false, Option, none, some, List, [], ◌∷◌, ◌++◌, Bytes, codes, drop,
  length, Integer, pos, integer_eq, if◌then◌else◌,
}
use snowcone.LineBuffer.{until_zero}
use snowcone.LuaStack.{Lua, Outcome, at, pcall}

pub record Request : Type 0 where
  pub verb : Bytes
  pub target : Bytes
  pub body : Bytes
  pub fields : List (Bytes × Bytes)
  pub version : ℕ
  pub keep_alive : Bool
  -- `websocket::is_upgrade`
  pub upgrade : Bool

pub record Beast (R : Type 0) : Type 0 where
  pub version_string : Bytes
  pub response : (status : Integer) (version : ℕ) → R
  pub set : Bytes → Bytes → R → R
  pub keep_alive : Bool → R → R
  pub content_length : ℕ → R → R
  pub body : Bytes → R → R
  pub prepare_payload : R → R
  -- `msg.keep_alive()`
  pub keeps_alive : R → Bool

-- `handle_request` gives a response, or makes a `std::string` of a null pointer.
pub data Reply (R : Type 0) : Type 0 where
  respond : R → Reply R
  null_text : Reply R

module _ {V R : Type 0} (lua : Lua V) (beast : Beast R) (req : Request) where
  unfoldable pub server_error : Bytes → R
  server_error what =
      let res : R = beast.response (pos 500) req.version in
      let res : R = beast.set (codes "Server") beast.version_string res in
      let res : R = beast.set (codes "Content-Type") (codes "text/plain") res in
      let res : R = beast.keep_alive req.keep_alive res in
      beast.prepare_payload (beast.body what res)

  abbrev pub internal_server_error : R
  internal_server_error = server_error (codes "internal server error")

  -- The loop over the headers, with the last key on top of the stack.
  unfoldable pub set_headers : List (V × V) → R → List V → Option R × List V
  set_headers [] res stack = (some res, drop 1 stack)
  set_headers ((k, v) ∷ pairs) res stack =
      let visited : List V = v ∷ k ∷ drop 1 stack in
      let key : Bytes = until_zero (lua.display (at lua 1 visited)) in
      let copied : List V = lua.string key ∷ visited in
      elim (lua.tolstring (at lua 1 copied)) [
        | none ↦ (none, drop 6 copied)
        | some val ↦ set_headers pairs (beast.set key (until_zero val) res) (drop 2 copied)
      ]

  abbrev pub set_body : Option Bytes → R → R
  set_body none res = beast.content_length 0 res
  set_body (some text) res = beast.body text (beast.content_length (length text) res)

  abbrev pub with_headers : Option R × List V → Reply R × List V
  with_headers (none, stack) = (respond internal_server_error, stack)
  with_headers (some res, stack) = (respond res, drop 3 stack)

  abbrev pub add_headers : Option (List (V × V)) → R → List V → Reply R × List V
  add_headers none res stack = (respond res, drop 3 stack)
  add_headers (some pairs) res stack = with_headers (set_headers pairs res (lua.nil ∷ stack))

  -- The three results are on the stack.
  unfoldable pub build_response : List V → Reply R × List V
  unfolding set_headers server_error
  build_response stack =
      let code : Integer = lua.tointeger (at lua 2 stack) in
      let res : R = beast.response code req.version in
      let res : R = beast.set (codes "Server") beast.version_string res in
      let res : R =
        set_body (lua.tolstring (at lua 1 stack)) (beast.keep_alive req.keep_alive res) in
      if integer_eq code (pos 0)
      then (respond internal_server_error, drop 3 stack)
      else add_headers (lua.pairs (at lua 0 stack)) res stack

  abbrev pub error_response : Option Bytes → List V → Reply R × List V
  error_response none stack = (null_text, stack)
  error_response (some err) stack = (respond (server_error (until_zero err)), drop 1 stack)

  abbrev pub after_call : List V × Bool → Reply R × List V
  after_call (stack, true) = build_response stack
  after_call (stack, false) = error_response (lua.tolstring (at lua 0 stack)) stack

  unfoldable pub handle_request : (cb : V) → List V → Reply R × List V
  unfolding build_response
  handle_request cb stack =
      let pushed : List V =
        lua.table req.fields
        ∷ lua.string req.body
        ∷ lua.string req.target
        ∷ lua.string req.verb
        ∷ cb
        ∷ stack in
      after_call (pcall lua 4 3 none pushed)
