-- ===== src/Applib.antt =====
-- The bindings of client/applib.cpp that stand by themselves, and the reloading and the signals of
-- client/app.cpp. What the C library and ncurses do is a parameter.
pub mod Messages
mod Tests
use snowcone.Prelude.{
  ℕ, suc, ◌+◌, ◌≡◌, Bool, true, false, Option, none, some, List, [], ◌∷◌, ◌++◌, Bytes, codes, ◌==◌,
  ltb, leb, ◌||◌, ◌&&◌, if◌then◌else◌, take, drop, Integer, pos, neg,
}
use snowcone.LineBuffer.{until_zero}
use snowcone.IrcMsg.{IrcMsg, IrcTag, Result, ok, throw, stuck, parse_irc_message, parse_irc_tags}
use snowcone.IrcSession.{what}
use snowcone.IrcLua.{Message, Table, pushircmsg, pushtags}
use snowcone.LuaStack.{Lua, Safe, safecall, lua_callback}

-- What a binding returns: its result, `nil` with a message, or a Lua error with a message. `endless`
-- is no outcome of the code: a loop ran out of fuel.
pub data Returned (A : Type 0) : Type 0 where
  returned : A → Returned A
  failed : Bytes → Returned A
  raised : Bytes → Returned A
  endless : Returned A

abbrev pub or_what : {A : Type 0} → Result A → Returned A
or_what (ok a) = returned a
or_what (throw e) = failed (what e)
or_what stuck = endless

abbrev pub converted : {A B : Type 0} → (A → B) → Returned A → Returned B
converted f (returned a) = returned (f a)
converted f (failed message) = failed message
converted f (raised message) = raised message
converted f endless = endless

-- `strcpy` copies the text up to its first zero byte.
unfoldable pub l_parse_irc : Bytes → Returned Message
unfolding until_zero
l_parse_irc txt = converted pushircmsg (or_what (parse_irc_message (some (until_zero txt))))

unfoldable pub l_parse_irc_tags : Bytes → Returned Table
unfolding until_zero
l_parse_irc_tags txt = converted pushtags (or_what (parse_irc_tags (until_zero txt)))

abbrev pub contains : ℕ → Bytes → Bool
contains c [] = false
contains c (x ∷ s) = (x == c) || contains c s

-- What `inet_pton` answers: an address in the buffer, 0, or an error.
pub data Converted : Type 0 where
  address : Bytes → Converted
  malformed : Converted
  unsupported : Bytes → Converted

abbrev pub pton_result : ℕ → Converted → Returned Bytes
pton_result len (address buffer) = returned (take len buffer)
pton_result len malformed = failed (codes "pton: bad address")
pton_result len (unsupported error) = failed (codes "pton: " ++ error)

-- The flag of `inet_pton` chooses the family of IPv6.
unfoldable pub l_pton : (inet_pton : Bool → Bytes → Converted) → Bytes → Returned Bytes
unfolding until_zero
l_pton inet_pton txt =
    let p : Bytes = until_zero txt in
    let ipv6 : Bool = contains b':' p in pton_result (if ipv6 then 16 else 4) (inet_pton ipv6 p)

-- The answer of `raise` or `timespec_get`.
unfoldable pub l_raise : (raise : Integer → Option Bytes) → Integer → Returned (Unit {0})
l_raise raise s = elim (raise s) [
  | none ↦ returned tt
  | some error ↦ raised (codes "raise: " ++ error)
]

unfoldable pub l_time : Option (ℕ × ℕ) → Returned (ℕ × ℕ)
l_time none = raised (codes "timespec_get: failed")
l_time (some now) = returned now

-- `isalnum` is defined on the values of a byte and on -1; `none` stands for no behaviour at all.
abbrev pub is_alnum : ℕ → Bool
is_alnum c =
    (leb b'0' c && leb c b'9') || ((leb b'A' c && leb c b'Z') || (leb b'a' c && leb c b'z'))

unfoldable pub l_isalnum : Integer → Option Bool
l_isalnum (pos i) = if ltb i 256 then some (is_alnum i) else none
l_isalnum (neg i) = if i == 0 then some false else none

module _ {V : Type 0} (lua : Lua V) where
  -- The loop over the arguments, with a tab between two.
  unfoldable pub print_text : List V → Bytes
  print_text [] = []
  print_text (v ∷ []) = lua.display v
  print_text (v ∷ w ∷ more) = lua.display v ++ b'\t' ∷ print_text (w ∷ more)

  unfoldable pub l_print : (logic_module : Option V) → List V → Safe lua
  unfolding print_text lua_callback
  l_print logic_module args =
      lua_callback lua logic_module (codes "print") 1 (lua.string (print_text args) ∷ [])

  -- `luaL_loadfile` pushes a function, or an error.
  pub data Loaded : Type 0 where
    loaded : V → Loaded
    load_error : V → Loaded

  pub record Reloaded : Type 0 where
    pub stack : List V
    pub success : Bool
    pub printed : Option V

  abbrev pub after_reload : Safe lua → Reloaded
  after_reload s = record { stack = s.stack; success = true; printed = s.printed }

  unfoldable pub reload : Loaded → List V → Reloaded
  unfolding safecall
  reload (loaded f) stack = after_reload (safecall lua 0 (f ∷ stack))
  reload (load_error e) stack = record {
    stack = drop 1 (e ∷ stack);
    success = false;
    printed = some e;
  }

-- What a signal makes the program do.
pub data Reaction : Type 0 where
  reloads endwin refresh resize on_resize : Reaction

-- The signals, by their numbers.
unfoldable pub signal_thread : (sigusr1 sigwinch : ℕ) → List ℕ → List Reaction
signal_thread sigusr1 sigwinch [] = []
signal_thread sigusr1 sigwinch (sig ∷ signals) =
    (if sig == sigusr1
      then reloads ∷ []
      else if sig == sigwinch
      then endwin ∷ refresh ∷ resize ∷ on_resize ∷ []
      else [])
    ++ signal_thread sigusr1 sigwinch signals
