-- ===== src/Keyboard/Callbacks.antt =====
-- `do_keyboard`, `do_mouse` and `do_paste` of client/app.cpp on the stack of the Lua state: the calls
-- of the logic module that the input leads to.
use snowcone.Prelude.{
  ℕ, zero, suc, ◌+◌, ◌≡◌, refl, ap, ◌∙◌, Bool, true, false, Option, none, some, List, [], ◌∷◌, ◌++◌,
  codes, Integer, pos, neg, if◌then◌else◌, ◌&&◌, not, ◌==◌,
}
use snowcone.LuaStack.{Lua, Safe, Outcome, finished, failed, lua_callback}
use snowcone.LuaStack.Calls.{settled}
use snowcone.LuaStack.Handlers.{called, lua_callback-settled}
use snowcone.Keyboard.{Key, plain, negated, Event, keyboard, mouse, pasted, do_keyboard}

abbrev pub key_value : Key → Integer
key_value (plain key) = pos key
key_value (negated zero) = pos 0
key_value (negated (suc key)) = neg key

abbrev pub to_list : {V : Type 0} → Option V → List V
to_list none = []
to_list (some e) = e ∷ []

settled-frame :
    {V : Type 0} (lua : Lua V) (outcome : Outcome V) (stack : List V)
    → settled lua outcome stack ≡ record (settled lua outcome []) { stack = stack }
settled-frame lua (finished results) stack = refl
settled-frame lua (failed e) stack = refl

called-frame :
    {V : Type 0} (lua : Lua V) (logic_module : Option V) (args stack : List V)
    → called lua logic_module args stack
      ≡ record (called lua logic_module args []) { stack = stack }
called-frame lua none args stack = refl
called-frame lua (some m) args stack = settled-frame lua (lua.call m args) stack

and_false : (b : Bool) → b && false ≡ false
and_false true = refl
and_false false = refl

module _ {V : Type 0} (lua : Lua V) (logic_module : Option V) where
  -- What events leave: the stack, how often `raise(SIGINT)` is called, and the errors that are
  -- printed.
  pub record Effects : Type 0 where
    pub stack : List V
    pub interrupts : ℕ
    pub printed : List V

  abbrev pub effects : Bool → Safe lua → Effects
  effects interrupted s = record {
    stack = s.stack;
    interrupts = if interrupted then 1 else 0;
    printed = to_list s.printed;
  }

  abbrev pub finish_keyboard : Key → Safe lua → Effects
  finish_keyboard key s = effects (do_keyboard s.ok key) s

  unfoldable pub on_event : Event → List V → Effects
  on_event (keyboard key) stack =
      finish_keyboard key (
        lua_callback lua logic_module (codes "on_keyboard") 1 (lua.integer (key_value key) ∷ stack))
  on_event (mouse y x shifted) stack = effects false (
      lua_callback lua logic_module (codes "on_mouse") 3
        (lua.boolean shifted ∷ lua.integer (pos x) ∷ lua.integer (pos y) ∷ stack))
  on_event (pasted paste) stack =
      effects false (lua_callback lua logic_module (codes "on_paste") 1 (lua.string paste ∷ stack))

  abbrev pub then_effects : Effects → Effects → Effects
  then_effects first more = record {
    stack = more.stack;
    interrupts = first.interrupts + more.interrupts;
    printed = first.printed ++ more.printed;
  }

  unfoldable pub on_events : List Event → List V → Effects
  unfolding on_event
  on_events [] stack = record { stack = stack; interrupts = 0; printed = [] }
  on_events (event ∷ events) stack =
      let first = on_event event stack in then_effects first (on_events events first.stack)

  -- What the module is called with.
  abbrev pub arguments : Event → List V
  arguments (keyboard key) = lua.string (codes "on_keyboard") ∷ lua.integer (key_value key) ∷ []
  arguments (mouse y x shifted) =
      lua.string (codes "on_mouse")
      ∷ lua.integer (pos y)
      ∷ lua.integer (pos x)
      ∷ lua.boolean shifted
      ∷ []
  arguments (pasted paste) = lua.string (codes "on_paste") ∷ lua.string paste ∷ []

  abbrev pub is_interrupt : Event → Bool
  is_interrupt (keyboard (plain key)) = key == 3
  is_interrupt (keyboard (negated key)) = false
  is_interrupt (mouse y x shifted) = false
  is_interrupt (pasted paste) = false

  -- The call of the module for an event, on an empty stack.
  abbrev pub answer : Event → Safe lua
  answer event = called lua logic_module (arguments event) []

  abbrev pub errors : List Event → List V
  errors [] = []
  errors (event ∷ events) = to_list (answer event).printed ++ errors events

  abbrev pub failed_interrupts : List Event → ℕ
  failed_interrupts [] = 0
  failed_interrupts (event ∷ events) =
      (if not (answer event).ok && is_interrupt event then 1 else 0) + failed_interrupts events

  abbrev pub expected : List Event → List V → Effects
  expected events stack = record {
    stack = stack;
    interrupts = failed_interrupts events;
    printed = errors events;
  }

  abbrev pub answered : Event → List V → Effects
  answered event stack =
      effects (not (answer event).ok && is_interrupt event)
        (record (answer event) { stack = stack })

  never :
      (event : Event)
      → is_interrupt event ≡ false
      → (stack : List V)
      → effects false (record (answer event) { stack = stack }) ≡ answered event stack
  never event h stack = rw (h, and_false (not (answer event).ok)) refl

  on_event-answered : (event : Event) (stack : List V) → on_event event stack ≡ answered event stack
  unfolding on_event
  on_event-answered (keyboard (plain key)) stack = ap (finish_keyboard (plain key)) (
      lua_callback-settled lua logic_module (codes "on_keyboard") (lua.integer (pos key) ∷ []) stack
      ∙ called-frame lua logic_module (arguments (keyboard (plain key))) stack)
  on_event-answered (keyboard (negated key)) stack =
      ap (effects false) (
        lua_callback-settled lua logic_module (codes "on_keyboard")
          (lua.integer (key_value (negated key)) ∷ []) stack
        ∙ called-frame lua logic_module (arguments (keyboard (negated key))) stack)
      ∙ never (keyboard (negated key)) refl stack
  on_event-answered (mouse y x shifted) stack =
      ap (effects false) (
        lua_callback-settled lua logic_module (codes "on_mouse")
          (lua.boolean shifted ∷ lua.integer (pos x) ∷ lua.integer (pos y) ∷ []) stack
        ∙ called-frame lua logic_module (arguments (mouse y x shifted)) stack)
      ∙ never (mouse y x shifted) refl stack
  on_event-answered (pasted paste) stack =
      ap (effects false) (
        lua_callback-settled lua logic_module (codes "on_paste") (lua.string paste ∷ []) stack
        ∙ called-frame lua logic_module (arguments (pasted paste)) stack)
      ∙ never (pasted paste) refl stack

  -- Whatever the events: the module is called once for each, in order, with its name and its values in
  -- order; the errors are printed; the stack is left as it was; and the program interrupts itself just
  -- once for each control-C, typed without an escape, for which the call fails or there is no module.
  pub on_events-expected :
      (events : List Event) (stack : List V) → on_events events stack ≡ expected events stack
  unfolding on_events
  on_events-expected [] stack = refl
  on_events-expected (event ∷ events) stack =
      rw (on_event-answered event stack, on_events-expected events stack) refl
