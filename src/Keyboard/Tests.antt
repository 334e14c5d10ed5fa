-- ===== src/Keyboard/Tests.antt =====
-- Runs of the input, with a decoder that takes each byte for a code.
use snowcone.Prelude.{
  ℕ, ◌≡◌, refl, inl, inr, some, false, Option, none, [], ◌∷◌, Bytes, pos, ◌++◌, codes,
  are_bytes-IsByte, arith,
}
use snowcone.Keyboard.{
  Terminal, State, keyboard, plain, negated, pasted, start_paste, end_paste, read_keys,
  stdin_thread, single,
}
use snowcone.LuaStack.{Lua, failed}
use snowcone.Keyboard.Callbacks.{on_events, on_events-expected}
use snowcone.Keyboard.Batches.{stdin_thread-read_keys}
use snowcone.Keyboard.Paste.{read_keys-pasted}

abbrev latin : ℕ → ℕ → Option ℕ × ℕ
latin m key = (some key, m)

abbrev terminal : Terminal ℕ
terminal = record {
  key_mouse = 409;
  key_resume = 375;
  key_exit = 361;
  mbrtowc = latin;
  getmouse = λ n. record { y = n; x = 0; clicked = false; shifted = false };
}

abbrev idle : State ℕ
idle = record { paste = []; in_paste = false; mbstate = 0; fetched = 0 }

alt_key :
    (read_keys terminal idle (27 ∷ b'a' ∷ 233 ∷ [])).1
    ≡ keyboard (negated b'a') ∷ keyboard (plain 233) ∷ []
unfolding read_keys
alt_key = refl

read_keys-pasted_example :
    let later = read_keys terminal idle (b'x' ∷ []) in
    read_keys terminal idle (start_paste ∷ (codes "a\nb" ++ end_paste ∷ b'x' ∷ []))
    ≡ (later.0, pasted (codes "a\nb") ∷ later.1)
read_keys-pasted_example =
    read_keys-pasted terminal 0 0 (codes "a\nb") (b'x' ∷ []) (omega arith)
      (are_bytes-IsByte (codes "a\nb") refl)

stdin_thread-read_keys_example :
    stdin_thread terminal idle ((27 ∷ b'a' ∷ start_paste ∷ []) ∷ (b'b' ∷ end_paste ∷ []) ∷ [])
    ≡ read_keys terminal idle (27 ∷ b'a' ∷ start_paste ∷ b'b' ∷ end_paste ∷ [])
unfolding read_keys single
stdin_thread-read_keys_example =
    stdin_thread-read_keys terminal idle
      ((27 ∷ b'a' ∷ start_paste ∷ []) ∷ (b'b' ∷ end_paste ∷ []) ∷ [])
      (inl (refl, refl), (inr (refl, refl), tt))

-- An interpreter whose values are texts, and of which every call fails with the name of the module.
abbrev failing : Lua Bytes
failing = record {
  nil = [];
  traceback = codes "!";
  string = λ text. text;
  integer = λ i. [];
  boolean = λ b. [];
  table = λ pairs. [];
  pairs = λ v. none;
  call = λ f args. failed f;
  handle = λ handler e. e ++ handler;
  tointeger = λ v. pos 0;
  tolstring = λ v. some v;
  display = λ v. v;
}

-- Control-C behind an escape is no interrupt.
on_events-expected_example :
    on_events failing
      (some (codes "m"))
      (keyboard (plain 3) ∷ pasted (codes "x") ∷ keyboard (negated 3) ∷ [])
      (codes "below" ∷ [])
    ≡ record {
      stack = codes "below" ∷ [];
      interrupts = 1;
      printed = codes "m!" ∷ codes "m!" ∷ codes "m!" ∷ [];
    }
on_events-expected_example =
    on_events-expected failing (some (codes "m"))
      (keyboard (plain 3) ∷ pasted (codes "x") ∷ keyboard (negated 3) ∷ []) (codes "below" ∷ [])

no_module :
    on_events failing none (keyboard (plain 3) ∷ []) []
    ≡ record { stack = []; interrupts = 1; printed = [] }
unfolding on_events snowcone.LuaStack.lua_callback
no_module = refl
