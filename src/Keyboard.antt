-- ===== src/Keyboard.antt =====
-- The input of client/app.cpp: `stdin_thread` with `do_keyboard`, `do_mouse` and `do_paste`. One
-- element of the input is what one `getch` returns; the end of the list is `ERR`, and the next list
-- is read after the next poll. What ncurses and the C library give is a parameter: its constants,
-- and `mbrtowc`, which decodes a byte with a state.
pub mod Paste
pub mod Batches
pub mod Callbacks
mod Tests
use snowcone.Prelude.{
  ℕ, zero, suc, ◌+◌, ◌%◌, Bool, true, false, Option, none, some, List, [], ◌∷◌, ◌++◌, Bytes, ◌==◌,
  ltb, if◌then◌else◌, not, ◌&&◌,
}

abbrev pub start_paste : ℕ
start_paste = 512

abbrev pub end_paste : ℕ
end_paste = 513

abbrev pub focus_gained : ℕ
focus_gained = 514

abbrev pub focus_lost : ℕ
focus_lost = 515

-- The argument of `do_keyboard`: a key, or the negation of one.
pub data Key : Type 0 where
  plain : ℕ → Key
  negated : ℕ → Key

pub data Event : Type 0 where
  keyboard : Key → Event
  mouse : ℕ → ℕ → Bool → Event
  pasted : Bytes → Event

-- A mouse event of `getmouse`: its place, and whether its state has `BUTTON1_CLICKED` and
-- `BUTTON_SHIFT`.
pub record MouseEvent : Type 0 where
  pub y : ℕ
  pub x : ℕ
  pub clicked : Bool
  pub shifted : Bool

-- `M` is the type `mbstate_t`. `mbrtowc` gives the code that a byte completes, if it does, and the
-- next state; `getmouse` gives the event that belongs to the `n`th mouse key.
pub record Terminal (M : Type 0) : Type 0 where
  pub key_mouse : ℕ
  pub key_resume : ℕ
  pub key_exit : ℕ
  pub mbrtowc : M → ℕ → Option ℕ × M
  pub getmouse : ℕ → MouseEvent

-- The variables of the coroutine, and how many mouse events have been fetched.
pub record State (M : Type 0) : Type 0 where
  pub paste : Bytes
  pub in_paste : Bool
  pub mbstate : M
  pub fetched : ℕ

module _ {M : Type 0} (t : Terminal M) where
  abbrev pub on_mouse : State M → State M × List Event
  on_mouse s =
      let ev : MouseEvent = t.getmouse s.fetched in
      (
        record s { fetched = suc s.fetched },
        if ev.clicked then mouse ev.y ev.x ev.shifted ∷ [] else [],
      )

  abbrev pub typed : Option ℕ → List Event
  typed none = []
  typed (some code) = keyboard (plain code) ∷ []

  abbrev pub on_byte : State M → ℕ → State M × List Event
  on_byte s key =
      let (code, next) = t.mbrtowc s.mbstate (key % 256) in
      (record s { mbstate = next }, typed code)

  -- A key inside of a paste.
  abbrev pub on_paste_key : State M → ℕ → State M × List Event
  on_paste_key s key =
      if key == end_paste
      then (record s { paste = []; in_paste = false }, pasted s.paste ∷ [])
      else (record s { paste = s.paste ++ key % 256 ∷ [] }, [])

  -- A key that is no escape, outside of a paste.
  abbrev pub on_key : State M → ℕ → State M × List Event
  on_key s key =
      if key == t.key_mouse
      then on_mouse s
      else if key == start_paste
      then (record s { in_paste = true }, [])
      else if key == focus_gained
      then (s, keyboard (negated t.key_resume) ∷ [])
      else if key == focus_lost
      then (s, keyboard (negated t.key_exit) ∷ [])
      else if ltb 255 key
      then (s, keyboard (negated key) ∷ [])
      else if ltb key 128
      then (s, keyboard (plain key) ∷ [])
      else on_byte s key

  abbrev pub escape : ℕ
  escape = 27

  -- An escape outside of a paste takes the next key with it.
  abbrev pub is_escape : State M → ℕ → Bool
  is_escape s key = not s.in_paste && (key == escape)

  unfoldable pub single : State M → ℕ → State M × List Event
  single s key = if s.in_paste then on_paste_key s key else on_key s key

  -- The inner loop, on what `getch` returns until `ERR`.
  unfoldable pub read_keys : State M → List ℕ → State M × List Event
  unfolding single
  read_keys s [] = (s, [])
  read_keys s (key ∷ []) =
      if is_escape s key then (s, keyboard (plain escape) ∷ []) else single s key
  read_keys s (key ∷ next ∷ keys) = elim (is_escape s key) [
    | true ↦ let (s', events) = read_keys s keys in (s', keyboard (negated next) ∷ events)
    | false ↦
        let (s1, first) = single s key in
        let (s2, events) = read_keys s1 (next ∷ keys) in (s2, first ++ events)
  ]

  -- The outer loop: one list of keys for each poll.
  unfoldable pub stdin_thread : State M → List (List ℕ) → State M × List Event
  unfolding read_keys
  stdin_thread s [] = (s, [])
  stdin_thread s (keys ∷ polls) =
      let (s1, first) = read_keys s keys in
      let (s2, events) = stdin_thread s1 polls in (s2, first ++ events)

-- `do_keyboard`: whether the program interrupts itself, by the success of the callback.
abbrev pub do_keyboard : Bool → Key → Bool
do_keyboard success (plain key) = not success && (key == 3)
do_keyboard success (negated key) = false
