-- ===== src/IrcSession.antt =====
-- The session of client/irc/lua.cpp: `get_nonempty_line` and the loop of `session_thread`, with the
-- completion handler of `l_start_irc`, which reports the end. Each chunk is what one
-- `async_read_some` delivered. The callback's invocations are the events.
pub mod Spec
pub mod Lines
pub mod Round
pub mod Stream
pub mod Protocol
pub mod Ending
pub mod Stable
mod Tests
use snowcone.Prelude.{
  ℕ, zero, suc, Bool, true, false, Option, none, some, List, [], ◌∷◌, ◌++◌, Bytes, codes, ◌==◌,
  if◌then◌else◌, length,
}
use snowcone.IrcMsg.{
  IrcMsg, IrcErrorCode, missing_tag, missing_command, Result, ok, throw, stuck, parse_irc_message,
  trim,
}
use snowcone.LineBuffer.{LineBuffer, make, prepare, receive, commit, next_line, shift, c_string}

-- What `get_nonempty_line` returns: a pointer to a line's text, or `nullptr`. `lost` is no outcome
-- of the code: the loop ran out of fuel.
pub data Found : Type 0 where
  line : Bytes → LineBuffer → Found
  no_line : LineBuffer → Found
  lost : Found

-- The text of a line behind its leading spaces, and the loop's next round.
abbrev pub line_or : Bytes → LineBuffer → Found → Found
line_or [] b next = next
line_or (x ∷ s) b next = line (x ∷ s) b

pub nonempty_loop : ℕ → LineBuffer → Found
nonempty_loop zero b = lost
nonempty_loop (suc fuel) b =
    let after = (next_line b).1 in
    let next = nonempty_loop fuel after in
    elim (next_line b).0 [
      | none ↦ no_line after
      | some pointer ↦ line_or (trim (c_string after.buffer pointer)) after next
    ]

-- Every line that is passed over takes a byte from the buffer.
pub get_nonempty_line : LineBuffer → Found
unfolding nonempty_loop
get_nonempty_line b = nonempty_loop (suc (length b.buffer)) b

-- The callback's events. The flag of a message asks for a redraw.
pub data Event : Type 0 where
  con : Bytes → Event
  msg : IrcMsg → Bool → Event
  end : Bytes → Event

-- `irc_parse_error::what`
pub what : IrcErrorCode → Bytes
what missing_tag = codes "irc parse error: missing tag"
what missing_command = codes "irc parse error: missing command"

-- The coroutine waits for the next read, or it has thrown.
pub data Outcome : Type 0 where
  waiting : LineBuffer → Outcome
  threw : Bytes → Outcome
  out_of_fuel : Outcome

abbrev pub is_last : Found → Bool
is_last (line t b) = false
is_last (no_line b) = true
is_last lost = true

-- The inner loop: the next line is looked up before the callback runs.
pub dispatch : ℕ → Found → List Event × Outcome
unfolding get_nonempty_line
dispatch fuel lost = ([], out_of_fuel)
dispatch fuel (no_line b) = ([], waiting (shift b))
dispatch zero (line text b) = ([], out_of_fuel)
dispatch (suc fuel) (line text b) = elim (parse_irc_message (some text)) [
  | ok m ↦
      let next = get_nonempty_line b in
      let (events, outcome) = dispatch fuel next in (msg m (is_last next) ∷ events, outcome)
  | throw e ↦ ([], threw (what e))
  | stuck ↦ ([], out_of_fuel)
]

-- One round of the outer loop.
pub read_chunk : LineBuffer → Bytes → List Event × Outcome
unfolding dispatch
read_chunk b chunk =
    let filled = commit (receive b chunk) (length chunk) in
    let (at, space) = prepare b in
    if space == 0
    then ([], threw (codes "line buffer full"))
    else dispatch (suc (length filled.buffer)) (get_nonempty_line filled)

-- The outer loop over the reads, the last of which may fail.
pub data Reads : Type 0 where
  pause : Reads
  failed : Bytes → Reads
  chunk : Bytes → Reads → Reads

pub read_loop : LineBuffer → Reads → List Event × Outcome
unfolding read_chunk
read_loop b pause = ([], waiting b)
read_loop b (failed error) = ([], threw error)
read_loop b (chunk bytes reads) =
    let (events, outcome) = read_chunk b bytes in
    elim outcome [
      | waiting b' ↦ let (more, last) = read_loop b' reads in (events ++ more, last)
      | threw error ↦ (events, threw error)
      | out_of_fuel ↦ (events, out_of_fuel)
    ]

abbrev pub irc_buffer_size : ℕ
irc_buffer_size = 131072

-- The completion handler runs when the coroutine has thrown.
abbrev pub completion : Outcome → List Event
completion (waiting b) = []
completion (threw error) = end error ∷ []
completion out_of_fuel = []

-- The whole session with a buffer of `size` bytes, `irc_buffer_size` in the program. `connected`
-- is what `connect` returns or throws.
pub data Connected : Type 0 where
  fingerprint : Bytes → Connected
  refused : Bytes → Connected

pub session : ℕ → Connected → Reads → List Event
unfolding read_loop
session size (refused error) reads = end error ∷ []
session size (fingerprint f) reads =
    let (events, outcome) = read_loop (make size) reads in con f ∷ (events ++ completion outcome)
