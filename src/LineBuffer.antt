-- ===== src/LineBuffer.antt =====
-- client/net/linebuffer.cpp and client/net/linebuffer.hpp: a fixed buffer that is read by lines.
-- An iterator is its index into `buffer`. A pointer that is returned is an index too, and the text
-- that it points to is read by `c_string`.
pub mod Cut
pub mod Layout
pub mod Invariant
pub mod Size
pub mod Terminator
pub mod Lines
pub mod Stable
mod Tests
use snowcone.Prelude.{
  ℕ, zero, suc, ◌+◌, ◌-◌, ◌≤◌, ◌<◌, Bool, true, false, ◌&&◌, Option, none, some, List, [], ◌∷◌,
  ◌++◌, Bytes, ltb, ◌==◌, if◌then◌else◌, length, get_or, set, take, drop, replicate,
}

pub record LineBuffer : Type 0 where
  pub buffer : Bytes
  pub start : ℕ
  pub search : ℕ
  pub finish : ℕ

-- `LineBuffer(n)`: the vector's elements are zero.
unfoldable pub make : ℕ → LineBuffer
make n = record { buffer = replicate n 0; start = 0; search = 0; finish = 0 }

-- `prepare`: where the free space begins, and its size.
unfoldable pub prepare : LineBuffer → ℕ × ℕ
prepare b = (b.finish, length b.buffer - b.finish)

-- What a read into the space of `prepare` leaves: its bytes overwrite the buffer from `finish` on.
unfoldable pub overwrite : Bytes → ℕ → Bytes → Bytes
overwrite buffer at bytes = take at buffer ++ (bytes ++ drop (at + length bytes) buffer)

unfoldable pub receive : LineBuffer → Bytes → LineBuffer
unfolding overwrite
receive b bytes = record b { buffer = overwrite b.buffer b.finish bytes }

unfoldable pub commit : LineBuffer → ℕ → LineBuffer
commit b n = record b { finish = b.finish + n }

-- `std::find(first, last, c)` on a list of the bytes between: the distance to the first `c`, or to
-- the end.
unfoldable pub find : ℕ → Bytes → ℕ
find c [] = 0
find c (x ∷ s) = let further = suc (find c s) in if x == c then 0 else further

abbrev between : Bytes → ℕ → ℕ → Bytes
between buffer first last = take (last - first) (drop first buffer)

-- Where the terminator of a line goes: on the newline at `nl`, or on a carriage return before it.
unfoldable pub terminator : Bytes → ℕ → ℕ → ℕ
terminator buffer start nl =
    if ltb start nl && get_or buffer (nl - 1) 0 == b'\r' then nl - 1 else nl

-- The returned pointer, `none` for `nullptr`, and the new state.
unfoldable pub next_line : LineBuffer → Option ℕ × LineBuffer
unfolding find terminator
next_line b =
    let nl = b.search + find b'\n' (between b.buffer b.search b.finish) in
    if nl == b.finish then (none, record b { search = b.finish }) else (
      some b.start,
      record {
        buffer = set b.buffer (terminator b.buffer b.start nl) 0;
        start = nl + 1;
        search = nl + 1;
        finish = b.finish;
      },
    )

-- `std::move(start, end, first)` copies forward to the front; the bytes behind stay.
unfoldable pub shift : LineBuffer → LineBuffer
unfolding overwrite
shift b = if b.start == 0 then b else record {
  buffer = overwrite b.buffer 0 (between b.buffer b.start b.finish);
  start = 0;
  search = b.search - b.start;
  finish = b.finish - b.start;
}

-- The text that a `char*` into the buffer stands for: the bytes in front of the next zero.
unfoldable pub until_zero : Bytes → Bytes
until_zero [] = []
until_zero (x ∷ s) = let rest = until_zero s in if x == 0 then [] else x ∷ rest

unfoldable pub c_string : Bytes → ℕ → Bytes
unfolding until_zero
c_string buffer pointer = until_zero (drop pointer buffer)
