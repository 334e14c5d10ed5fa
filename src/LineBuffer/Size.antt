-- ===== src/LineBuffer/Size.antt =====
-- No operation makes the buffer longer or shorter, so every write is in bounds.
use snowcone.Prelude.{
  ℕ, ◌+◌, ◌≤◌, ◌≡◌, inl, inr, ◌++◌, arith, Bytes, ◌==◌, Bool-cases, length, length-append,
  length-set, length-take_le, length-drop, take, drop,
}
use snowcone.LineBuffer.{
  LineBuffer, prepare, overwrite, find, between, next_line, receive, commit, shift,
}
use snowcone.LineBuffer.Layout.{pending, IsValid, length-between}
use snowcone.LineBuffer.Invariant.{fill}

length-overwrite :
    (buffer : Bytes) (at : ℕ) (bytes : Bytes)
    → at + length bytes ≤ length buffer
    → length (overwrite buffer at bytes) ≡ length buffer
unfolding overwrite
length-overwrite buffer at bytes h = omega (
  arith,
  length-append (take at buffer) (bytes ++ drop (at + length bytes) buffer),
  length-append bytes (drop (at + length bytes) buffer),
  length-take_le at buffer,
  length-drop (at + length bytes) buffer,
)

pub length-fill :
    (b : LineBuffer) (bytes : Bytes)
    → IsValid b
    → length bytes ≤ (prepare b).1
    → length (fill b bytes).buffer ≡ length b.buffer
unfolding commit receive prepare
length-fill b bytes v h = length-overwrite b.buffer b.finish bytes (omega arith)

pub length-next_line : (b : LineBuffer) → length (next_line b).1.buffer ≡ length b.buffer
unfolding next_line
length-next_line b =
    elim (Bool-cases (b.search + find b'\n' (between b.buffer b.search b.finish) == b.finish)) [
      | inl e ↦ rw e
      | inr e ↦ rw e (length-set b.buffer _ 0)
    ]

pub length-shift : (b : LineBuffer) → IsValid b → length (shift b).buffer ≡ length b.buffer
unfolding shift
length-shift b v = elim (Bool-cases (b.start == 0)) [
  | inl e ↦ rw (e, shift)
  | inr e ↦
      rw (e, shift)
        (length-overwrite b.buffer 0 (pending b)
          (omega (arith, length-between b.buffer b.start b.finish)))
]
