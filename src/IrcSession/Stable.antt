-- ===== src/IrcSession/Stable.antt =====
-- The lines that have been found stay as they are while the next one is looked up.
use snowcone.Prelude.{
  ℕ, zero, suc, ◌≤◌, ◌≡◌, refl, ◌∙◌, inl, inr, [], ◌∷◌, arith, Bytes, length, take, Option-cases,
}
use snowcone.LineBuffer.{LineBuffer, next_line, c_string}
use snowcone.LineBuffer.Layout.{pending, IsValid}
use snowcone.LineBuffer.Lines.{next_line-none, next_line-some}
use snowcone.LineBuffer.Stable.{take-next_line}
use snowcone.IrcMsg.{trim}
use snowcone.IrcSession.{Found, line, no_line, lost, line_or, nonempty_loop, get_nonempty_line}
use snowcone.IrcSession.Spec.{cut_lines-cases}

-- The buffer after a search, `default` if it was lost.
abbrev pub buffer_after : Found → LineBuffer → LineBuffer
buffer_after (line t b) default = b
buffer_after (no_line b) default = b
buffer_after lost default = default

pub next_line-IsValid : (b : LineBuffer) → IsValid b → IsValid (next_line b).1
next_line-IsValid b v = elim (cut_lines-cases (pending b)) [
  | inl none_left ↦ let (returned, valid, same) = next_line-none b v none_left in valid
  | inr (l, r, is_text, lacks) ↦
      let (returned, string, valid, left) = next_line-some b l r v is_text lacks in valid
]

line_or_stable :
    (n : ℕ) (front text : Bytes) (b default : LineBuffer) (f : Found)
    → take n b.buffer ≡ front
    → take n (buffer_after f default).buffer ≡ front
    → take n (buffer_after (line_or text b f) default).buffer ≡ front
line_or_stable n front [] b default f h k = k
line_or_stable n front (x ∷ s) b default f h k = h

nonempty_loop_stable :
    (fuel n : ℕ) (front : Bytes) (b default : LineBuffer)
    → IsValid b
    → n ≤ b.start
    → take n b.buffer ≡ front
    → take n default.buffer ≡ front
    → take n (buffer_after (nonempty_loop fuel b) default).buffer ≡ front
unfolding nonempty_loop
nonempty_loop_stable zero n front b default v h e d = d
nonempty_loop_stable (suc fuel) n front b default v h e d =
    let (same, further) = take-next_line b n v h in
    let kept : take n (next_line b).1.buffer ≡ front = same ∙ e in
    elim (Option-cases (next_line b).0) [
      | inl missing ↦ rw (missing, nonempty_loop) kept
      | inr (pointer, found) ↦
          rw (found, nonempty_loop)
            (line_or_stable n front (trim (c_string (next_line b).1.buffer pointer)) (next_line b).1
              default (nonempty_loop fuel (next_line b).1) kept
              (nonempty_loop_stable fuel n front (next_line b).1 default (next_line-IsValid b v)
                further kept d))
    ]

-- Looking up the next line changes no byte in front of the iterator `start_`, whatever lines it
-- passes over: what a message that was parsed in a line before points to stays as it was.
pub take-get_nonempty_line :
    (b : LineBuffer)
    → IsValid b
    → take b.start (buffer_after (get_nonempty_line b) b).buffer ≡ take b.start b.buffer
unfolding get_nonempty_line
take-get_nonempty_line b v =
    nonempty_loop_stable (suc (length b.buffer)) b.start (take b.start b.buffer) b b v (omega arith)
      refl refl
