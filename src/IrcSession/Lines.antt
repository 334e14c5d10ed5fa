-- ===== src/IrcSession/Lines.antt =====
-- `get_nonempty_line` takes the first line that is not blank, and ends on every buffer.
use snowcone.Prelude.{
  ℕ, zero, suc, ◌<◌, ◌≡◌, ◌≢◌, refl, sym, ap, inl, inr, [], ◌∷◌, ◌++◌, arith, Bytes, length,
  length-append, Lacks,
}
use mathlib.Core.List.{cons-ne-nil}
use mathlib.Core.Path.{subst₂}
use snowcone.LineBuffer.{LineBuffer, next_line}
use snowcone.LineBuffer.Layout.{pending, IsValid, length-between}
use snowcone.LineBuffer.Size.{length-next_line}
use snowcone.LineBuffer.Lines.{next_line-none, next_line-some}
use snowcone.IrcSession.{Found, line, no_line, line_or, nonempty_loop, get_nonempty_line}
use snowcone.IrcSession.Spec.{
  cut_lines, texts, line_text, cut_lines-cases, cut_lines_none, cut_lines_some,
}

-- What a search over the pending text `p`, in a buffer of `size` bytes, has to return.
pub data Finds (size : ℕ) (p : Bytes) : Found → Type 0 where
  finds_line :
      (t : Bytes) (b : LineBuffer)
      → IsValid b
      → length b.buffer ≡ size
      → t ≢ []
      → texts (cut_lines p).0 ≡ t ∷ texts (cut_lines (pending b)).0
      → (cut_lines p).1 ≡ (cut_lines (pending b)).1
      → length (pending b) < length p
      → Finds size p (line t b)
  finds_none :
      (b : LineBuffer)
      → IsValid b
      → length b.buffer ≡ size
      → texts (cut_lines p).0 ≡ []
      → (cut_lines p).1 ≡ pending b
      → Finds size p (no_line b)

-- A blank line is passed over.
blank_line :
    (size : ℕ) (l r : Bytes) (f : Found)
    → Lacks b'\n' l
    → line_text l ≡ []
    → Finds size r f
    → Finds size (l ++ b'\n' ∷ r) f
unfolding texts
blank_line size l r f h blank (finds_line t b v same given ts rest less) =
    finds_line t b v same given (rw (cut_lines_some l r h) (rw blank ts))
      (rw (cut_lines_some l r h) rest) (omega (arith, length-append l (b'\n' ∷ r)))
blank_line size l r f h blank (finds_none b v same ts rest) =
    finds_none b v same (rw (cut_lines_some l r h) (rw blank ts)) (rw (cut_lines_some l r h) rest)

-- A line that is not blank is found.
given_line :
    (size : ℕ) (l r text : Bytes) (b : LineBuffer) (f : Found)
    → Lacks b'\n' l
    → line_text l ≡ text
    → IsValid b
    → length b.buffer ≡ size
    → pending b ≡ r
    → Finds size r f
    → Finds size (l ++ b'\n' ∷ r) (line_or text b f)
unfolding texts
given_line size l r [] b f h is_text v same p found = blank_line size l r f h is_text found
given_line size l r (x ∷ s) b f h is_text v same p found =
    finds_line (x ∷ s) b v same (cons-ne-nil x s) (rw (cut_lines_some l r h) (rw (is_text, p)))
      (rw (cut_lines_some l r h) (rw p)) (omega (arith, length-append l (b'\n' ∷ r), ap length p))

nonempty_loop-Finds :
    (fuel : ℕ) (b : LineBuffer)
    → IsValid b
    → length (pending b) < fuel
    → Finds (length b.buffer) (pending b) (nonempty_loop fuel b)
unfolding nonempty_loop line_text
nonempty_loop-Finds zero b v h = elim h [ ]
nonempty_loop-Finds (suc fuel) b v h = elim (cut_lines-cases (pending b)) [
  | inl none_left ↦
      let (returned, valid, same) = next_line-none b v none_left in
      rw (returned, nonempty_loop)
        (finds_none _ valid (length-next_line b)
          (rw (cut_lines_none _ none_left) (unfold texts in refl))
          (rw (cut_lines_none _ none_left) (sym same)))
  | inr (l, r, is_text, lacks) ↦
      let (returned, string, valid, left) = next_line-some b l r v is_text lacks in
      let further =
        nonempty_loop-Finds fuel (next_line b).1 valid
          (omega (arith, ap length left, ap length is_text, length-append l (b'\n' ∷ r))) in
      rw (returned, nonempty_loop)
        (rw (string, is_text)
          (given_line (length b.buffer) l r (line_text l) (next_line b).1 _ lacks refl valid
            (length-next_line b) left (rw (left, length-next_line b) at further)))
]

-- Enough rounds are made: each of them takes a newline at least.
pub get_nonempty_line-Finds :
    (b : LineBuffer) → IsValid b → Finds (length b.buffer) (pending b) (get_nonempty_line b)
unfolding get_nonempty_line
get_nonempty_line-Finds b v =
    nonempty_loop-Finds (suc (length b.buffer)) b v
      (omega (arith, length-between b.buffer b.start b.finish))

pub get_nonempty_line_found :
    (size : ℕ) (p : Bytes) (b : LineBuffer)
    → IsValid b
    → length b.buffer ≡ size
    → pending b ≡ p
    → Finds size p (get_nonempty_line b)
get_nonempty_line_found size p b v same held =
    subst₂ (λ s t. Finds s t (get_nonempty_line b)) same held (get_nonempty_line-Finds b v)
