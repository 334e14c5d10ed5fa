-- ===== src/IrcSession/Spec.antt =====
-- What a session delivers, over the whole text that the server sent: the text is cut at its
-- newlines, and every line that is not blank is parsed.
use snowcone.Prelude.{
  ℕ, ◌≡◌, ◌≢◌, refl, sym, ◌⊎◌, false, inl, inr, none, some, Option, List, [], ◌∷◌, ◌++◌, arith,
  Bytes, ◌==◌, ==_ne, if◌then◌else◌, Bool-cases, Lacks,
}
use snowcone.IrcMsg.{IrcMsg, IrcErrorCode, Result, ok, throw, stuck, parse_irc_message, trim}
use snowcone.IrcMsg.Total.{parse_irc_message-ne-stuck}
use snowcone.LineBuffer.{until_zero}
use snowcone.LineBuffer.Terminator.{strip_cr}

abbrev cut_at : ℕ → List Bytes × Bytes → List Bytes × Bytes
cut_at x ([], r) = ([], x ∷ r)
cut_at x (l ∷ ls, r) = ((x ∷ l) ∷ ls, r)

-- The complete lines of a text, and what stands behind the last newline.
unfoldable pub cut_lines : Bytes → List Bytes × Bytes
cut_lines [] = ([], [])
cut_lines (x ∷ s) =
    let rest = cut_lines s in if x == b'\n' then ([] ∷ rest.0, rest.1) else cut_at x rest

-- The text of a line: no carriage return at its end, nothing from a zero byte on, no spaces in
-- front.
unfoldable pub line_text : Bytes → Bytes
line_text l = trim (until_zero (strip_cr l))

abbrev pub cons_nonempty : Bytes → List Bytes → List Bytes
cons_nonempty [] ts = ts
cons_nonempty (x ∷ s) ts = (x ∷ s) ∷ ts

-- The texts of the lines that are not blank.
unfoldable pub texts : List Bytes → List Bytes
texts [] = []
texts (l ∷ ls) = cons_nonempty (line_text l) (texts ls)

-- The messages up to the first text that does not parse, and the error of that one.
unfoldable pub parse_all : List Bytes → List IrcMsg × Option IrcErrorCode
parse_all [] = ([], none)
parse_all (t ∷ ts) = elim (parse_irc_message (some t)) [
  | ok m ↦ let (ms, error) = parse_all ts in (m ∷ ms, error)
  | throw e ↦ ([], some e)
  | stuck ↦ ([], none)
]

pub cut_lines_none : (s : Bytes) → Lacks b'\n' s → cut_lines s ≡ ([], s)
unfolding cut_lines
cut_lines_none [] h = refl
cut_lines_none (x ∷ s) h = rw (==_ne x b'\n' h.0, cut_lines_none s h.1)

pub cut_lines_some :
    (l r : Bytes)
    → Lacks b'\n' l
    → cut_lines (l ++ b'\n' ∷ r) ≡ (l ∷ (cut_lines r).0, (cut_lines r).1)
unfolding cut_lines
cut_lines_some [] r h = refl
cut_lines_some (x ∷ l) r h = rw (==_ne x b'\n' h.0, cut_lines_some l r h.1)

-- A text is one part with no newline, or it has a first line.
pub cut_lines-cases :
    (s : Bytes) → Lacks b'\n' s ⊎ ((l : Bytes) × (r : Bytes) × (s ≡ l ++ b'\n' ∷ r) × Lacks b'\n' l)
cut_lines-cases [] = inl tt
cut_lines-cases (x ∷ s) = elim (Bool-cases (x == b'\n')) [
  | inl e ↦ let same : x ≡ b'\n' = ground arith in inr ([], s, rw same, tt)
  | inr e ↦
      let other : x ≢ b'\n' = λ same. ground arith in
      elim (cut_lines-cases s) [
        | inl h ↦ inl (other, h)
        | inr (l, r, same, h) ↦ inr (x ∷ l, r, rw same, (other, h))
      ]
]

cut_at-append :
    (x : ℕ) (first : List Bytes × Bytes) (t : Bytes)
    → (x == b'\n') ≡ false
    → cut_at x (first.0 ++ (cut_lines (first.1 ++ t)).0, (cut_lines (first.1 ++ t)).1) ≡ (
      (cut_at x first).0 ++ (cut_lines ((cut_at x first).1 ++ t)).0,
      (cut_lines ((cut_at x first).1 ++ t)).1,
    )
unfolding cut_lines
cut_at-append x ([], r) t h = rw h
cut_at-append x (l ∷ ls, r) t h = refl

-- Cutting a text in two steps, the second of which starts with what the first left.
pub cut_lines-append :
    (s t : Bytes)
    → cut_lines (s ++ t) ≡ (
      (cut_lines s).0 ++ (cut_lines ((cut_lines s).1 ++ t)).0,
      (cut_lines ((cut_lines s).1 ++ t)).1,
    )
unfolding cut_lines
cut_lines-append [] t = refl
cut_lines-append (x ∷ s) t = elim (Bool-cases (x == b'\n')) [
  | inl e ↦ rw (e, cut_lines-append s t)
  | inr e ↦ rw (e, cut_lines-append s t) (cut_at-append x (cut_lines s) t e)
]

cut_at-Lacks :
    (x : ℕ) (cut : List Bytes × Bytes)
    → x ≢ b'\n'
    → Lacks b'\n' cut.1
    → Lacks b'\n' (cut_at x cut).1
cut_at-Lacks x ([], r) h k = (h, k)
cut_at-Lacks x (l ∷ ls, r) h k = k

rest-Lacks : (s : Bytes) → Lacks b'\n' (cut_lines s).1
unfolding cut_lines
rest-Lacks [] = tt
rest-Lacks (x ∷ s) = elim (Bool-cases (x == b'\n')) [
  | inl e ↦ rw e (rest-Lacks s)
  | inr e ↦ rw e (cut_at-Lacks x (cut_lines s) (λ same. ground arith) (rest-Lacks s))
]

-- What is left holds no newline, so it is left again.
pub cut_lines-rest : (s : Bytes) → cut_lines (cut_lines s).1 ≡ ([], (cut_lines s).1)
cut_lines-rest s = cut_lines_none (cut_lines s).1 (rest-Lacks s)

pub texts-append : (ls ms : List Bytes) → texts (ls ++ ms) ≡ texts ls ++ texts ms
unfolding texts
texts-append [] ms = refl
texts-append (l ∷ ls) ms = rw (texts-append ls ms) (cons_append (line_text l))
  where
    cons_append :
        (x : Bytes)
        → cons_nonempty x (texts ls ++ texts ms) ≡ cons_nonempty x (texts ls) ++ texts ms
    cons_append [] = refl
    cons_append (y ∷ x) = refl

pub parse_all_ok :
    (t : Bytes) (ts : List Bytes) (m : IrcMsg)
    → parse_irc_message (some t) ≡ ok m
    → parse_all (t ∷ ts) ≡ (m ∷ (parse_all ts).0, (parse_all ts).1)
unfolding parse_all
parse_all_ok t ts m e = rw (e, parse_all)

pub parse_all_throw :
    (t : Bytes) (ts : List Bytes) (e : IrcErrorCode)
    → parse_irc_message (some t) ≡ throw e
    → parse_all (t ∷ ts) ≡ ([], some e)
unfolding parse_all
parse_all_throw t ts e is_throw = rw (is_throw, parse_all)

-- What comes of two stretches of text: the second counts if the first has no error.
abbrev pub parse_more :
    List IrcMsg × Option IrcErrorCode
    → List IrcMsg × Option IrcErrorCode
    → List IrcMsg × Option IrcErrorCode
parse_more (ms, none) next = (ms ++ next.0, next.1)
parse_more (ms, some e) next = (ms, some e)

parse_more-cons :
    (m : IrcMsg) (first next : List IrcMsg × Option IrcErrorCode)
    → parse_more (m ∷ first.0, first.1) next
      ≡ (m ∷ (parse_more first next).0, (parse_more first next).1)
parse_more-cons m (ms, none) next = refl
parse_more-cons m (ms, some e) next = refl

result_cases :
    (r : Result IrcMsg)
    → r ≢ stuck
    → ((m : IrcMsg) × (r ≡ ok m)) ⊎ ((e : IrcErrorCode) × (r ≡ throw e))
result_cases (ok m) h = inl (m, refl)
result_cases (throw e) h = inr (e, refl)
result_cases stuck h = absurd (h refl)

-- The three outcomes of the parser, one of which does not happen.
pub parse-cases :
    (t : Bytes)
    → ((m : IrcMsg) × (parse_irc_message (some t) ≡ ok m))
      ⊎ ((e : IrcErrorCode) × (parse_irc_message (some t) ≡ throw e))
parse-cases t = result_cases (parse_irc_message (some t)) (parse_irc_message-ne-stuck (some t))

pub parse_all-append :
    (ts us : List Bytes) → parse_all (ts ++ us) ≡ parse_more (parse_all ts) (parse_all us)
parse_all-append [] us = unfold parse_all in refl
parse_all-append (t ∷ ts) us = elim (parse-cases t) [
  | inl (m, e) ↦
      rw (parse_all_ok t (ts ++ us) m e, parse_all_ok t ts m e, parse_all-append ts us)
        (sym (parse_more-cons m (parse_all ts) (parse_all us)))
  | inr (e, is_throw) ↦
      rw (parse_all_throw t (ts ++ us) e is_throw, parse_all_throw t ts e is_throw)
]
