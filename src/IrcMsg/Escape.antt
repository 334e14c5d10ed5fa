-- ===== src/IrcMsg/Escape.antt =====
-- `unescape_tag_value` against the escaping of a tag value.
use snowcone.Prelude.{
  ℕ, ◌≡◌, refl, false, inl, inr, [], ◌∷◌, ◌++◌, arith, Bytes, ◌==◌, if◌then◌else◌, Bool-cases,
  All-append, Lacks,
}
use snowcone.IrcMsg.{until, unescape_loop, unescape_tag_value}

-- The escape sequence of a byte, or the byte.
hide : ℕ → Bytes
hide c =
    if c == b';'
    then b'\\' ∷ b':' ∷ []
    else if c == b' '
    then b'\\' ∷ b's' ∷ []
    else if c == b'\r'
    then b'\\' ∷ b'r' ∷ []
    else if c == b'\n'
    then b'\\' ∷ b'n' ∷ []
    else if c == b'\\'
    then b'\\' ∷ b'\\' ∷ []
    else c ∷ []

pub escape : Bytes → Bytes
unfolding hide
escape [] = []
escape (c ∷ s) = hide c ++ escape s

loop-hide : (c : ℕ) (s : Bytes) → unescape_loop (hide c ++ s) ≡ c ∷ unescape_loop s
unfolding unescape_loop hide
loop-hide c [] = ground arith
loop-hide c (d ∷ s) = ground arith

loop-escape : (s : Bytes) → unescape_loop (escape s) ≡ s
unfolding escape
loop-escape [] = unfold unescape_loop in refl
loop-escape (c ∷ s) = rw (loop-hide c (escape s), loop-escape s)

-- A byte that is no backslash is copied.
loop_copy : (c : ℕ) (s : Bytes) → (c == b'\\') ≡ false → unescape_loop (c ∷ s) ≡ c ∷ unescape_loop s
unfolding unescape_loop
loop_copy c [] h = rw h
loop_copy c (d ∷ s) h = rw h

-- The search for the first backslash changes nothing: the loop would copy what it skips.
pub unescape_tag_value-loop : (s : Bytes) → unescape_tag_value s ≡ unescape_loop s
unfolding unescape_tag_value until
unescape_tag_value-loop [] = refl
unescape_tag_value-loop (c ∷ s) = elim (Bool-cases (c == b'\\')) [
  | inl e ↦ rw e
  | inr e ↦ rw (e, loop_copy c s e) (rw (unescape_tag_value-loop s))
]

-- Unescaping the escaped form of any value gives the value back.
pub unescape_tag_value-escape : (s : Bytes) → unescape_tag_value (escape s) ≡ s
unescape_tag_value-escape s = rw (unescape_tag_value-loop (escape s)) (loop-escape s)

hide-Lacks : (c : ℕ) → Lacks b';' (hide c) × Lacks b' ' (hide c)
unfolding hide
hide-Lacks c = ground arith

-- An escaped value holds no semicolon and no space, so it can stand in a tag.
pub escape-Lacks : (s : Bytes) → Lacks b';' (escape s) × Lacks b' ' (escape s)
unfolding escape
escape-Lacks [] = (tt, tt)
escape-Lacks (c ∷ s) =
    let rest = escape-Lacks s in
    let first = hide-Lacks c in
    (All-append _ (hide c) _ first.0 rest.0, All-append _ (hide c) _ first.1 rest.1)
