-- ===== src/IrcMsg.antt =====
-- ircmsg/ircmsg.cpp and ircmsg/include/ircmsg.hpp: IRC messages and their tags.
-- A `char*` is the list of the bytes in front of its terminator, and a `string_view` the list of
-- its bytes. The code stores its results in the memory of its input: each token ends where a
-- terminator is written, so no two of them overlap.
pub mod Scan
pub mod Steps
pub mod Escape
pub mod Tags
pub mod Print
pub mod RoundTrip
pub mod Shape
pub mod Total
mod Tests
use snowcone.Prelude.{
  ℕ, zero, suc, ◌+◌, ◌≡◌, refl, Bool, true, false, Option, none, some, List, [], ◌∷◌, ◌++◌, Bytes,
  ◌==◌, if◌then◌else◌, length,
}

pub record IrcTag : Type 0 where
  pub key : Bytes
  pub val : Bytes

pub record IrcMsg : Type 0 where
  pub tags : List IrcTag
  pub source : Bytes
  pub command : Bytes
  pub args : List Bytes

pub data IrcErrorCode : Type 0 where
  missing_tag missing_command : IrcErrorCode

-- A result, or an `irc_parse_error`. `stuck` is no outcome of the code: a loop ran out of fuel.
pub data Result {ℓ} (A : Type ℓ) : Type ℓ where
  ok : A → Result A
  throw : IrcErrorCode → Result A
  stuck : Result A

infixl 5 ◌>>=◌
abbrev pub ◌>>=◌ {ℓ κ} : {A : Type ℓ} {B : Type κ} → Result A → (A → Result B) → Result B
stuck >>= next = stuck
throw error >>= next = throw error
ok x >>= next = next x

module _ {ℓ κ} {A : Type ℓ} {B : Type κ} where
  pub >>=-eq-ok :
      (first : Result A) (next : A → Result B) {out : B}
      → (first >>= next) ≡ ok out
      → (x : A) × (first ≡ ok x) × (next x ≡ ok out)
  >>=-eq-ok stuck next h = cc
  >>=-eq-ok (throw error) next h = cc
  >>=-eq-ok (ok x) next h = (x, refl, h)

-- The bytes before the first `c`, and the rest from that `c` on.
unfoldable pub until : ℕ → Bytes → Bytes × Bytes
until c [] = ([], [])
until c (x ∷ s) =
    let (before, rest) = until c s in if x == c then ([], x ∷ s) else (x ∷ before, rest)

unfoldable pub trim : Bytes → Bytes
trim [] = []
trim (x ∷ s) = if x == b' ' then trim s else x ∷ s

-- The constructor of `parser`: a null pointer is an empty message.
unfoldable pub parser : Option Bytes → Bytes
unfolding trim
parser none = []
parser (some msg) = trim msg

-- Behind a token: its separator is overwritten, and the spaces that follow are dropped.
abbrev pub after_word : Bytes → Bytes
after_word [] = []
after_word (x ∷ rest) = trim rest

-- The next token, and the parser behind it.
unfoldable pub word : Bytes → Bytes × Bytes
unfolding until trim
word msg = let (token, rest) = until b' ' msg in (token, after_word rest)

-- `match` consumes `c`: `none` where it returns false, which moves nothing.
abbrev pub match_char : ℕ → Bytes → Option Bytes
match_char c [] = none
match_char c (x ∷ msg) = if c == x then some msg else none

-- The byte that an escape sequence stands for.
abbrev pub reveal : ℕ → ℕ
reveal c =
    if c == b':'
    then b';'
    else if c == b's'
    then b' '
    else if c == b'r'
    then b'\r'
    else if c == b'n'
    then b'\n'
    else c

-- The `for` loop of `unescape_tag_value`, with the bytes that it writes.
unfoldable pub unescape_loop : Bytes → Bytes
unescape_loop [] = []
unescape_loop (c ∷ []) = if c == b'\\' then [] else c ∷ []
unescape_loop (c ∷ d ∷ s) =
    let escaped = reveal d ∷ unescape_loop s in
    let plain = c ∷ unescape_loop (d ∷ s) in if c == b'\\' then escaped else plain

-- The value up to the first backslash stays where it is.
unfoldable pub unescape_tag_value : Bytes → Bytes
unfolding unescape_loop until
unescape_tag_value val = let (before, cursor) = until b'\\' val in before ++ unescape_loop cursor

-- `strsep(&str, sep)`: the token, and what `str` is set to.
abbrev pub after_separator : Bytes → Option Bytes
after_separator [] = none
after_separator (x ∷ rest) = some rest

unfoldable pub strsep : ℕ → Bytes → Bytes × Option Bytes
unfolding until
strsep sep str = let (token, rest) = until sep str in (token, after_separator rest)

-- The tests of one round of the loop of `parse_irc_tags`.
unfoldable pub make_tag : Bytes → Option Bytes → Result IrcTag
unfolding unescape_tag_value
make_tag [] val = throw missing_tag
make_tag (k ∷ ks) none = ok (record { key = k ∷ ks; val = [] })
make_tag (k ∷ ks) (some v) = ok (record { key = k ∷ ks; val = unescape_tag_value v })

-- One round, on the text between two semicolons.
unfoldable pub parse_tag : Bytes → Result IrcTag
unfolding strsep make_tag
parse_tag str = let (key, val) = strsep b'=' str in make_tag key val

unfoldable pub tags_loop : ℕ → Bytes → List IrcTag → Result (List IrcTag)
unfolding parse_tag strsep
tags_loop zero str tags = stuck
tags_loop (suc fuel) str tags =
    let (text, rest) = strsep b';' str in
    parse_tag text >>= λ tag. elim rest [
      | none ↦ ok (tags ++ tag ∷ [])
      | some more ↦ tags_loop fuel more (tags ++ tag ∷ [])
    ]

-- Each round but the last takes a separator, so there are at most `length str + 1`.
unfoldable pub parse_irc_tags : Bytes → Result (List IrcTag)
unfolding tags_loop
parse_irc_tags str = tags_loop (suc (length str)) str []

unfoldable pub args_loop : ℕ → Bytes → List Bytes → Result (List Bytes)
unfolding word
args_loop fuel [] args = ok args
args_loop zero (c ∷ msg) args = stuck
args_loop (suc fuel) (c ∷ msg) args =
    let (arg, rest) = word (c ∷ msg) in
    elim (match_char b':' (c ∷ msg)) [
      | some trailing ↦ ok (args ++ trailing ∷ [])
      | none ↦ args_loop fuel rest (args ++ arg ∷ [])
    ]

-- The four parts of `parse_irc_message`, each with the parser behind it.
unfoldable pub message_tags : Bytes → Result (List IrcTag × Bytes)
unfolding word parse_irc_tags
message_tags p = elim (match_char b'@' p) [
  | none ↦ ok ([], p)
  | some p' ↦ let (text, rest) = word p' in parse_irc_tags text >>= λ tags. ok (tags, rest)
]

unfoldable pub message_source : Bytes → Bytes × Bytes
unfolding word
message_source p = elim (match_char b':' p) [ none ↦ ([], p) | some p' ↦ word p' ]

abbrev pub non_empty : Bytes → Bytes → Result (Bytes × Bytes)
non_empty [] rest = throw missing_command
non_empty (c ∷ cs) rest = ok (c ∷ cs, rest)

unfoldable pub message_command : Bytes → Result (Bytes × Bytes)
unfolding word
message_command p = let (command, rest) = word p in non_empty command rest

unfoldable pub parse_irc_message : Option Bytes → Result IrcMsg
unfolding parser message_tags message_source message_command args_loop
parse_irc_message msg = do
  (tags, p1) ← message_tags (parser msg)
  let (source, p2) = message_source p1
  (command, p3) ← message_command p2
  args ← args_loop (length p3) p3 []
  ok (record { tags = tags; source = source; command = command; args = args })
