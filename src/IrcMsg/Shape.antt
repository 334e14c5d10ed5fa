-- ===== src/IrcMsg/Shape.antt =====
-- Every message that the parser returns is well-formed.
use snowcone.Prelude.{
  ℕ, zero, suc, ◌≡◌, ◌≢◌, sym, ◌∙◌, ap, inl, inr, Option, none, some, List, [], ◌∷◌, ◌++◌, arith,
  Bytes, ◌==◌, ==_ne, Bool-cases, length, All, All-append, Lacks,
}
use snowcone.IrcMsg.{
  IrcTag, IrcMsg, Result, ok, ◌>>=◌, >>=-eq-ok, until, word, parser, make_tag, parse_tag,
  parse_irc_tags, args_loop, message_tags, message_source, message_command, non_empty,
  parse_irc_message,
}
use snowcone.IrcMsg.Scan.{IsTrim, word-Lacks, word-IsTrim, strsep-Lacks, strsep-All}
use snowcone.IrcMsg.Steps.{
  parse_tag_lem, message_tags_at, message_tags_none, message_source_at, message_source_none,
  message_command_lem, args_loop-word, args_loop_trailing, parse_irc_message_lem,
}
use snowcone.IrcMsg.Tags.{split, cons_head, read_all, parse_irc_tags-read_all}
use snowcone.IrcMsg.Print.{StartsNot, IsKey, IsMiddle, AreArgs, IsWellFormed, print}
use snowcone.IrcMsg.RoundTrip.{parse_irc_message-print}

-- A piece of the tags' word.
abbrev IsPiece : Bytes → Type 0
IsPiece p = Lacks b';' p × Lacks b' ' p

cons_head-IsPiece :
    (x : ℕ) (ps : List Bytes) → x ≢ b';' → x ≢ b' ' → All IsPiece ps → All IsPiece (cons_head x ps)
cons_head-IsPiece x [] h k a = a
cons_head-IsPiece x (p ∷ ps) h k a = (((h, a.0.0), (k, a.0.1)), a.1)

split-IsPiece : (s : Bytes) → Lacks b' ' s → All IsPiece (split b';' s)
unfolding split
split-IsPiece [] h = ((tt, tt), tt)
split-IsPiece (x ∷ s) h = elim (Bool-cases (x == b';')) [
  | inl e ↦ rw e ((tt, tt), split-IsPiece s h.1)
  | inr e ↦ rw e (cons_head-IsPiece x (split b';' s) (λ eq. ground arith) h.0 (split-IsPiece s h.1))
]

make_tag_key :
    (key : Bytes) (val : Option Bytes) (t : IrcTag)
    → make_tag key val ≡ ok t
    → (t.key ≡ key) × (key ≢ [])
unfolding make_tag
make_tag_key [] val t e = cc
make_tag_key (k ∷ ks) none t e = ground arith
make_tag_key (k ∷ ks) (some v) t e = ground arith

parse_tag-IsKey : (p : Bytes) (t : IrcTag) → IsPiece p → parse_tag p ≡ ok t → IsKey t.key
parse_tag-IsKey p t h e =
    let (same, given) = make_tag_key _ _ t (sym (parse_tag_lem p) ∙ e) in
    rw same (given, (strsep-All b'=' _ p h.0), strsep-Lacks b'=' p, (strsep-All b'=' _ p h.1))

read_all-keys :
    (ps : List Bytes) (ts : List IrcTag)
    → All IsPiece ps
    → read_all ps ≡ ok ts
    → All (λ t. IsKey t.key) ts
unfolding read_all
read_all-keys [] ts h e = let same : ts ≡ [] = cc in rw same tt
read_all-keys (p ∷ ps) ts h e =
    let (t, first, rest) = >>=-eq-ok (parse_tag p) _ e in
    let (more, others, last) = >>=-eq-ok (read_all ps) _ rest in
    let same : ts ≡ t ∷ more = cc in
    rw same (parse_tag-IsKey p t h.0 first, read_all-keys ps more h.1 others)

given_tags-keys :
    (p : Bytes) (head : List IrcTag × Bytes)
    → message_tags (b'@' ∷ p) ≡ ok head
    → All (λ t. IsKey t.key) head.0
given_tags-keys p head e =
    let (ts, parsed, last) =
      >>=-eq-ok (parse_irc_tags (word p).0) (λ ts. ok (ts, (word p).1))
        (sym (message_tags_at p) ∙ e) in
    let same : head ≡ (ts, (word p).1) = cc in
    rw same (
      read_all-keys _ ts (split-IsPiece _ (word-Lacks p))
        (sym (parse_irc_tags-read_all _) ∙ parsed))

message_tags-keys :
    (p : Bytes) (head : List IrcTag × Bytes)
    → message_tags p ≡ ok head
    → All (λ t. IsKey t.key) head.0
message_tags-keys [] head e = let same : head ≡ ([], []) = unfold message_tags in cc in rw same tt
message_tags-keys (c ∷ p) head e = elim (Bool-cases (c == b'@')) [
  | inl at ↦
      let same : c ≡ b'@' = ground arith in
      given_tags-keys p head (ap (λ x. message_tags (x ∷ p)) (sym same) ∙ e)
  | inr other ↦
      let same : head ≡ ([], c ∷ p) = cc (message_tags_none c p (λ eq. ground arith)) in rw same tt
]

message_source-Lacks : (p : Bytes) → Lacks b' ' (message_source p).0
message_source-Lacks [] = unfold message_source in tt
message_source-Lacks (c ∷ p) = elim (Bool-cases (c == b':')) [
  | inl at ↦ let same : c ≡ b':' = ground arith in rw (same, message_source_at p) (word-Lacks p)
  | inr other ↦ rw (message_source_none c p (λ eq. ground arith)) tt
]

non_empty-ok :
    (command rest : Bytes) (middle : Bytes × Bytes)
    → non_empty command rest ≡ ok middle
    → (middle ≡ (command, rest)) × (command ≢ [])
non_empty-ok [] rest middle e = cc
non_empty-ok (c ∷ cs) rest middle e = ground arith

message_command-word :
    (p : Bytes) (middle : Bytes × Bytes)
    → message_command p ≡ ok middle
    → (middle.0 ≢ []) × Lacks b' ' middle.0 × IsTrim middle.1
message_command-word p middle e =
    let (same, given) = non_empty-ok _ _ middle (sym (message_command_lem p) ∙ e) in
    rw same (given, word-Lacks p, word-IsTrim p)

AreArgs-snoc : (args : List Bytes) (a : Bytes) → All IsMiddle args → AreArgs (args ++ a ∷ [])
AreArgs-snoc [] a h = tt
AreArgs-snoc (b ∷ []) a h = (h.0, tt)
AreArgs-snoc (b ∷ c ∷ r) a h = (h.0, AreArgs-snoc (c ∷ r) a h.1)

All-AreArgs : (args : List Bytes) → All IsMiddle args → AreArgs args
All-AreArgs [] h = tt
All-AreArgs (b ∷ []) h = tt
All-AreArgs (b ∷ c ∷ r) h = (h.0, All-AreArgs (c ∷ r) h.1)

starts_not : (c : ℕ) (s : Bytes) → c ≢ b' ' → c ≢ b':' → StartsNot (word (c ∷ s)).0
unfolding word
starts_not c s h k = rw (==_ne c b' ' h, until) k

word-IsMiddle : (c : ℕ) (s : Bytes) → c ≢ b' ' → c ≢ b':' → IsMiddle (word (c ∷ s)).0
word-IsMiddle c s h k = (starts_not c s h k, word-Lacks (c ∷ s))

args_loop-AreArgs :
    (fuel : ℕ) (p : Bytes) (acc args : List Bytes)
    → All IsMiddle acc
    → IsTrim p
    → args_loop fuel p acc ≡ ok args
    → AreArgs args
args_loop-AreArgs fuel [] acc args h t e =
    let same : args ≡ acc = unfold args_loop in cc in rw same (All-AreArgs acc h)
args_loop-AreArgs zero (c ∷ s) acc args h t e = unfold args_loop in cc
args_loop-AreArgs (suc fuel) (c ∷ s) acc args h t e = elim (Bool-cases (c == b':')) [
  | inl is_colon ↦
      let same : args ≡ acc ++ s ∷ [] = cc (args_loop_trailing fuel c s acc (ground arith)) in
      rw same (AreArgs-snoc acc s h)
  | inr other ↦
      let no_colon : c ≢ b':' = λ eq. ground arith in
      args_loop-AreArgs fuel _ _ args (All-append _ acc _ h (word-IsMiddle c s t no_colon, tt))
        (word-IsTrim (c ∷ s)) (sym (args_loop-word fuel c s acc no_colon) ∙ e)
]

-- The parts of the parser's chain, by name.
abbrev message : List IrcTag × Bytes → Bytes × Bytes → List Bytes → IrcMsg
message head middle args = record {
  tags = head.0;
  source = (message_source head.1).0;
  command = middle.0;
  args = args;
}

abbrev after_args : List IrcTag × Bytes → Bytes × Bytes → List Bytes → Result IrcMsg
after_args head middle args = ok (message head middle args)

abbrev after_command : List IrcTag × Bytes → Bytes × Bytes → Result IrcMsg
after_command head middle = args_loop (length middle.1) middle.1 [] >>= after_args head middle

abbrev after_tags : List IrcTag × Bytes → Result IrcMsg
after_tags head = message_command (message_source head.1).1 >>= after_command head

-- A message that is returned has a command without spaces, keys without separators, and arguments
-- that can be told apart: only the last may be empty, hold spaces or begin with a colon.
pub parse_irc_message-IsWellFormed :
    (msg : Option Bytes) (m : IrcMsg) → parse_irc_message msg ≡ ok m → IsWellFormed m
parse_irc_message-IsWellFormed msg m e =
    let (head, tags_ok, r1) =
      >>=-eq-ok (message_tags (parser msg)) (after_tags) (sym (parse_irc_message_lem msg) ∙ e) in
    let (middle, command_ok, r2) =
      >>=-eq-ok (message_command (message_source head.1).1) (after_command head) r1 in
    let (args, args_ok, r3) =
      >>=-eq-ok (args_loop (length middle.1) middle.1 []) (after_args head middle) r2 in
    let (given, is_word, is_trim) = message_command-word _ middle command_ok in
    let same : m ≡ message head middle args = cc in
    rw same (record {
      keys = message_tags-keys _ head tags_ok;
      source_word = message_source-Lacks head.1;
      command_given = given;
      command_word = is_word;
      args_words = args_loop-AreArgs _ _ [] args tt is_trim args_ok;
    })

-- So the text of any message that is returned parses to the same message again.
pub parse-print-parse :
    (msg : Option Bytes) (m : IrcMsg)
    → parse_irc_message msg ≡ ok m
    → parse_irc_message (some (print m)) ≡ ok m
parse-print-parse msg m e = parse_irc_message-print m (parse_irc_message-IsWellFormed msg m e)
