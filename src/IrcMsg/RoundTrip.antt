-- ===== src/IrcMsg/RoundTrip.antt =====
-- Parsing the text of a well-formed message gives the message back.
use snowcone.Prelude.{
  ℕ, zero, suc, ◌≤◌, ◌≡◌, ◌≢◌, refl, some, List, [], ◌∷◌, ◌++◌, append_assoc, append-nil, arith,
  Bytes, length, length-append, All, All-append, Lacks,
}
use snowcone.IrcMsg.{
  IrcTag, IrcMsg, ok, parser, make_tag, parse_tag, args_loop, message_tags, message_command,
  parse_irc_message,
}
use snowcone.IrcMsg.Scan.{IsTrim, word_at, word_all, strsep_at, strsep_all, trim_of_IsTrim}
use snowcone.IrcMsg.Steps.{
  parse_tag_lem, message_tags_at, message_tags_none, message_source_at, message_command_lem,
  args_loop-word, args_loop_trailing, parse_irc_message_lem,
}
use snowcone.IrcMsg.Escape.{escape, unescape_tag_value-escape, escape-Lacks}
use snowcone.IrcMsg.Tags.{split, read_all, split-strsep, parse_irc_tags-read_all}
use snowcone.IrcMsg.Print.{
  print_tag, print_tags, print_args, tags_part, args_part, print, IsKey, AreArgs, IsWellFormed,
}

-- What the command's word leaves.
abbrev args_rest : List Bytes → Bytes
args_rest [] = []
args_rest (a ∷ rest) = print_args (a ∷ rest)

make_tag-escape :
    (k v : Bytes) → k ≢ [] → make_tag k (some (escape v)) ≡ ok (record { key = k; val = v })
unfolding make_tag
make_tag-escape [] v h = absurd (h refl)
make_tag-escape (k ∷ ks) v h = rw (unescape_tag_value-escape v)

parse_tag-print_tag : (t : IrcTag) → IsKey t.key → parse_tag (print_tag t) ≡ ok t
unfolding print_tag
parse_tag-print_tag t h =
    rw (parse_tag_lem, strsep_at b'=' t.key (escape t.val) h.2) (make_tag-escape t.key t.val h.0)

print_tag-Lacks : (t : IrcTag) → IsKey t.key → Lacks b';' (print_tag t) × Lacks b' ' (print_tag t)
unfolding print_tag
print_tag-Lacks t h =
    let value = escape-Lacks t.val in
    (
      All-append _ t.key _ h.1 ((λ e. omega arith), value.0),
      All-append _ t.key _ h.3 ((λ e. omega arith), value.1),
    )

split_at : (c : ℕ) (p s : Bytes) → Lacks c p → split c (p ++ c ∷ s) ≡ p ∷ split c s
split_at c p s h = rw (split-strsep c (p ++ c ∷ s), strsep_at c p s h)

split_all : (c : ℕ) (p : Bytes) → Lacks c p → split c p ≡ p ∷ []
split_all c p h = rw (split-strsep c p, strsep_all c p h)

read_all-print_tags :
    (t : IrcTag) (ts : List IrcTag)
    → All (λ u. IsKey u.key) (t ∷ ts)
    → read_all (split b';' (print_tags (t ∷ ts))) ≡ ok (t ∷ ts)
unfolding print_tags read_all
read_all-print_tags t [] h =
    rw (split_all b';' _ (print_tag-Lacks t h.0).0) (rw (parse_tag-print_tag t h.0))
read_all-print_tags t (u ∷ ts) h =
    rw (split_at b';' _ (print_tags (u ∷ ts)) (print_tag-Lacks t h.0).0)
      (rw (parse_tag-print_tag t h.0, read_all-print_tags u ts h.1))

print_tags-Lacks :
    (t : IrcTag) (ts : List IrcTag)
    → All (λ u. IsKey u.key) (t ∷ ts)
    → Lacks b' ' (print_tags (t ∷ ts))
unfolding print_tags
print_tags-Lacks t [] h = (print_tag-Lacks t h.0).1
print_tags-Lacks t (u ∷ ts) h =
    All-append _ (print_tag t) _ (print_tag-Lacks t h.0).1
      ((λ e. omega arith), print_tags-Lacks u ts h.1)

message_tags-print :
    (ts : List IrcTag) (text : Bytes)
    → All (λ u. IsKey u.key) ts
    → message_tags (tags_part ts (b':' ∷ text)) ≡ ok (ts, b':' ∷ text)
message_tags-print [] text h = message_tags_none b':' text (λ e. omega arith)
message_tags-print (t ∷ ts) text h = rw (
  message_tags_at,
  word_at (print_tags (t ∷ ts)) (b':' ∷ text) (print_tags-Lacks t ts h) (λ e. omega arith),
  parse_irc_tags-read_all,
  read_all-print_tags t ts h,
)

args_part-IsTrim :
    (a : Bytes) (as' : List Bytes) → AreArgs (a ∷ as') → IsTrim (print_args (a ∷ as'))
unfolding print_args
args_part-IsTrim a [] h = λ e. omega arith
args_part-IsTrim [] (b ∷ r) h = elim h.0.0 [ ]
args_part-IsTrim (c ∷ a) (b ∷ r) h = h.0.1.0

args_loop-print :
    (fuel : ℕ) (a : Bytes) (as' acc : List Bytes)
    → AreArgs (a ∷ as')
    → length (print_args (a ∷ as')) ≤ fuel
    → args_loop fuel (print_args (a ∷ as')) acc ≡ ok (acc ++ a ∷ as')
unfolding print_args
args_loop-print zero a [] acc h l = elim l [ ]
args_loop-print (suc fuel) a [] acc h l = args_loop_trailing fuel b':' a acc refl
args_loop-print fuel [] (b ∷ r) acc h l = elim h.0.0 [ ]
args_loop-print zero (c ∷ a) (b ∷ r) acc h l = elim l [ ]
args_loop-print (suc fuel) (c ∷ a) (b ∷ r) acc h l =
    let next = args_part-IsTrim b r h.1 in
    let room = length-append (c ∷ a) (b' ' ∷ print_args (b ∷ r)) in
    rw (
      args_loop-word fuel c (a ++ b' ' ∷ print_args (b ∷ r)) acc h.0.0,
      word_at (c ∷ a) (print_args (b ∷ r)) h.0.1 next,
      args_loop-print fuel b r (acc ++ (c ∷ a) ∷ []) h.1 (omega arith),
      append_assoc,
    )

command_word_is :
    (command : Bytes) (args : List Bytes)
    → command ≢ []
    → Lacks b' ' command
    → AreArgs args
    → message_command (command ++ args_part args) ≡ ok (command, args_rest args)
command_word_is [] args given h a = absurd (given refl)
command_word_is (c ∷ cs) [] given h a =
    rw (append-nil (c ∷ cs), message_command_lem (c ∷ cs), word_all (c ∷ cs) h)
command_word_is (c ∷ cs) (b ∷ r) given h a =
    rw (message_command_lem, word_at (c ∷ cs) (print_args (b ∷ r)) h (args_part-IsTrim b r a))

tags_part-IsTrim : (ts : List IrcTag) (text : Bytes) → IsTrim (tags_part ts (b':' ∷ text))
tags_part-IsTrim [] text = λ e. omega arith
tags_part-IsTrim (t ∷ ts) text = λ e. omega arith

command_part-IsTrim :
    (command : Bytes) (args : List Bytes)
    → command ≢ []
    → Lacks b' ' command
    → IsTrim (command ++ args_part args)
command_part-IsTrim [] args given h = absurd (given refl)
command_part-IsTrim (c ∷ cs) args given h = h.0

args_loop-rest :
    (args : List Bytes)
    → AreArgs args
    → args_loop (length (args_rest args)) (args_rest args) [] ≡ ok args
args_loop-rest [] h = unfold args_loop in refl
args_loop-rest (a ∷ as') h = args_loop-print _ a as' [] h (omega arith)

print-IsTrim : (m : IrcMsg) → IsTrim (print m)
unfolding print
print-IsTrim m = tags_part-IsTrim m.tags _

-- The text of a well-formed message parses to the message.
pub parse_irc_message-print :
    (m : IrcMsg) → IsWellFormed m → parse_irc_message (some (print m)) ≡ ok m
unfolding parser print
parse_irc_message-print m w =
    let open_word = command_part-IsTrim m.command m.args w.command_given w.command_word in
    rw (
      parse_irc_message_lem,
      trim_of_IsTrim (print m) (print-IsTrim m),
      message_tags-print m.tags _ w.keys,
      message_source_at,
      word_at m.source _ w.source_word open_word,
      command_word_is m.command m.args w.command_given w.command_word w.args_words,
      args_loop-rest m.args w.args_words,
    )
