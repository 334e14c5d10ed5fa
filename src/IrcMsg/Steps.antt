-- ===== src/IrcMsg/Steps.antt =====
-- One equation for each step of the parser, over the scanners as they are.
use snowcone.Prelude.{
  ℕ, suc, ◌≡◌, ◌≢◌, refl, sym, Option, length, [], ◌∷◌, ◌++◌, List, Bytes, ==_ne,
}
use snowcone.IrcMsg.{
  ok, ◌>>=◌, word, strsep, make_tag, parse_tag, parse_irc_tags, args_loop, message_tags,
  message_source, message_command, non_empty, parser, parse_irc_message,
}

pub parse_tag_lem : (s : Bytes) → parse_tag s ≡ make_tag (strsep b'=' s).0 (strsep b'=' s).1
unfolding parse_tag
parse_tag_lem s = refl

pub message_tags_at :
    (p : Bytes)
    → message_tags (b'@' ∷ p) ≡ (parse_irc_tags (word p).0 >>= λ tags. ok (tags, (word p).1))
unfolding message_tags
message_tags_at p = refl

pub message_tags_none : (c : ℕ) (p : Bytes) → c ≢ b'@' → message_tags (c ∷ p) ≡ ok ([], c ∷ p)
unfolding message_tags
message_tags_none c p h = rw (==_ne b'@' c (λ e. h (sym e)), message_tags)

pub message_source_at : (p : Bytes) → message_source (b':' ∷ p) ≡ word p
unfolding message_source
message_source_at p = refl

pub message_source_none : (c : ℕ) (p : Bytes) → c ≢ b':' → message_source (c ∷ p) ≡ ([], c ∷ p)
unfolding message_source
message_source_none c p h = rw (==_ne b':' c (λ e. h (sym e)), message_source)

pub message_command_lem : (p : Bytes) → message_command p ≡ non_empty (word p).0 (word p).1
unfolding message_command
message_command_lem p = refl

pub args_loop-word :
    (fuel c : ℕ) (s : Bytes) (args : List Bytes)
    → c ≢ b':'
    → args_loop (suc fuel) (c ∷ s) args
      ≡ args_loop fuel (word (c ∷ s)).1 (args ++ (word (c ∷ s)).0 ∷ [])
unfolding args_loop
args_loop-word fuel c s args h = rw (==_ne b':' c (λ e. h (sym e)), args_loop)

pub args_loop_trailing :
    (fuel c : ℕ) (s : Bytes) (args : List Bytes)
    → c ≡ b':'
    → args_loop (suc fuel) (c ∷ s) args ≡ ok (args ++ s ∷ [])
unfolding args_loop
args_loop_trailing fuel c s args e = rw e

pub parse_irc_message_lem :
    (msg : Option Bytes)
    → parse_irc_message msg ≡ (
        message_tags (parser msg) >>= λ head.
        message_command (message_source head.1).1 >>= λ middle.
        args_loop (length middle.1) middle.1 [] >>= λ args. ok (record {
          tags = head.0;
          source = (message_source head.1).0;
          command = middle.0;
          args = args;
        }))
unfolding parse_irc_message
parse_irc_message_lem msg = refl
