-- ===== src/IrcMsg/Tests.antt =====
-- Runs of the parser, after tests/tests-ircmsg.cpp.
use snowcone.Prelude.{◌≡◌, ◌≢◌, refl, lacks-Lacks, some, none, [], ◌∷◌, codes}
use snowcone.IrcMsg.{IrcMsg, parse_irc_message, ok, throw, stuck, missing_tag, missing_command}
use snowcone.IrcMsg.Print.{print, IsWellFormed}
use snowcone.IrcMsg.RoundTrip.{parse_irc_message-print}
use snowcone.IrcMsg.Shape.{parse_irc_message-IsWellFormed}
use snowcone.IrcMsg.Total.{parse_irc_message-ne-stuck}

prefix_and_colon :
    parse_irc_message (some (codes ":prefix command arg :"))
    ≡ ok (record {
      tags = [];
      source = codes "prefix";
      command = codes "command";
      args = codes "arg" ∷ [] ∷ [];
    })
unfolding parse_irc_message
prefix_and_colon = refl

tag_escapes :
    parse_irc_message (some (codes "@key;yek=\\:\\s\\\\\\r\\n :prefix command"))
    ≡ ok (record {
      tags =
          record { key = codes "key"; val = [] }
          ∷ record { key = codes "yek"; val = codes "; \\\r\n" }
          ∷ [];
      source = codes "prefix";
      command = codes "command";
      args = [];
    })
unfolding parse_irc_message
tag_escapes = refl

command_arg_spaced :
    parse_irc_message (some (codes "  cmd  arg  "))
    ≡ ok (record { tags = []; source = []; command = codes "cmd"; args = codes "arg" ∷ [] })
unfolding parse_irc_message
command_arg_spaced = refl

tag_trailing_semi : parse_irc_message (some (codes "@key=value; command")) ≡ throw missing_tag
unfolding parse_irc_message
tag_trailing_semi = refl

tag_no_command : parse_irc_message (some (codes "@key=value")) ≡ throw missing_command
unfolding parse_irc_message
tag_no_command = refl

bare_prefix : parse_irc_message (some (codes ":prefix")) ≡ throw missing_command
unfolding parse_irc_message
bare_prefix = refl

null_message : parse_irc_message none ≡ throw missing_command
unfolding parse_irc_message
null_message = refl

abbrev tagged : IrcMsg
tagged = record {
  tags = record { key = codes "k"; val = codes "a;b" } ∷ [];
  source = codes "nick";
  command = codes "PRIVMSG";
  args = codes "#c" ∷ codes ": hi" ∷ [];
}

parse_irc_message-print_example : parse_irc_message (some (print tagged)) ≡ ok tagged
parse_irc_message-print_example = parse_irc_message-print tagged (record {
  keys = (
    (
      cc,
      lacks-Lacks b';' (codes "k") refl,
      lacks-Lacks b'=' (codes "k") refl,
      lacks-Lacks b' ' (codes "k") refl,
    ),
    tt,
  );
  source_word = lacks-Lacks b' ' (codes "nick") refl;
  command_given = cc;
  command_word = lacks-Lacks b' ' (codes "PRIVMSG") refl;
  args_words = ((cc, lacks-Lacks b' ' (codes "#c") refl), tt);
})

abbrev ping : IrcMsg
ping = record { tags = []; source = []; command = codes "PING"; args = codes "a b" ∷ [] }

parse_irc_message-IsWellFormed_example : IsWellFormed ping
unfolding parse_irc_message
parse_irc_message-IsWellFormed_example =
    parse_irc_message-IsWellFormed (some (codes " PING :a b")) ping refl

parse_irc_message-ne-stuck_example : parse_irc_message (some (codes "@;")) ≢ stuck
parse_irc_message-ne-stuck_example = parse_irc_message-ne-stuck (some (codes "@;"))
