-- ===== src/Applib/Messages.antt =====
-- From the text of a message to the table that a script sees.
use snowcone.Prelude.{◌≡◌, refl, ap, [], ◌∷◌, Bytes, Lacks, ==_ne}
use snowcone.LineBuffer.{until_zero}
use snowcone.IrcMsg.{IrcMsg}
use snowcone.IrcMsg.Print.{print, IsWellFormed}
use snowcone.IrcMsg.RoundTrip.{parse_irc_message-print}
use snowcone.IrcLua.{pushircmsg}
use snowcone.Applib.{returned, l_parse_irc}

until_zero-Lacks : (s : Bytes) → Lacks 0 s → until_zero s ≡ s
unfolding until_zero
until_zero-Lacks [] h = refl
until_zero-Lacks (x ∷ s) (ne, h) = rw (==_ne x 0 ne) (ap (λ t. x ∷ t) (until_zero-Lacks s h))

-- A script that parses the text of a well-formed message without zero bytes gets the table of just
-- that message.
pub l_parse_irc-print :
    (m : IrcMsg)
    → IsWellFormed m
    → Lacks 0 (print m)
    → l_parse_irc (print m) ≡ returned (pushircmsg m)
unfolding l_parse_irc
l_parse_irc-print m w h = rw (until_zero-Lacks (print m) h, parse_irc_message-print m w) refl
