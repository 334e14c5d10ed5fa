-- ===== src/IrcHandle/Tests.antt =====
-- A script that sends, closes and sends again.
use snowcone.Prelude.{codes, [], ◌∷◌, List}
use snowcone.IrcHandle.{State, started, Seen, replied, done, destructed, l_send_irc, l_close_irc}

abbrev sent : State
sent = (l_send_irc (codes "NICK") started).0

abbrev shut : State
shut = (l_close_irc sent).0

-- The first command is taken, and the last is refused.
abbrev seen : List Seen
seen = replied (codes "NICK") done ∷ replied (codes "QUIT") destructed ∷ []
