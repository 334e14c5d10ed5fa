-- ===== src/IrcHandle/Granted.antt =====
-- What a script has been told is what the connection has taken.
use snowcone.Prelude.{◌≡◌, refl, Bool-cases, inl, inr, List, [], ◌∷◌, ◌++◌, Bytes}
use snowcone.Connection.{Network, initial}
use snowcone.Connection
use snowcone.IrcHandle.{
  State, done, failed, lock, destructed, Seen, replied, l_send_irc, l_close_irc, Run,
}

-- The commands to which the reply was `true`, one behind the other.
unfoldable pub granted : List Seen → Bytes
granted [] = []
granted (replied cmd done ∷ seen) = cmd ++ granted seen
granted (replied cmd (failed message) ∷ seen) = granted seen

-- The connection is in a state that its own steps lead to, and has taken just what was granted.
abbrev pub IsGranted : List Seen → State → Type 0
IsGranted seen s = Connection.Run initial s.network × (s.network.accepted ≡ granted seen)

-- What a change adds to what is granted.
abbrev Adds : List Seen → State → State → Type 0
Adds more s t =
    (Connection.Run initial s.network → Connection.Run initial t.network)
    × (t.network.accepted ≡ s.network.accepted ++ granted more)

-- After `close`, or after the end of the session, `send` writes nothing and tells so.
pub send-close :
    (cmd : Bytes) (s : State) → l_send_irc cmd (l_close_irc s).0 ≡ ((l_close_irc s).0, destructed)
unfolding l_send_irc l_close_irc
send-close cmd s = elim (Bool-cases (lock s)) [ inl e ↦ rw e refl | inr e ↦ rw (e, e) refl ]
