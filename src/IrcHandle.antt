-- ===== src/IrcHandle.antt =====
-- The methods `send` and `close` of the object that `l_start_irc` returns, in client/irc/lua.cpp. The
-- object has a weak pointer; the session owns the connection while it runs.
pub mod Granted
mod Tests
use snowcone.Prelude.{
  ◌≡◌, Bool, true, false, List, [], ◌∷◌, ◌++◌, ◌&&◌, Bytes, codes, if◌then◌else◌,
}
use snowcone.Connection.{Network, initial, call_write, Step}

pub record State : Type 0 where
  pub network : Network
  -- A shared pointer is left, of the session or of a write in progress.
  pub alive : Bool
  pub closed : Bool
  -- The weak pointer has not been reset.
  pub handle : Bool

abbrev pub started : State
started = record { network = initial; alive = true; closed = false; handle = true }

-- `true`, or `nil` and a message.
pub data Reply : Type 0 where
  done : Reply
  failed : Bytes → Reply

-- `w->lock()`
abbrev pub lock : State → Bool
lock s = s.handle && s.alive

abbrev pub destructed : Reply
destructed = failed (codes "irc handle destructed")

unfoldable pub l_send_irc : Bytes → State → State × Reply
l_send_irc cmd s =
    if lock s then (record s { network = call_write cmd s.network }, done) else (s, destructed)

unfoldable pub l_close_irc : State → State × Reply
l_close_irc s =
    if lock s then (record s { closed = true; handle = false }, done) else (s, destructed)

-- What a script has seen: the commands that it has sent, each with the reply.
pub data Seen : Type 0 where
  replied : (cmd : Bytes) → Reply → Seen

-- The script calls, the session's writes complete, and the session ends some time. A change adds
-- what the script sees of it.
pub data Change : State → List Seen → State → Type 0 where
  sends :
      (cmd : Bytes) (s : State)
      → Change s (replied cmd (l_send_irc cmd s).1 ∷ []) (l_send_irc cmd s).0
  closes : (s : State) → Change s [] (l_close_irc s).0
  network_changes :
      (s : State) (n : Network)
      → Step s.network n
      → n.accepted ≡ s.network.accepted
      → Change s [] (record s { network = n })
  ends : (s : State) → Change s [] (record s { alive = false })

pub data Run : List Seen → State → Type 0 where
  here : Run [] started
  next : {seen more : List Seen} {s t : State} → Run seen s → Change s more t → Run (seen ++ more) t
