-- ===== src/Websocket.antt =====
-- The class `Websocket` of client/httpd.cpp. A handler returns the new state, and the asynchronous
-- operations and the callbacks that it starts, in order.
pub mod Queue
pub mod Ledger
pub mod Early
pub mod Closing
mod Tests
use snowcone.Prelude.{
  ℕ, suc, ◌+◌, ◌≡◌, Bool, true, false, List, [], ◌∷◌, ◌++◌, Bytes, codes, ◌==◌, if◌then◌else◌,
  length,
}

pub record Websocket : Type 0 where
  pub messages : List Bytes
  pub closed : Bool
  -- Whether `cb_` holds a callback.
  pub callback : Bool

abbrev pub create : Websocket
create = record { messages = []; closed = false; callback = false }

pub data Effect : Type 0 where
  async_write : Bytes → Effect
  async_read : Effect
  async_close : Effect
  wsread : Bytes → Effect
  wsreaderr : Bytes → Effect

abbrev pub Handled : Type 0
Handled = Websocket × List Effect

abbrev pub set_callback : Websocket → Handled
set_callback w = (record w { callback = true }, [])

-- `start_write`, if there is a message.
abbrev pub start_write : List Bytes → List Effect
start_write [] = []
start_write (front ∷ rest) = async_write front ∷ []

abbrev pub is_empty : List Bytes → Bool
is_empty [] = true
is_empty (x ∷ xs) = false

unfoldable pub close : Websocket → Handled
close w =
    if w.closed
    then (w, [])
    else (record w { closed = true }, if is_empty w.messages then async_close ∷ [] else [])

unfoldable pub send : Bytes → Websocket → Handled
send str w =
    let messages : List Bytes = w.messages ++ str ∷ [] in
    if w.closed then (w, []) else (
      record w { messages = messages },
      if length messages == 1 then start_write messages else [],
    )

unfoldable pub on_accept : Bool → Websocket → Handled
on_accept true w = (w, [])
on_accept false w = (w, async_read ∷ start_write w.messages)

abbrev pub pop : List Bytes → List Bytes
pop [] = []
pop (front ∷ rest) = rest

abbrev pub write_or_close : Bool → List Bytes → List Effect
write_or_close closed (front ∷ rest) = start_write (front ∷ rest)
write_or_close true [] = async_close ∷ []
write_or_close false [] = []

unfoldable pub on_write : Bool → Websocket → Handled
on_write true w = (record w { closed = true; messages = [] }, [])
on_write false w =
    let rest : List Bytes = pop w.messages in
    (record w { messages = rest }, write_or_close w.closed rest)

-- What a read delivers: a message, or an error.
pub data Received : Type 0 where
  message : Bytes → Received
  error : Bytes → Received

unfoldable pub on_read : Received → Websocket → Handled
on_read (error what) w = (w, if w.callback then wsreaderr what ∷ [] else [])
on_read (message text) w = (w, (if w.callback then wsread text ∷ [] else []) ++ async_read ∷ [])

-- The operations in progress, the messages that `send` has taken, and those that have been written.
pub record Network : Type 0 where
  pub socket : Websocket
  pub writes : List Bytes
  pub reads : ℕ
  pub closes : ℕ
  pub accepted : List Bytes
  pub delivered : List Bytes

pub start : Effect → Network → Network
start (async_write text) n = record n { writes = n.writes ++ text ∷ [] }
start async_read n = record n { reads = suc n.reads }
start async_close n = record n { closes = suc n.closes }
start (wsread text) n = n
start (wsreaderr what) n = n

pub start_all : List Effect → Network → Network
unfolding start
start_all [] n = n
start_all (e ∷ es) n = start_all es (start e n)

-- A handler runs on the socket, and what it starts is in progress.
unfoldable pub handle : (Websocket → Handled) → Network → Network
unfolding start_all
handle handler n =
    let (w, effects) = handler n.socket in start_all effects (record n { socket = w })

abbrev pub fresh : Network
fresh = record {
  socket = create;
  writes = [];
  reads = 0;
  closes = 0;
  accepted = [];
  delivered = [];
}

-- `send` takes the message unless the socket is closed.
unfoldable pub call_send : Bytes → Network → Network
unfolding handle send
call_send str n =
    handle (send str)
      (record n { accepted = if n.socket.closed then n.accepted else n.accepted ++ str ∷ [] })

-- A write or read in progress is over when its handler runs.
unfoldable pub finish_write : Bool → Bytes → List Bytes → Network → Network
unfolding handle on_write
finish_write failed text rest n = handle (on_write failed) (record n {
  writes = rest;
  delivered = if failed then n.delivered else n.delivered ++ text ∷ [];
})

unfoldable pub finish_read : Received → ℕ → Network → Network
unfolding handle on_read
finish_read received rest n = handle (on_read received) (record n { reads = rest })

pub data Step : Network → Network → Type 0 where
  calls_send : (str : Bytes) (n : Network) → Step n (call_send str n)
  calls_close : (n : Network) → Step n (handle close n)
  sets_callback : (n : Network) → Step n (handle set_callback n)
  wrote :
      (failed : Bool) (text : Bytes) (rest : List Bytes) (n : Network)
      → n.writes ≡ text ∷ rest
      → Step n (finish_write failed text rest n)
  has_read :
      (received : Received) (rest : ℕ) (n : Network)
      → n.reads ≡ suc rest
      → Step n (finish_read received rest n)

-- The socket after its accept, with nothing sent before.
unfoldable pub opened : Network
unfolding handle on_accept
opened = handle (on_accept false) fresh

pub data Run (from : Network) : Network → Type 0 where
  here : Run from from
  then : {m n : Network} → Run from m → Step m n → Run from n
