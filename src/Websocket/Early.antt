-- ===== src/Websocket/Early.antt =====
-- A socket that is used before its accept completes. The program hands the socket to the Lua
-- callback right after `async_accept` was started.
use snowcone.Prelude.{◌≡◌, refl, false, [], ◌∷◌, Bytes}
use snowcone.Websocket.{fresh, handle, on_accept, call_send, close}

-- A message that is sent before the accept completes is being written already when the accept
-- starts a write of the same message: two writes are in progress at once. And `close` before the
-- accept starts a close handshake on a stream that is not open.
pub on_accept-call_send :
    (str : Bytes)
    → ((handle (on_accept false) (call_send str fresh)).writes ≡ str ∷ str ∷ [])
      × ((handle close fresh).closes ≡ 1)
unfolding call_send on_accept close handle
on_accept-call_send str = (refl, refl)
