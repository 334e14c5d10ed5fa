-- ===== src/Websocket/Tests.antt =====
-- Runs of the web socket.
use snowcone.Prelude.{◌≡◌, refl, false, [], ◌∷◌, codes}
use snowcone.Websocket.{
  Network, opened, fresh, handle, close, on_accept, call_send, finish_write, Run, here, then,
  calls_send, calls_close, wrote,
}
use snowcone.Websocket.Queue.{IsTidy, Run-IsTidy}
use snowcone.Websocket.Early.{on_accept-call_send}

abbrev greeted : Network
greeted = handle close (call_send (codes "hi") opened)

greeted-Run : Run opened greeted
greeted-Run =
    then (then here (calls_send (codes "hi") opened)) (calls_close (call_send (codes "hi") opened))

Run-IsTidy_example : IsTidy (finish_write false (codes "hi") [] greeted)
unfolding call_send opened close
Run-IsTidy_example = Run-IsTidy (then greeted-Run (wrote false (codes "hi") [] greeted refl))

on_accept-call_send_example :
    ((handle (on_accept false) (call_send (codes "hi") fresh)).writes
      ≡ codes "hi" ∷ codes "hi" ∷ [])
    × ((handle close fresh).closes ≡ 1)
on_accept-call_send_example = on_accept-call_send (codes "hi")
