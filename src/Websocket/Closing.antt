-- ===== src/Websocket/Closing.antt =====
-- After `close`, the queue is written out and the close handshake starts.
use snowcone.Prelude.{ℕ, zero, suc, ◌≡◌, true, false, List, [], ◌∷◌, Bytes}
use snowcone.Websocket.{Network, finish_write}

-- The handshake of a closed socket with an empty queue has been started.
abbrev IsPrompt : Network → Type 0
IsPrompt n = n.socket.closed ≡ true → n.socket.messages ≡ [] → n.closes ≡ 1

-- The first write that is in progress completes.
finish_first : List Bytes → Network → Network
finish_first [] n = n
finish_first (text ∷ rest) n = finish_write false text rest n

pub finish : ℕ → Network → Network
unfolding finish_first
finish zero n = n
finish (suc k) n = finish k (finish_first n.writes n)
