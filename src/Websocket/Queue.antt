-- ===== src/Websocket/Queue.antt =====
-- The operations in progress on a socket that nothing was sent on before its accept.
use snowcone.Prelude.{
  ℕ, suc, ◌≤◌, ◌≡◌, refl, ap, ◌⊎◌, inl, inr, Bool, true, false, List, [], ◌∷◌, ◌++◌, arith, Bytes,
  length, length-append, ◌==◌,
}
use snowcone.Websocket.{
  close, Received, message, error, Network, start_all, handle, call_send, finish_write, finish_read,
  Step, calls_send, calls_close, sets_callback, wrote, has_read, opened, Run, here, then,
}

abbrev pub front : List Bytes → List Bytes
front [] = []
front (m ∷ ms) = m ∷ []

abbrev pub IsTidy : Network → Type 0
IsTidy n =
    (n.writes ≡ front n.socket.messages)
    × (n.reads ≤ 1)
    × ((n.closes ≡ 0) ⊎ ((n.closes ≡ 1) × (n.socket.closed ≡ true) × (n.socket.messages ≡ [])))

abbrev pub network :
    List Bytes → Bool → Bool → List Bytes → ℕ → ℕ → List Bytes → List Bytes → Network
network messages closed callback writes reads closes accepted delivered = record {
  socket = record { messages = messages; closed = closed; callback = callback };
  writes = writes;
  reads = reads;
  closes = closes;
  accepted = accepted;
  delivered = delivered;
}

close-IsTidy :
    (ms : List Bytes) (c cb : Bool) (ws : List Bytes) (r k : ℕ) (ac de : List Bytes)
    → IsTidy (network ms c cb ws r k ac de)
    → IsTidy (handle close (network ms c cb ws r k ac de))
unfolding handle close
close-IsTidy ms true cb ws r k ac de h = h
close-IsTidy [] false cb ws r k ac de (w, o, inl e) = (w, o, inr (omega arith, refl, refl))
close-IsTidy [] false cb ws r k ac de (w, o, inr (e, q, f)) = cc
close-IsTidy (m ∷ ms) false cb ws r k ac de (w, o, inl e) = (w, o, inl e)
close-IsTidy (m ∷ ms) false cb ws r k ac de (w, o, inr (e, q, f)) = cc

send-IsTidy :
    (str : Bytes) (ms : List Bytes) (c cb : Bool) (ws : List Bytes) (r k : ℕ) (ac de : List Bytes)
    → IsTidy (network ms c cb ws r k ac de)
    → IsTidy (call_send str (network ms c cb ws r k ac de))
unfolding call_send
send-IsTidy str ms true cb ws r k ac de h = h
send-IsTidy str [] false cb ws r k ac de (w, o, inl e) = (ap (λ t. t ++ str ∷ []) w, o, inl e)
send-IsTidy str (m ∷ ms) false cb ws r k ac de (w, o, inl e) =
    let more : (length (m ∷ (ms ++ str ∷ [])) == 1) ≡ false =
      ground (arith, length-append ms (str ∷ [])) in
    rw more (w, o, inl e)
send-IsTidy str ms false cb ws r k ac de (w, o, inr (e, q, f)) = absurd (cc)

wrote-IsTidy :
    (failed : Bool) (text : Bytes) (rest : List Bytes) (ms : List Bytes) (c cb : Bool)
    (ws : List Bytes) (r k : ℕ) (ac de : List Bytes)
    → ws ≡ text ∷ rest
    → IsTidy (network ms c cb ws r k ac de)
    → IsTidy (finish_write failed text rest (network ms c cb ws r k ac de))
unfolding finish_write
wrote-IsTidy failed text rest [] c cb ws r k ac de started (w, o, h) = absurd (cc)
wrote-IsTidy failed text rest (m ∷ ms) c cb ws r k ac de started (w, o, inr (e, q, f)) = absurd (cc)
wrote-IsTidy true text rest (m ∷ ms) c cb ws r k ac de started (w, o, inl e) =
    let none_left : rest ≡ [] = cc in (none_left, o, inl e)
wrote-IsTidy false text rest (m ∷ n ∷ ms) c cb ws r k ac de started (w, o, inl e) =
    let none_left : rest ≡ [] = cc in (ap (λ t. t ++ n ∷ []) none_left, o, inl e)
wrote-IsTidy false text rest (m ∷ []) true cb ws r k ac de started (w, o, inl e) =
    let none_left : rest ≡ [] = cc in (none_left, o, inr (ap suc e, refl, refl))
wrote-IsTidy false text rest (m ∷ []) false cb ws r k ac de started (w, o, inl e) =
    let none_left : rest ≡ [] = cc in (none_left, o, inl e)

has_read-IsTidy :
    (received : Received) (rest : ℕ) (ms : List Bytes) (c cb : Bool) (ws : List Bytes) (r k : ℕ)
    (ac de : List Bytes)
    → r ≡ suc rest
    → IsTidy (network ms c cb ws r k ac de)
    → IsTidy (finish_read received rest (network ms c cb ws r k ac de))
unfolding finish_read
has_read-IsTidy (error what) rest ms c true ws r k ac de one (w, o, h) = (w, omega arith, h)
has_read-IsTidy (error what) rest ms c false ws r k ac de one (w, o, h) = (w, omega arith, h)
has_read-IsTidy (message text) rest ms c true ws r k ac de one (w, o, h) = (w, omega arith, h)
has_read-IsTidy (message text) rest ms c false ws r k ac de one (w, o, h) = (w, omega arith, h)

Step-IsTidy : {m n : Network} → Step m n → IsTidy m → IsTidy n
Step-IsTidy (calls_send str n) h =
    send-IsTidy str n.socket.messages n.socket.closed n.socket.callback n.writes n.reads n.closes
      n.accepted n.delivered h
Step-IsTidy (calls_close n) h =
    close-IsTidy n.socket.messages n.socket.closed n.socket.callback n.writes n.reads n.closes
      n.accepted n.delivered h
Step-IsTidy (sets_callback n) h = unfold handle start_all in h
Step-IsTidy (wrote failed text rest n e) h =
    wrote-IsTidy failed text rest n.socket.messages n.socket.closed n.socket.callback n.writes
      n.reads n.closes n.accepted n.delivered e h
Step-IsTidy (has_read received rest n e) h =
    has_read-IsTidy received rest n.socket.messages n.socket.closed n.socket.callback n.writes
      n.reads n.closes n.accepted n.delivered e h

-- After an accept that nothing was sent before, and whatever the program and the peer do then: the
-- writes in progress are none if the queue is empty, and else one, of the first message; at most
-- one read is in progress; and the close handshake has been started at most once, and if so,
-- `closed` is set and no message is left.
pub Run-IsTidy : {n : Network} → Run opened n → IsTidy n
unfolding opened
Run-IsTidy here = (refl, omega arith, inl refl)
Run-IsTidy (then run step) = Step-IsTidy step (Run-IsTidy run)
