-- ===== src/Connection.antt =====
-- The write queue of client/net/connection.cpp: `write`, `write_actual` and the completion handler of
-- its `async_write`. A write that has been started refers to the buffer `sending_`.
pub mod Queue
pub mod Drain
mod Tests
use snowcone.Prelude.{
  if◌then◌else◌, ℕ, Bool, true, false, Option, none, some, List, [], ◌∷◌, ◌++◌, Bytes, ◌≡◌, ◌≢◌,
}

pub record Connection : Type 0 where
  pub sending : Bytes
  pub send : Bytes

abbrev pub create : Connection
create = record { sending = []; send = [] }

-- The new state, and the buffer of the `async_write` that is started.
abbrev pub Written : Type 0
Written = Connection × Option Bytes

unfoldable pub write_actual : Connection → Written
write_actual c = (record { sending = c.send; send = c.sending }, some c.send)

abbrev pub empty : Bytes → Bool
empty [] = true
empty (x ∷ s) = false

abbrev pub start_if_idle : Connection → Bytes → Written
start_if_idle c [] = write_actual c
start_if_idle c (x ∷ s) = (c, none)

unfoldable pub write : Bytes → Connection → Written
unfolding write_actual
write [] c = (c, none)
write (x ∷ cmd) c =
    let queued : Connection = record c { send = c.send ++ x ∷ cmd } in
    start_if_idle queued c.sending

abbrev pub continue_with : Connection → Bytes → Written
continue_with c [] = (c, none)
continue_with c (x ∷ s) = write_actual c

-- The completion handler of the write; the flag says that it failed.
unfoldable pub on_write : Bool → Connection → Written
unfolding write_actual
on_write failed c =
    let cleared : Connection = record c { sending = [] } in
    if◌then◌else◌ failed (cleared, none) (continue_with cleared c.send)

-- The connection in its network: the writes that have been started and not completed, all that was
-- handed to `write`, and all that completed writes have sent.
pub record Network : Type 0 where
  pub connection : Connection
  pub started : List Bytes
  pub accepted : Bytes
  pub delivered : Bytes

abbrev pub initial : Network
initial = record { connection = create; started = []; accepted = []; delivered = [] }

abbrev pub start : Option Bytes → List Bytes → List Bytes
start none started = started
start (some buffer) started = started ++ buffer ∷ []

-- A call of `write`, and a completion of the first write.
unfoldable pub call_write : Bytes → Network → Network
unfolding write
call_write cmd n =
    let (c, buffer) = write cmd n.connection in
    record {
      connection = c;
      started = start buffer n.started;
      accepted = n.accepted ++ cmd;
      delivered = n.delivered;
    }

unfoldable pub complete : Bool → Bytes → List Bytes → Network → Network
unfolding on_write
complete failed buffer rest n =
    let (c, next) = on_write failed n.connection in
    record {
      connection = c;
      started = start next rest;
      accepted = n.accepted;
      delivered = n.delivered ++ if◌then◌else◌ failed [] buffer;
    }

-- The program writes when it likes, and a write that has been started completes some time.
pub data Step : Network → Network → Type 0 where
  writes : (cmd : Bytes) (n : Network) → Step n (call_write cmd n)
  succeeds :
      (buffer : Bytes) (rest : List Bytes) (n : Network)
      → n.started ≡ buffer ∷ rest
      → Step n (complete false buffer rest n)
  fails :
      (buffer : Bytes) (rest : List Bytes) (n : Network)
      → n.started ≡ buffer ∷ rest
      → Step n (complete true buffer rest n)

pub data Run (from : Network) : Network → Type 0 where
  here : Run from from
  then : {m n : Network} → Run from m → Step m n → Run from n
