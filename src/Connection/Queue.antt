-- ===== src/Connection/Queue.antt =====
-- One write at a time, and no byte lost, repeated or moved.
use snowcone.Prelude.{
  ◌≡◌, refl, sym, ap, ◌∙◌, Bool, true, false, List, [], ◌∷◌, ◌++◌, append_assoc, append-nil, Bytes,
}
use snowcone.Connection.{
  Connection, write, on_write, Network, initial, call_write, complete, Step, writes, succeeds,
  fails, Run, here, then, start,
}

-- The write that is in progress, as `sending_` tells.
abbrev pub in_progress : Bytes → List Bytes
in_progress [] = []
in_progress (x ∷ s) = (x ∷ s) ∷ []

abbrev pub IsExclusive : Network → Type 0
IsExclusive n = n.started ≡ in_progress n.connection.sending

-- When nothing is in progress, nothing waits.
abbrev pub IsPrompt : Connection → Type 0
IsPrompt c = c.sending ≡ [] → c.send ≡ []

abbrev queued : Connection → Bytes
queued c = c.sending ++ c.send

abbrev connection : Bytes → Bytes → Connection
connection sending send = record { sending = sending; send = send }

write-started :
    (cmd sending send : Bytes)
    → let (c, buffer) = write cmd (connection sending send) in
      start buffer (in_progress sending) ≡ in_progress c.sending
unfolding write
write-started [] sending send = refl
write-started (x ∷ cmd) [] [] = refl
write-started (x ∷ cmd) [] (y ∷ send) = refl
write-started (x ∷ cmd) (y ∷ sending) send = refl

write-queued :
    (cmd sending send : Bytes)
    → queued (write cmd (connection sending send)).0 ≡ (sending ++ send) ++ cmd
unfolding write
write-queued [] sending send = sym (append-nil (sending ++ send))
write-queued (x ∷ cmd) [] send = append-nil (send ++ x ∷ cmd)
write-queued (x ∷ cmd) (y ∷ sending) send =
    ap (λ t. y ∷ t) (sym (append_assoc sending send (x ∷ cmd)))

write-IsPrompt :
    (cmd sending send : Bytes)
    → IsPrompt (connection sending send)
    → IsPrompt (write cmd (connection sending send)).0
unfolding write
write-IsPrompt [] sending send h e = h e
write-IsPrompt (x ∷ cmd) [] send h e = refl
write-IsPrompt (x ∷ cmd) (y ∷ sending) send h e = cc

on_write-started :
    (failed : Bool) (sending send : Bytes)
    → let (c, buffer) = on_write failed (connection sending send) in
      start buffer [] ≡ in_progress c.sending
unfolding on_write
on_write-started true sending send = refl
on_write-started false sending [] = refl
on_write-started false sending (x ∷ send) = refl

on_write-queued :
    (sending send : Bytes) → queued (on_write false (connection sending send)).0 ≡ send
unfolding on_write
on_write-queued sending [] = refl
on_write-queued sending (x ∷ send) = append-nil (x ∷ send)

on_write-IsPrompt : (sending send : Bytes) → IsPrompt (on_write false (connection sending send)).0
unfolding on_write
on_write-IsPrompt sending [] e = refl
on_write-IsPrompt sending (x ∷ send) e = refl

in_progress-eq :
    (sending buffer : Bytes) (rest : List Bytes)
    → in_progress sending ≡ buffer ∷ rest
    → (buffer ≡ sending) × (rest ≡ [])
in_progress-eq [] buffer rest h = cc
in_progress-eq (x ∷ s) buffer rest h = (cc, cc)

complete-IsExclusive :
    (failed : Bool) (buffer : Bytes) (rest : List Bytes) (n : Network)
    → IsExclusive n
    → n.started ≡ buffer ∷ rest
    → IsExclusive (complete failed buffer rest n)
unfolding complete
complete-IsExclusive failed buffer rest n h e =
    let (same, only) = in_progress-eq n.connection.sending buffer rest (sym h ∙ e) in
    rw only (on_write-started failed n.connection.sending n.connection.send)

Step-IsExclusive : {m n : Network} → Step m n → IsExclusive m → IsExclusive n
unfolding call_write
Step-IsExclusive (writes cmd n) h =
    ap (λ t. start (write cmd n.connection).1 t) h
    ∙ write-started cmd n.connection.sending n.connection.send
Step-IsExclusive (succeeds buffer rest n e) h = complete-IsExclusive false buffer rest n h e
Step-IsExclusive (fails buffer rest n e) h = complete-IsExclusive true buffer rest n h e

-- Whatever is written, completes or fails in whatever order: the writes that are in progress are
-- none if `sending_` is empty, and else one, whose buffer is `sending_` unchanged.
pub Run-IsExclusive : {n : Network} → Run initial n → IsExclusive n
Run-IsExclusive here = refl
Run-IsExclusive (then run step) = Step-IsExclusive step (Run-IsExclusive run)

-- No write has failed.
abbrev pub IsSuccess : {m n : Network} → Step m n → Type 0
IsSuccess (writes cmd n) = Unit
IsSuccess (succeeds buffer rest n e) = Unit
IsSuccess (fails buffer rest n e) = ⊥

abbrev pub AreSuccesses : {m n : Network} → Run m n → Type 0
AreSuccesses here = Unit
AreSuccesses (then run step) = AreSuccesses run × IsSuccess step

-- All that was accepted is delivered, in progress or waiting, in this order.
abbrev IsInOrder : Network → Type 0
IsInOrder n = n.delivered ++ queued n.connection ≡ n.accepted

Step-IsInOrder :
    {m n : Network} (step : Step m n)
    → IsSuccess step
    → IsExclusive m
    → IsInOrder m × IsPrompt m.connection
    → IsInOrder n × IsPrompt n.connection
unfolding call_write complete
Step-IsInOrder (writes cmd n) u x (ledger, prompt) = (
  ap (λ t. n.delivered ++ t) (write-queued cmd n.connection.sending n.connection.send)
      ∙ (sym (append_assoc n.delivered (queued n.connection) cmd) ∙ ap (λ t. t ++ cmd) ledger),
  write-IsPrompt cmd n.connection.sending n.connection.send prompt,
)
Step-IsInOrder (succeeds buffer rest n e) u x (ledger, prompt) =
    let (same, only) = in_progress-eq n.connection.sending buffer rest (sym x ∙ e) in
    (
      rw same (
          ap (λ t. (n.delivered ++ n.connection.sending) ++ t)
            (on_write-queued n.connection.sending n.connection.send)
          ∙ append_assoc n.delivered n.connection.sending n.connection.send
          ∙ ledger),
      on_write-IsPrompt n.connection.sending n.connection.send,
    )
Step-IsInOrder (fails buffer rest n e) u x (ledger, prompt) = absurd u

-- As long as no write fails, what has been accepted is what has been delivered, then the write in
-- progress, then what waits for it; and something waits only while a write is in progress.
pub Run-IsInOrder :
    {n : Network} (run : Run initial n)
    → AreSuccesses run
    → (n.delivered ++ (n.connection.sending ++ n.connection.send) ≡ n.accepted)
      × (n.connection.sending ≡ [] → n.connection.send ≡ [])
Run-IsInOrder here u = (refl, λ e. refl)
Run-IsInOrder (then run step) (us, u) =
    Step-IsInOrder step u (Run-IsExclusive run) (Run-IsInOrder run us)
