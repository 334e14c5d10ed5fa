-- ===== src/Connection/Drain.antt =====
-- What is written gets sent: the queue is empty after two completions.
use snowcone.Prelude.{
  ◌≡◌, refl, ◌∙◌, sym, ap, false, List, [], ◌∷◌, ◌++◌, append-nil, append_assoc, Bytes,
}
use snowcone.Connection.{Network, initial, complete, Run, here, then, succeeds}
use snowcone.Connection.Queue.{in_progress, Run-IsExclusive, AreSuccesses, Run-IsInOrder}

-- The first write that is in progress completes.
finish_first : List Bytes → Network → Network
finish_first [] n = n
finish_first (buffer ∷ rest) n = complete false buffer rest n

pub finish : Network → Network
unfolding finish_first
finish n = finish_first n.started n

finish_first-Run :
    (started : List Bytes) (n : Network) → n.started ≡ started → Run n (finish_first started n)
unfolding finish_first
finish_first-Run [] n e = here
finish_first-Run (buffer ∷ rest) n e = then here (succeeds buffer rest n e)

Run-append : {l m n : Network} → Run l m → Run m n → Run l n
Run-append r here = r
Run-append r (then s step) = then (Run-append r s) step

finish-Run : (n : Network) → Run n (finish n)
unfolding finish
finish-Run n = finish_first-Run n.started n refl

abbrev network :
    (sending send : Bytes) (started : List Bytes) (accepted delivered : Bytes) → Network
network sending send started accepted delivered = record {
  connection = record { sending = sending; send = send };
  started = started;
  accepted = accepted;
  delivered = delivered;
}

drained :
    (sending send : Bytes) (started : List Bytes) (accepted delivered : Bytes)
    → started ≡ in_progress sending
    → (sending ≡ [] → send ≡ [])
    → delivered ++ (sending ++ send) ≡ accepted
    → let m = finish (finish (network sending send started accepted delivered)) in
      (m.started ≡ []) × (m.delivered ≡ accepted)
unfolding finish complete
drained [] send started accepted delivered one prompt ledger =
    rw one
      (refl, sym (append-nil delivered) ∙ (ap (λ t. delivered ++ t) (sym (prompt refl)) ∙ ledger))
drained (x ∷ sending) [] started accepted delivered one prompt ledger =
    rw one (refl, ap (λ t. delivered ++ t) (sym (append-nil (x ∷ sending))) ∙ ledger)
drained (x ∷ sending) (y ∷ send) started accepted delivered one prompt ledger =
    rw one (refl, append_assoc delivered (x ∷ sending) (y ∷ send) ∙ ledger)

-- Whatever has been written and has completed without a failure before: once two more writes
-- complete, nothing is in progress, and all that was accepted has been delivered.
pub Run-finish :
    {n : Network} (run : Run initial n)
    → AreSuccesses run
    → let m = finish (finish n) in Run n m × (m.started ≡ []) × (m.delivered ≡ n.accepted)
Run-finish {n} run u =
    let (ledger, prompt) = Run-IsInOrder run u in
    let (done, sent) =
      drained n.connection.sending n.connection.send n.started n.accepted n.delivered
        (Run-IsExclusive run) prompt ledger in
    (Run-append (finish-Run n) (finish-Run (finish n)), done, sent)
