-- ===== src/Connection/Tests.antt =====
-- Runs of the write queue.
use snowcone.Prelude.{◌≡◌, refl, false, [], ◌++◌, codes}
use snowcone.Connection.{Network, initial, call_write, complete, Run, here, then, writes, succeeds}
use snowcone.Connection.Drain.{finish, Run-finish}
use snowcone.Connection.Queue.{Run-IsInOrder}

abbrev two_writes : Network
two_writes = call_write (codes "B") (call_write (codes "A") initial)

abbrev after_first : Network
after_first = complete false (codes "A") [] two_writes

two_writes-Run : Run initial two_writes
two_writes-Run =
    then (then here (writes (codes "A") initial))
      (writes (codes "B") (call_write (codes "A") initial))

Run-IsInOrder_example :
    (after_first.delivered ++ (after_first.connection.sending ++ after_first.connection.send)
      ≡ after_first.accepted)
    × (after_first.connection.sending ≡ [] → after_first.connection.send ≡ [])
unfolding call_write two_writes-Run
Run-IsInOrder_example =
    Run-IsInOrder (then two_writes-Run (succeeds (codes "A") [] two_writes refl))
      (((tt, tt), tt), tt)

Run-finish_example :
    let m = finish (finish two_writes) in
    Run two_writes m × (m.started ≡ []) × (m.delivered ≡ two_writes.accepted)
unfolding two_writes-Run
Run-finish_example = Run-finish two_writes-Run ((tt, tt), tt)
