-- ===== src/Timer/Tests.antt =====
-- Runs of the timer, with numbers for callbacks.
use snowcone.Prelude.{ℕ, ◌≡◌, refl, true, none, some, [], ◌∷◌}
use snowcone.Timer.{
  create, callback, nil, start, cancel, on_wait, run_queued, expire, Clock, fresh, Run, here, then,
  starts, expires, handles,
}
use snowcone.Timer.Calls.{IsSound, Run-IsSound, run_queued-expire}

abbrev started : Clock ℕ
started = record { timer = start 7 create; due = some 7; calls = [] }

abbrev expired : Clock ℕ
expired = record { timer = expire started.timer; due = some 7; calls = [] }

abbrev handled : Clock ℕ
handled = record {
  timer = (on_wait 0 expired.timer).0;
  due = none;
  calls = (on_wait 0 expired.timer).1 ∷ [];
}

handled-Run : Run fresh handled
unfolding start expire
handled-Run =
    then (then (then here (starts 7 fresh refl)) (expires started refl)) (handles 0 expired refl)

Run-IsSound_example : IsSound handled
Run-IsSound_example = Run-IsSound handled-Run

run_queued-expire_example :
    (run_queued (cancel expired.timer) ≡ some (create {C = ℕ}, nil))
    × (run_queued (start 8 expired.timer)
        ≡ some (record (create {C = ℕ}) { waiting = true }, callback 8))
    × (run_queued (expire (record (create {C = ℕ}) { waiting = true }))
        ≡ some (create {C = ℕ}, nil))
unfolding start expire
run_queued-expire_example = run_queued-expire 8 started.timer
