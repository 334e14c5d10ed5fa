-- ===== src/Process/Tests.antt =====
-- Runs of the subprocess.
use snowcone.Prelude.{◌≡◌, refl, false, none, some, [], ◌∷◌, codes}
use snowcone.Process.{
  Running, initiation, on_stdout, on_stderr, on_wait, Run, here, then, reads_stdout, reads_stderr,
  exits,
}
use snowcone.Process.Stages.{IsStaged, Run-IsStaged}

abbrev started : Running
started = initiation false none

abbrev exited : Running
exited = on_wait none 1 started

abbrev heard : Running
heard = on_stderr (codes "no") exited

abbrev ended : Running
ended = on_stdout [] heard

exited-Run : Run started exited
unfolding initiation
exited-Run = then here (exits none 1 started refl)

ended-Run : Run started ended
unfolding initiation on_wait on_stderr
ended-Run =
    then (then exited-Run (reads_stderr (codes "no") exited refl)) (reads_stdout [] heard refl)

ended-calls :
    ended.exec.calls
    ≡ record { error = none; exit_code = some 1; stdout_text = []; stderr_text = codes "no" } ∷ []
unfolding initiation on_wait on_stderr on_stdout
ended-calls = refl

Run-IsStaged_example : IsStaged ended
Run-IsStaged_example = Run-IsStaged false none ended-Run
