-- ===== src/Process/Stages.antt =====
-- The handler is called once, by whichever operation completes last.
use snowcone.Prelude.{
  ℕ, zero, suc, ◌+◌, ◌-◌, ◌≡◌, refl, sym, ap, ◌∙◌, Bool, true, false, Option, none, some, List, [],
  ◌∷◌, ◌==◌, arith,
}
use snowcone.Process.{
  Completed, Exec, complete, Running, initiation, on_write, on_stdout, on_stderr, on_wait, Step,
  writes, reads_stdout, reads_stderr, exits, Run, here, then,
}

abbrev pub bit : Bool → ℕ
bit true = 1
bit false = 0

-- How many operations are in progress.
abbrev pub in_progress : Running → ℕ
in_progress r = bit r.writing + (bit r.reading_stdout + (bit r.reading_stderr + bit r.waiting))

-- The calls of the handler: none before the last operation is done, and then one with the result.
abbrev pub calls_for : ℕ → Completed → List Completed
calls_for zero result = result ∷ []
calls_for (suc n) result = []

abbrev pub IsStaged : Running → Type 0
IsStaged r =
    (r.exec.stage ≡ in_progress r) × (r.exec.calls ≡ calls_for (in_progress r) r.exec.result)

-- One operation less, whatever it has done to the result.
complete-calls :
    (stage : ℕ) (result : Completed) (calls : List Completed) (n : ℕ)
    → stage ≡ suc n
    → calls ≡ []
    → let e = complete (record { stage = stage; result = result; calls = calls }) in
      (e.stage ≡ n) × (e.calls ≡ calls_for n result) × (e.result ≡ result)
unfolding complete
complete-calls stage result calls zero s c = rw (s, c) (refl, refl, refl)
complete-calls stage result calls (suc n) s c =
    let more : (suc (suc n) == 1) ≡ false = ground arith in
    let left : suc (suc n) - 1 ≡ suc n = omega arith in rw (s, more) (left, c, refl)

complete-IsStaged :
    (e : Exec) (result : Completed) (m n : ℕ)
    → m ≡ suc n
    → (e.stage ≡ m) × (e.calls ≡ calls_for m e.result)
    → let c = complete (record e { result = result }) in
      (c.stage ≡ n) × (c.calls ≡ calls_for n c.result)
complete-IsStaged e result m n p (stage, calls) =
    let none_yet : e.calls ≡ [] = calls ∙ ap (λ k. calls_for k e.result) p in
    let (s, c, same) = complete-calls e.stage result e.calls n (stage ∙ p) none_yet in
    (s, c ∙ ap (λ t. calls_for n t) (sym same))

Step-in_progress : {q r : Running} → Step q r → in_progress q ≡ suc (in_progress r)
unfolding on_write on_stdout on_stderr on_wait
Step-in_progress (writes r e) = omega (arith, ap bit e)
Step-in_progress (reads_stdout text r e) = omega (arith, ap bit e)
Step-in_progress (reads_stderr text r e) = omega (arith, ap bit e)
Step-in_progress (exits error code r e) = omega (arith, ap bit e)

Step-IsStaged : {q r : Running} → Step q r → IsStaged q → IsStaged r
unfolding on_write on_stdout on_stderr on_wait
Step-IsStaged (writes r e) h =
    complete-IsStaged r.exec r.exec.result (in_progress r) (in_progress (on_write r))
      (Step-in_progress (writes r e)) h
Step-IsStaged (reads_stdout text r e) h =
    complete-IsStaged r.exec (record r.exec.result { stdout_text = text }) (in_progress r)
      (in_progress (on_stdout text r)) (Step-in_progress (reads_stdout text r e)) h
Step-IsStaged (reads_stderr text r e) h =
    complete-IsStaged r.exec (record r.exec.result { stderr_text = text }) (in_progress r)
      (in_progress (on_stderr text r)) (Step-in_progress (reads_stderr text r e)) h
Step-IsStaged (exits error code r e) h =
    complete-IsStaged r.exec (record r.exec.result { error = error; exit_code = some code })
      (in_progress r) (in_progress (on_wait error code r)) (Step-in_progress (exits error code r e))
      h

initiation-IsStaged :
    (has_input : Bool) (failed : Option ℕ) → IsStaged (initiation has_input failed)
unfolding initiation
initiation-IsStaged true (some error) = (refl, refl)
initiation-IsStaged false (some error) = (refl, refl)
initiation-IsStaged true none = (refl, refl)
initiation-IsStaged false none = (refl, refl)

-- In whatever order the operations complete, with or without input, and whether the process
-- starts or not: `stage_` is the number of operations in progress; the handler has not been
-- called while there is one, and has been called once, with the final result, when there is none.
pub Run-IsStaged :
    (has_input : Bool) (failed : Option ℕ) {r : Running}
    → Run (initiation has_input failed) r
    → IsStaged r
Run-IsStaged has_input failed here = initiation-IsStaged has_input failed
Run-IsStaged has_input failed (then run step) =
    Step-IsStaged step (Run-IsStaged has_input failed run)

abbrev pub steps : {q r : Running} → Run q r → ℕ
steps here = 0
steps (then run step) = suc (steps run)

-- Each operation completes once: a run that has made as many steps as there were operations in
-- progress has none left, and no run is longer.
pub steps-in_progress : {q r : Running} (run : Run q r) → steps run + in_progress r ≡ in_progress q
steps-in_progress here = omega arith
steps-in_progress (then run step) = omega (arith, steps-in_progress run, Step-in_progress step)
