-- ===== src/Process.antt =====
-- The operation `async_exec` of client/process.cpp: `Exec`, `Exec::complete` and `initiation`. The
-- process and its pipes are in the environment, which completes the operations in any order.
pub mod Stages
mod Tests
use snowcone.Prelude.{
  ℕ, zero, suc, ◌+◌, ◌-◌, ◌≡◌, Bool, true, false, Option, none, some, List, [], ◌∷◌, ◌++◌, Bytes,
  ◌==◌, if◌then◌else◌,
}

-- The arguments of the handler. An exit code that was never set is `none`.
pub record Completed : Type 0 where
  pub error : Option ℕ
  pub exit_code : Option ℕ
  pub stdout_text : Bytes
  pub stderr_text : Bytes

-- `stage_` counts down to 0 and stays there: a count below 0 is never reached.
pub record Exec : Type 0 where
  pub stage : ℕ
  pub result : Completed
  pub calls : List Completed

unfoldable pub complete : Exec → Exec
complete e =
    if e.stage == 1
    then record e { stage = 0; calls = e.calls ++ e.result ∷ [] }
    else record e { stage = e.stage - 1 }

abbrev nothing : Completed
nothing = record { error = none; exit_code = none; stdout_text = []; stderr_text = [] }

abbrev pub create : Bool → Exec
create has_input = record { stage = if has_input then 4 else 3; result = nothing; calls = [] }

-- The file that is run, by the library's `has_parent_path` and `find_executable`.
unfoldable pub executable : (Bytes → Bool) → (Bytes → Bytes) → Bytes → Bytes
executable has_parent_path find_executable file =
    if has_parent_path file then file else find_executable file

-- The operation with what is in progress: the write to the input, the reads of both outputs, and
-- the wait for the end of the process.
pub record Running : Type 0 where
  pub exec : Exec
  pub writing : Bool
  pub reading_stdout : Bool
  pub reading_stderr : Bool
  pub waiting : Bool

-- `initiation`, where the start of the process may throw an error.
unfoldable pub initiation : Bool → Option ℕ → Running
unfolding complete
initiation has_input (some error) =
    let e : Exec = create has_input in
    record {
      exec = complete (record e { result = record e.result { error = some error }; stage = 1 });
      writing = false;
      reading_stdout = false;
      reading_stderr = false;
      waiting = false;
    }
initiation has_input none = record {
  exec = create has_input;
  writing = has_input;
  reading_stdout = true;
  reading_stderr = true;
  waiting = true;
}

-- The four completion handlers. The errors of the pipes are ignored.
unfoldable pub on_write : Running → Running
unfolding complete
on_write r = record r { exec = complete r.exec; writing = false }

abbrev with_result : Completed → Exec → Exec
with_result result e = record e { result = result }

unfoldable pub on_stdout : Bytes → Running → Running
unfolding complete
on_stdout text r = record r {
  exec = complete (with_result (record r.exec.result { stdout_text = text }) r.exec);
  reading_stdout = false;
}

unfoldable pub on_stderr : Bytes → Running → Running
unfolding complete
on_stderr text r = record r {
  exec = complete (with_result (record r.exec.result { stderr_text = text }) r.exec);
  reading_stderr = false;
}

unfoldable pub on_wait : Option ℕ → ℕ → Running → Running
unfolding complete
on_wait error code r = record r {
  exec =
      complete (with_result (record r.exec.result { error = error; exit_code = some code }) r.exec);
  waiting = false;
}

pub data Step : Running → Running → Type 0 where
  writes : (r : Running) → r.writing ≡ true → Step r (on_write r)
  reads_stdout : (text : Bytes) (r : Running) → r.reading_stdout ≡ true → Step r (on_stdout text r)
  reads_stderr : (text : Bytes) (r : Running) → r.reading_stderr ≡ true → Step r (on_stderr text r)
  exits :
      (error : Option ℕ) (code : ℕ) (r : Running) → r.waiting ≡ true → Step r (on_wait error code r)

pub data Run (from : Running) : Running → Type 0 where
  here : Run from from
  then : {q r : Running} → Run from q → Step q r → Run from r
