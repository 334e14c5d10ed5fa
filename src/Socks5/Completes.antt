-- ===== src/Socks5/Completes.antt =====
-- The operation ends: the reads and writes that each state can still ask for.
use snowcone.Prelude.{
  ℕ, suc, ◌≤◌, ◌≢◌, Option, none, some, List, [], ◌∷◌, arith, Bytes, length, take, drop,
}
use snowcone.Socks5.{
  Host, hostname, ipv4, ipv6, Auth, no_credential, username_password, Socks, Action, write, read,
  fail, connected, Received, hello_recvd, auth_recvd, reply_recvd, finish_ipv4, finish_ipv6, State,
  start, sent, received, step_start, step_hello, send_connect, send_usernamepassword, step, resume,
  run, async_connect, method_wanted, pending, read_error, host_check, auth_check, after_hello,
  transact,
}

-- How many more reads and writes an action can wait for.
abbrev reads_left : Received → ℕ
reads_left hello_recvd = 5
reads_left auth_recvd = 3
reads_left reply_recvd = 1
reads_left finish_ipv4 = 0
reads_left finish_ipv6 = 0

abbrev state_rank : State → ℕ
state_rank start = 7
state_rank (sent next) = suc (reads_left next)
state_rank (received next) = reads_left next

abbrev rank : Action → ℕ
rank (write bytes next) = suc (state_rank next)
rank (read n next) = suc (state_rank next)
rank (fail error) = 0
rank (connected address port) = 0

host_check-rank : (host : Host) (next : Action) → rank (host_check host next) ≤ rank next
host_check-rank (hostname name) next = ground arith
host_check-rank (ipv4 address) next = ground arith
host_check-rank (ipv6 address) next = ground arith

auth_check-rank : (auth : Auth) (next : Action) → rank (auth_check auth next) ≤ rank next
auth_check-rank no_credential next = ground arith
auth_check-rank (username_password name password) next = ground arith

after_hello-rank : (s : Socks) (auth : Auth) → rank (after_hello s auth) ≤ 5
unfolding send_connect send_usernamepassword
after_hello-rank s no_credential = ground arith
after_hello-rank s (username_password name password) = ground arith

step_start-rank : (s : Socks) → rank (step_start s) ≤ 7
unfolding step_start
step_start-rank s =
    let hello : Action = transact (5 ∷ 1 ∷ method_wanted s.auth ∷ []) hello_recvd in
    omega (arith, host_check-rank s.host (auth_check s.auth hello), auth_check-rank s.auth hello)

step_hello-rank : (s : Socks) (buffer : Bytes) → rank (step_hello s buffer) ≤ 5
unfolding step_hello
step_hello-rank s buffer = ground (arith, after_hello-rank s s.auth)

step-rank :
    (s : Socks) (state : State) (buffer : Bytes) → rank (step s state buffer) ≤ state_rank state
unfolding step send_connect
step-rank s start buffer = step_start-rank s
step-rank s (sent next) buffer = ground arith
step-rank s (received hello_recvd) buffer = step_hello-rank s buffer
step-rank s (received auth_recvd) buffer = ground arith
step-rank s (received reply_recvd) buffer = ground arith
step-rank s (received finish_ipv4) buffer = ground arith
step-rank s (received finish_ipv6) buffer = ground arith

resume-rank :
    (s : Socks) (state : State) (c : Option ℕ) (buffer : Bytes)
    → rank (resume s state c buffer) ≤ state_rank state
unfolding resume
resume-rank s state none buffer = step-rank s state buffer
resume-rank s state (some error) buffer = ground arith

run-ne-pending :
    (s : Socks) (a : Action) (completions : List (Option ℕ)) (input : Bytes)
    → rank a ≤ length completions
    → (run s a completions input).1 ≢ pending
unfolding run
run-ne-pending s (fail error) cs input h = cc
run-ne-pending s (connected address port) cs input h = cc
run-ne-pending s (write bytes next) [] input h = absurd (omega arith)
run-ne-pending s (read n next) [] input h = absurd (omega arith)
run-ne-pending s (write bytes next) (c ∷ cs) input h =
    run-ne-pending s (resume s next c bytes) cs input (omega (arith, resume-rank s next c bytes))
run-ne-pending s (read n next) (c ∷ cs) input h =
    run-ne-pending s (resume s next (read_error c n input) (take n input)) cs (drop n input)
      (omega (arith, resume-rank s next (read_error c n input) (take n input)))

-- The operation completes: it waits for at most seven reads and writes.
pub async_connect-ne-pending :
    (s : Socks) (completions : List (Option ℕ)) (input : Bytes)
    → 7 ≤ length completions
    → (async_connect s completions input).1 ≢ pending
unfolding async_connect
async_connect-ne-pending s cs input h =
    run-ne-pending s (resume s start none []) cs input (omega (arith, resume-rank s start none []))
