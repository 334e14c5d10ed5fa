-- ===== src/Socks5.antt =====
-- mysocks5/include/socks5.hpp and mysocks5/socks5.cpp: the operation `async_connect` as the state
-- machine of `SocksImplementation`. A step returns what it asks for: a write of the buffer, a read
-- into the buffer, or the completion.
mod Errc
pub mod Server
pub mod Completes
pub mod Dialog
pub mod Leads
pub mod Accepted
pub mod Disclosure
mod Tests
pub use Errc.*
unfoldable pub use Errc.{message}
use snowcone.Socks5.Errc.{
  SocksErrc, succeeded, general_failure, wrong_version, no_acceptable_methods,
  authentication_failed, unsupported_endpoint_address, domain_too_long, username_too_long,
  password_too_long,
}
use snowcone.Prelude.{
  ℕ, ◌/◌, ◌%◌, ◌+◌, ◌*◌, Bool, true, false, not, ◌&&◌, Option, none, some, List, [], ◌∷◌, ◌++◌,
  Bytes, ◌==◌, ltb, leb, if◌then◌else◌, get_or, take, drop, length,
}

-- An address is its bytes, as `to_bytes` gives them.
pub data Host : Type 0 where
  hostname : Bytes → Host
  ipv4 : Bytes → Host
  ipv6 : Bytes → Host

pub data Auth : Type 0 where
  no_credential : Auth
  username_password : Bytes → Bytes → Auth

pub record Socks : Type 0 where
  pub host : Host
  pub port : ℕ
  pub auth : Auth

-- The states in which bytes have been read into the buffer.
pub data Received : Type 0 where
  hello_recvd auth_recvd reply_recvd finish_ipv4 finish_ipv6 : Received

pub data State : Type 0 where
  start : State
  sent : Received → State
  received : Received → State

-- The members `READ`.
abbrev pub read_size : Received → ℕ
read_size hello_recvd = 2
read_size auth_recvd = 2
read_size reply_recvd = 4
read_size finish_ipv4 = 6
read_size finish_ipv6 = 18

-- An error code with its category: this library's, or the network's.
pub data ErrorCode : Type 0 where
  socks_error : SocksErrc → ErrorCode
  network_error : ℕ → ErrorCode

pub data Action : Type 0 where
  write : Bytes → State → Action
  read : ℕ → State → Action
  fail : ErrorCode → Action
  connected : Bytes → ℕ → Action

abbrev pub failure : SocksErrc → Action
failure err = fail (socks_error err)

-- `transact<Next>` writes the buffer and reads next.
abbrev pub transact : Bytes → Received → Action
transact buffer next = write buffer (sent next)

-- `push_back` of a size keeps its low byte.
unfoldable pub push_size_prefixed : Bytes → Bytes → Bytes
push_size_prefixed buffer thing = buffer ++ (length thing % 256 ∷ thing)

unfoldable pub push_host : Host → Bytes → Bytes
unfolding push_size_prefixed
push_host (hostname name) buffer = push_size_prefixed (buffer ++ 3 ∷ []) name
push_host (ipv4 address) buffer = push_size_prefixed (buffer ++ 1 ∷ []) address
push_host (ipv6 address) buffer = push_size_prefixed (buffer ++ 4 ∷ []) address

-- `port_` is a big-endian 16-bit integer.
unfoldable pub push_port : ℕ → Bytes → Bytes
push_port port buffer = buffer ++ (port / 256 % 256 ∷ port % 256 ∷ [])

abbrev pub socks_version_tag : ℕ
socks_version_tag = 5

abbrev pub auth_version_tag : ℕ
auth_version_tag = 1

abbrev pub method_wanted : Auth → ℕ
method_wanted no_credential = 0
method_wanted (username_password name password) = 2

unfoldable pub send_connect : Socks → Action
unfolding push_host push_port
send_connect s =
    transact (push_port s.port (push_host s.host (socks_version_tag ∷ 1 ∷ 0 ∷ []))) reply_recvd

-- `send_usernamepassword`, on the credentials that `auth_` holds.
unfoldable pub send_usernamepassword : Bytes → Bytes → Action
unfolding push_size_prefixed
send_usernamepassword username password =
    transact (push_size_prefixed (push_size_prefixed (auth_version_tag ∷ []) username) password)
      auth_recvd

-- The checks of the first step, each with the error that it reports.
abbrev pub host_check : Host → Action → Action
host_check (hostname name) next = if leb 256 (length name) then failure domain_too_long else next
host_check (ipv4 address) next = next
host_check (ipv6 address) next = next

abbrev pub auth_check : Auth → Action → Action
auth_check no_credential next = next
auth_check (username_password username password) next =
    if leb 256 (length username)
    then failure username_too_long
    else if leb 256 (length password)
    then failure password_too_long
    else next

unfoldable pub step_start : Socks → Action
step_start s =
    host_check s.host
      (auth_check s.auth (transact (socks_version_tag ∷ 1 ∷ method_wanted s.auth ∷ []) hello_recvd))

-- What follows if the server selected the wanted method.
abbrev pub after_hello : Socks → Auth → Action
after_hello s no_credential = send_connect s
after_hello s (username_password username password) = send_usernamepassword username password

unfoldable pub step_hello : Socks → Bytes → Action
unfolding send_connect send_usernamepassword
step_hello s buffer =
    if not (get_or buffer 0 0 == socks_version_tag)
    then failure wrong_version
    else if method_wanted s.auth == get_or buffer 1 0
    then after_hello s s.auth
    else failure no_acceptable_methods

unfoldable pub step_auth : Socks → Bytes → Action
unfolding send_connect
step_auth s buffer =
    if not (get_or buffer 0 0 == auth_version_tag)
    then failure wrong_version
    else if not (get_or buffer 1 0 == 0)
    then failure authentication_failed
    else send_connect s

-- An address of a known type is read without another write.
unfoldable pub step_reply : Bytes → Action
step_reply buffer =
    if not (get_or buffer 0 0 == socks_version_tag)
    then failure wrong_version
    else if not (get_or buffer 1 0 == succeeded)
    then failure (get_or buffer 1 0)
    else if not (get_or buffer 2 0 == 0)
    then failure general_failure
    else if get_or buffer 3 0 == 1
    then read (read_size finish_ipv4) (received finish_ipv4)
    else if get_or buffer 3 0 == 4
    then read (read_size finish_ipv6) (received finish_ipv6)
    else failure unsupported_endpoint_address

-- The address, and the big-endian port behind it.
unfoldable pub finish : ℕ → Bytes → Action
finish size buffer =
    connected (take size buffer) (get_or buffer size 0 * 256 + get_or buffer (size + 1) 0)

unfoldable pub step : Socks → State → Bytes → Action
unfolding step_start step_hello step_auth step_reply finish
step s start buffer = step_start s
step s (sent next) buffer = read (read_size next) (received next)
step s (received hello_recvd) buffer = step_hello s buffer
step s (received auth_recvd) buffer = step_auth s buffer
step s (received reply_recvd) buffer = step_reply buffer
step s (received finish_ipv4) buffer = finish 4 buffer
step s (received finish_ipv6) buffer = finish 16 buffer

-- `operator()`: the completion handler of every read and write.
unfoldable pub resume : Socks → State → Option ℕ → Bytes → Action
unfolding step
resume s state (some error) buffer = fail (network_error error)
resume s state none buffer = step s state buffer

-- How the operation ends. `pending` waits for a read or write that has not completed.
pub data Outcome : Type 0 where
  pending : Outcome
  failed : ErrorCode → Outcome
  endpoint : Bytes → ℕ → Outcome

-- What `async_read` reports at the end of the stream.
abbrev pub eof : ℕ
eof = 2

-- The network: how the reads and writes complete, one after another, and the bytes that the server
-- sends. A read of `n` bytes succeeds with `n` of them, and fails if the stream ends before.
abbrev pub read_error : Option ℕ → ℕ → Bytes → Option ℕ
read_error (some error) n input = some error
read_error none n input = if ltb (length input) n then some eof else none

-- The bytes of the writes that succeeded.
abbrev pub written : Option ℕ → Bytes → Bytes → Bytes
written none bytes more = bytes ++ more
written (some error) bytes more = more

unfoldable pub run : Socks → Action → List (Option ℕ) → Bytes → Bytes × Outcome
unfolding resume
run s (fail error) completions input = ([], failed error)
run s (connected address port) completions input = ([], endpoint address port)
run s (write bytes next) [] input = ([], pending)
run s (read n next) [] input = ([], pending)
run s (write bytes next) (c ∷ completions) input =
    let (more, outcome) = run s (resume s next c bytes) completions input in
    (written c bytes more, outcome)
run s (read n next) (c ∷ completions) input =
    run s (resume s next (read_error c n input) (take n input)) completions (drop n input)

-- `async_connect`
unfoldable pub async_connect : Socks → List (Option ℕ) → Bytes → Bytes × Outcome
unfolding run
async_connect s completions input = run s (resume s start none []) completions input
