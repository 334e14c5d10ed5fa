-- ===== src/Socks5/Server.antt =====
-- The server's side of the messages, as RFC 1928 and RFC 1929 lay them out. The comments of
-- mysocks5/include/socks5.hpp draw the same diagrams.
use snowcone.Prelude.{
  ℕ, ◌+◌, ◌*◌, ◌/◌, ◌%◌, ◌<◌, ◌≡◌, refl, sym, ap, ◌∙◌, ◌⊎◌, inl, inr, false, Option, none, some, [],
  ◌∷◌, ◌++◌, append-nil, arith, Bytes, ◌==◌, ltb, if◌then◌else◌, length, length-append, take, drop,
  length-drop, take_front, drop_front,
}
use snowcone.Socks5.{
  Host, hostname, ipv4, ipv6, username_password, Socks, Action, write, read, fail, connected,
  push_size_prefixed, push_host, push_port, send_connect, send_usernamepassword, step_start,
  transact, host_check, auth_check, method_wanted, hello_recvd, State,
}

-- `n` bytes from the front.
abbrev pub split_at : ℕ → Bytes → Option (Bytes × Bytes)
split_at n s = if ltb (length s) n then none else some (take n s, drop n s)

abbrev pub read_prefixed : Bytes → Option (Bytes × Bytes)
read_prefixed [] = none
read_prefixed (n ∷ s) = split_at n s

-- VER, ULEN, UNAME, PLEN, PASSWD
abbrev pub read_password : Bytes → Option (Bytes × Bytes) → Option (Bytes × Bytes)
read_password name none = none
read_password name (some (password, [])) = some (name, password)
read_password name (some (password, x ∷ rest)) = none

abbrev pub read_name : Option (Bytes × Bytes) → Option (Bytes × Bytes)
read_name none = none
read_name (some (name, rest)) = read_password name (read_prefixed rest)

unfoldable pub read_credentials : Bytes → Option (Bytes × Bytes)
read_credentials [] = none
read_credentials (version ∷ s) = if version == 1 then read_name (read_prefixed s) else none

-- DST.PORT, at the end of the request
abbrev pub read_port : Host → Bytes → Option (Host × ℕ)
read_port host (high ∷ low ∷ []) = some (host, high * 256 + low)
read_port host [] = none
read_port host (x ∷ []) = none
read_port host (x ∷ y ∷ z ∷ s) = none

abbrev pub read_rest : (Bytes → Host) → Option (Bytes × Bytes) → Option (Host × ℕ)
read_rest host none = none
read_rest host (some (address, rest)) = read_port (host address) rest

-- ATYP, DST.ADDR, DST.PORT
abbrev pub read_target : Bytes → Option (Host × ℕ)
read_target [] = none
read_target (kind ∷ s) =
    if kind == 1
    then read_rest ipv4 (split_at 4 s)
    else if kind == 3
    then read_rest hostname (read_prefixed s)
    else if kind == 4
    then read_rest ipv6 (split_at 16 s)
    else none

-- VER, CMD, RSV and the target
unfoldable pub read_request : Bytes → Option (Host × ℕ)
read_request (version ∷ command ∷ reserved ∷ s) =
    if version == 5
    then if command == 1 then if reserved == 0 then read_target s else none else none
    else none
read_request [] = none
read_request (x ∷ []) = none
read_request (x ∷ y ∷ []) = none

-- What an action writes.
abbrev pub bytes_of : Action → Bytes
bytes_of (write bytes next) = bytes
bytes_of (read n next) = []
bytes_of (fail error) = []
bytes_of (connected address port) = []

split_at-append : (s t : Bytes) → split_at (length s) (s ++ t) ≡ some (s, t)
split_at-append s t =
    let fits : ltb (length (s ++ t)) (length s) ≡ false = ground (arith, length-append s t) in
    rw (fits, take_front s t, drop_front s t)

abbrev hello : Socks → Action
hello s = transact (5 ∷ 1 ∷ method_wanted s.auth ∷ []) hello_recvd

-- The first step goes on to the hello message.
abbrev pub Starts : Socks → Type 0
Starts s = step_start s ≡ hello s

host_check-write :
    (host : Host) (next : Action) (bytes : Bytes) (state : State)
    → host_check host next ≡ write bytes state
    → next ≡ write bytes state
host_check-write (hostname name) next bytes state h = ground arith
host_check-write (ipv4 address) next bytes state h = h
host_check-write (ipv6 address) next bytes state h = h

host_check-length :
    (name : Bytes) (next : Action) (bytes : Bytes) (state : State)
    → host_check (hostname name) next ≡ write bytes state
    → length name < 256
host_check-length name next bytes state h = ground arith

auth_check-length :
    (name password : Bytes) (next : Action) (bytes : Bytes) (state : State)
    → auth_check (username_password name password) next ≡ write bytes state
    → (length name < 256) × (length password < 256)
auth_check-length name password next bytes state h = ground arith

Starts-credentials :
    (s : Socks) (name password : Bytes)
    → s.auth ≡ username_password name password
    → Starts s
    → (length name < 256) × (length password < 256)
unfolding step_start
Starts-credentials s name password e h =
    auth_check-length name password (hello s) _ _
      (ap (λ auth. auth_check auth (hello s)) (sym e) ∙ host_check-write s.host _ _ _ h)

Starts-hostname : (s : Socks) (name : Bytes) → s.host ≡ hostname name → Starts s → length name < 256
unfolding step_start
Starts-hostname s name e h =
    host_check-length name (auth_check s.auth (hello s)) _ _
      (ap (λ host. host_check host (auth_check s.auth (hello s))) (sym e) ∙ h)

-- A size that fits is read back as it is.
read_prefixed_pushed :
    (s t : Bytes) → length s < 256 → read_prefixed (length s % 256 ∷ (s ++ t)) ≡ some (s, t)
read_prefixed_pushed s t h =
    let size : length s % 256 ≡ length s = omega arith in rw size (split_at-append s t)

-- A server reads the credentials that the client was given, if the first step accepted them.
pub read_credentials_sent :
    (s : Socks) (name password : Bytes)
    → s.auth ≡ username_password name password
    → Starts s
    → read_credentials (bytes_of (send_usernamepassword name password)) ≡ some (name, password)
unfolding read_credentials send_usernamepassword push_size_prefixed
read_credentials_sent s name password e h =
    let (name_fits, password_fits) = Starts-credentials s name password e h in
    rw (read_prefixed_pushed name (length password % 256 ∷ password) name_fits) (
      let last : read_prefixed (length password % 256 ∷ password) ≡ some (password, []) =
        ap (λ t. read_prefixed (length password % 256 ∷ t)) (sym (append-nil password))
        ∙ read_prefixed_pushed password [] password_fits in
      rw last refl)

-- A server reads the host name and the port that the client was given.
pub read_request_sent :
    (s : Socks) (name : Bytes)
    → s.host ≡ hostname name
    → s.port < 65536
    → Starts s
    → read_request (bytes_of (send_connect s)) ≡ some (hostname name, s.port)
unfolding read_request send_connect push_host push_port push_size_prefixed
read_request_sent s name e p h =
    let fits = Starts-hostname s name e h in
    let port : s.port / 256 % 256 * 256 + s.port % 256 ≡ s.port = omega arith in
    rw e (rw (read_prefixed_pushed name (s.port / 256 % 256 ∷ s.port % 256 ∷ []) fits, port) refl)

read_port_long : (host : Host) (s : Bytes) → length s ≡ 3 → read_port host s ≡ none
read_port_long host (x ∷ y ∷ z ∷ s) h = refl
read_port_long host [] h = absurd (omega arith)
read_port_long host (x ∷ []) h = absurd (omega arith)
read_port_long host (x ∷ y ∷ []) h = absurd (omega arith)

read_rest_long :
    (host : Bytes → Host) (n : ℕ) (s : Bytes)
    → length s ≡ n + 3
    → read_rest host (split_at n s) ≡ none
read_rest_long host n s h =
    let enough : ltb (length s) n ≡ false = ground arith in
    rw enough (read_port_long (host (take n s)) (drop n s) (omega (arith, length-drop n s)))

-- The request for an IPv4 or IPv6 address is not one that the diagrams allow: the address is
-- written behind its size, so a server that reads it finds a byte too many.
pub read_request_address :
    (s : Socks) (address : Bytes)
    → ((s.host ≡ ipv4 address) × (length address ≡ 4))
      ⊎ ((s.host ≡ ipv6 address) × (length address ≡ 16))
    → read_request (bytes_of (send_connect s)) ≡ none
unfolding read_request send_connect push_host push_port push_size_prefixed
read_request_address s address (inl (e, size)) = rw e (
    read_rest_long ipv4 4
      (length address % 256 ∷ (address ++ (s.port / 256 % 256 ∷ s.port % 256 ∷ [])))
      (omega (arith, length-append address (s.port / 256 % 256 ∷ s.port % 256 ∷ []))))
read_request_address s address (inr (e, size)) = rw e (
    read_rest_long ipv6 16
      (length address % 256 ∷ (address ++ (s.port / 256 % 256 ∷ s.port % 256 ∷ [])))
      (omega (arith, length-append address (s.port / 256 % 256 ∷ s.port % 256 ∷ []))))
