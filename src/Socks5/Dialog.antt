-- ===== src/Socks5/Dialog.antt =====
-- What the operation sends and receives, with a server that accepts and with any other.
use snowcone.Prelude.{
  take_front, get_or_front, get_or-length_add, ℕ, ◌+◌, ◌*◌, ◌/◌, ◌%◌, ◌≤◌, ◌≡◌, refl, ap, ◌∙◌, ◌⊎◌,
  false, Option, none, List, [], ◌∷◌, ◌++◌, arith, Bytes, ltb, length, take, drop, get_or,
}
use snowcone.Socks5.{
  Host, hostname, ipv4, ipv6, Auth, no_credential, username_password, Socks, write, read, connected,
  Received, State, sent, received, send_usernamepassword, finish, step, resume, run, method_wanted,
  read_error, read_size, transact,
}
use snowcone.Socks5.Server.{bytes_of}

-- What a server sends that lets the operation succeed.
abbrev pub auth_reply : Auth → Bytes
auth_reply no_credential = []
auth_reply (username_password name password) = 1 ∷ 0 ∷ []

abbrev pub acceptance : Auth → Bytes
acceptance auth = 5 ∷ method_wanted auth ∷ auth_reply auth

abbrev pub auth_bytes : Auth → Bytes
auth_bytes no_credential = []
auth_bytes (username_password name password) = bytes_of (send_usernamepassword name password)

-- A text behind its size, of which a byte is kept.
abbrev pub sized : Bytes → Bytes
sized text = length text % 256 ∷ text

-- The messages, byte by byte. The hello offers one method: none, or the name and the password.
abbrev pub hello_message : Auth → Bytes
hello_message no_credential = 5 ∷ 1 ∷ 0 ∷ []
hello_message (username_password name password) = 5 ∷ 1 ∷ 2 ∷ []

abbrev pub auth_message : Auth → Bytes
auth_message no_credential = []
auth_message (username_password name password) = 1 ∷ (sized name ++ sized password)

abbrev pub target : Host → Bytes
target (hostname name) = 3 ∷ sized name
target (ipv4 address) = 1 ∷ sized address
target (ipv6 address) = 4 ∷ sized address

-- The port's high byte comes first.
abbrev pub connect_message : Socks → Bytes
connect_message s = 5 ∷ 1 ∷ 0 ∷ (target s.host ++ (s.port / 256 % 256 ∷ s.port % 256 ∷ []))

-- What the client sends to it.
abbrev pub requests : Socks → Bytes
requests s = hello_message s.auth ++ (auth_message s.auth ++ connect_message s)

-- An address that is bound for the client, with its type.
abbrev pub IsBound : ℕ → Bytes → Type 0
IsBound kind address = ((kind ≡ 1) × (length address ≡ 4)) ⊎ ((kind ≡ 4) × (length address ≡ 16))

run-write :
    (s : Socks) (bytes : Bytes) (state : State) (cs : List (Option ℕ)) (input : Bytes)
    → run s (write bytes state) (none ∷ cs) input
      ≡ (bytes ++ (run s (step s state bytes) cs input).0, (run s (step s state bytes) cs input).1)
run-write s bytes state cs input = unfold run resume in refl

run_read :
    (s : Socks) (n : ℕ) (state : State) (cs : List (Option ℕ)) (input : Bytes)
    → n ≤ length input
    → run s (read n state) (none ∷ cs) input ≡ run s (step s state (take n input)) cs (drop n input)
run_read s n state cs input h =
    let enough : ltb (length input) n ≡ false = ground arith in
    let succeeds : read_error none n input ≡ none = rw enough refl in
    unfold run in
    ap (λ c. run s (resume s state c (take n input)) cs (drop n input)) succeeds
    ∙ unfold resume in refl

-- A write, and the read that `step` asks for behind it.
pub run-transact :
    (s : Socks) (bytes : Bytes) (next : Received) (cs : List (Option ℕ)) (input : Bytes)
    → read_size next ≤ length input
    → let later =
        run s
          (step s (received next) (take (read_size next) input))
          cs
          (drop (read_size next) input) in
      run s (transact bytes next) (none ∷ none ∷ cs) input ≡ (bytes ++ later.0, later.1)
run-transact s bytes next cs input h =
    run-write s bytes (sent next) (none ∷ cs) input
    ∙ unfold step in rw (run_read s (read_size next) (received next) cs input h) refl

pub finish_lem :
    (address : Bytes) (high low : ℕ)
    → finish (length address) (address ++ high ∷ low ∷ []) ≡ connected address (high * 256 + low)
unfolding finish
finish_lem address high low =
    let second : get_or (address ++ high ∷ low ∷ []) (length address + 1) 0 ≡ low =
      get_or-length_add address (high ∷ low ∷ []) 1 0 in
    rw (take_front address (high ∷ low ∷ []), get_or_front address high 0 (low ∷ []), second) refl
