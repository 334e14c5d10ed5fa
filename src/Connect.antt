-- ===== src/Connect.antt =====
-- `connection::connect` of client/net/connection.cpp with `peer_fingerprint` and `alpn_encode`. The
-- resolver, the sockets, SOCKS and OpenSSL are the world: it answers each call with a text, empty
-- where the code uses none, or makes it throw.
pub mod Plan
pub mod Encodings
mod Tests
use snowcone.Prelude.{
  ℕ, suc, ◌+◌, ◌/◌, ◌%◌, ◌≡◌, Bool, true, false, not, ◌&&◌, List, [], ◌∷◌, ◌++◌, Bytes, codes, ◌==◌,
  if◌then◌else◌, get_or, length,
}
use snowcone.Socks5.{Auth}
use snowcone.IrcSession.{irc_buffer_size}

pub record Settings : Type 0 where
  pub tls : Bool
  pub host : Bytes
  pub port : ℕ
  -- Whether there is a client certificate and key.
  pub client_cert : Bool
  pub client_key : Bool
  pub verify : Bytes
  pub sni : Bytes
  pub socks_host : Bytes
  pub socks_port : ℕ
  pub socks_auth : Auth

pub data Call : Type 0 where
  async_resolve : Bytes → ℕ → Call
  tcp_connect no_delay set_cloexec make_context set_default_verify_paths upgrade : Call
  use_certificate use_private_key set_verify_mode handshake : Call
  tcp_buffer_size tls_buffer_size : ℕ → Call
  socks_connect : Bytes → ℕ → Auth → Call
  set_alpn_protos set_verify_callback set_host_name : Bytes → Call

pub data Answer : Type 0 where
  done : Bytes → Answer
  fails : Bytes → Answer

-- `digest` is the digest of the peer's public key.
pub record World : Type 0 where
  pub answer : Call → Answer
  pub digest : Bytes

-- The calls that have been made, and the result or the exception.
pub data Result {ℓ} (A : Type ℓ) : Type ℓ where
  returned : A → Result A
  threw : Bytes → Result A

abbrev pub Traced {ℓ} : Type ℓ → Type ℓ
Traced A = List Call × Result A

abbrev pub pure {ℓ} : {A : Type ℓ} → A → Traced A
pure x = ([], returned x)

abbrev pub follow {ℓ} : {A : Type ℓ} → List Call → Traced A → Traced A
follow calls (more, result) = (calls ++ more, result)

infixl 5 ◌>>=◌ ◌>>◌
abbrev pub ◌>>=◌ {ℓ κ} : {A : Type ℓ} {B : Type κ} → Traced A → (A → Traced B) → Traced B
(calls, threw what) >>= next = (calls, threw what)
(calls, returned x) >>= next = follow calls (next x)

abbrev pub ◌>>◌ {ℓ κ} : {A : Type ℓ} {B : Type κ} → Traced A → Traced B → Traced B
first >> next = first >>= λ x. next

abbrev pub when : Bool → Traced Bytes → Traced Bytes
when true action = action
when false action = pure []

abbrev pub outcome : Answer → Result Bytes
outcome (done text) = returned text
outcome (fails what) = threw what

abbrev pub call : World → Call → Traced Bytes
call w c = (c ∷ [], outcome (w.answer c))

abbrev hex_digits : Bytes
hex_digits = codes "0123456789abcdef"

-- Two digits for each byte.
unfoldable pub hex : Bytes → Bytes
hex [] = []
hex (b ∷ md) = get_or hex_digits (b / 16 % 16) 0 ∷ get_or hex_digits (b % 16) 0 ∷ hex md

-- Each name behind its length. The names are literals of less than 255 bytes, by an assertion at
-- compile time.
unfoldable pub alpn_encode : List Bytes → Bytes
alpn_encode [] = []
alpn_encode (protocol ∷ protocols) = length protocol ∷ (protocol ++ alpn_encode protocols)

abbrev pub is_empty : Bytes → Bool
is_empty [] = true
is_empty (x ∷ s) = false

abbrev pub use_socks : Settings → Bool
use_socks s = not (is_empty s.socks_host) && not (s.socks_port == 0)

-- The swap: the proxy is dialled, and the server is what the proxy connects to.
abbrev pub swap_socks : Bool → Settings → Settings
swap_socks true s = record s {
  host = s.socks_host;
  port = s.socks_port;
  socks_host = s.host;
  socks_port = s.port;
}
swap_socks false s = s

unfoldable pub dial : World → Settings → Traced Bytes
dial w s = do
  call w (async_resolve s.host s.port)
  endpoint ← call w tcp_connect
  call w no_delay
  call w (tcp_buffer_size irc_buffer_size)
  call w set_cloexec
  pure (codes "tcp=" ++ endpoint)

unfoldable pub proxy : World → Settings → Traced Bytes
proxy w s = do
  endpoint ← call w (socks_connect s.socks_host s.socks_port s.socks_auth)
  pure (codes " socks=" ++ endpoint)

-- The mode is `boost::asio::ssl::verify_peer`.
unfoldable pub verify_peer : World → Bytes → Traced Bytes
verify_peer w host = do call w set_verify_mode; call w (set_verify_callback host)

unfoldable pub secure : World → Settings → Traced Bytes
unfolding hex alpn_encode verify_peer
secure w s = do
  call w make_context
  call w set_default_verify_paths
  call w upgrade
  when s.client_cert (call w use_certificate)
  when s.client_key (call w use_private_key)
  call w (tls_buffer_size irc_buffer_size)
  call w (set_alpn_protos (alpn_encode (codes "irc" ∷ [])))
  when (not (is_empty s.verify)) (verify_peer w s.verify)
  when (not (is_empty s.sni)) (call w (set_host_name s.sni))
  call w handshake
  pure (codes " tls=" ++ hex w.digest)

-- The fingerprint, after all steps.
unfoldable pub connect : World → Settings → Traced Bytes
unfolding dial proxy secure
connect w settings = do
  let socks = use_socks settings
  let s = swap_socks socks settings
  tcp ← dial w s
  via ← when socks (proxy w s)
  tls ← when s.tls (secure w s)
  pure (tcp ++ (via ++ tls))
