-- ===== src/Socks5/Tests.antt =====
-- Runs of the SOCKS5 client.
use snowcone.Prelude.{
  ◌≡◌, ◌≢◌, ◌⊎◌, ℕ, ◌*◌, ◌+◌, refl, inl, none, [], ◌∷◌, ◌++◌, Bytes, codes, replicate, arith,
}
use snowcone.Socks5.{
  Socks, hostname, ipv4, no_credential, username_password, pending, failed, socks_error, message,
  async_connect, send_connect, wrong_version, domain_too_long,
}
use snowcone.Socks5.Server.{bytes_of, read_request, read_request_address}
use snowcone.Socks5.Completes.{async_connect-ne-pending}
use snowcone.Socks5.Dialog.{acceptance, IsBound}
use snowcone.Socks5.Accepted.{async_connect-accepted}
use snowcone.Socks5.Disclosure.{async_connect-sent}

abbrev proxied : Socks
proxied = record {
  host = hostname (codes "irc.libera.chat");
  port = 6697;
  auth = username_password (codes "user") (codes "pass");
}

abbrev direct : Socks
direct = record { host = ipv4 (10 ∷ 0 ∷ 0 ∷ 1 ∷ []); port = 6667; auth = no_credential }

bad_version :
    async_connect direct (replicate 7 none) (4 ∷ 0 ∷ [])
    ≡ (5 ∷ 1 ∷ 0 ∷ [], failed (socks_error wrong_version))
unfolding async_connect
bad_version = refl

too_long : message domain_too_long ≡ codes "domain name too long"
unfolding message
too_long = refl

read_request_address_example : read_request (bytes_of (send_connect direct)) ≡ none
read_request_address_example = read_request_address direct (10 ∷ 0 ∷ 0 ∷ 1 ∷ []) (inl (refl, refl))

async_connect-ne-pending_example :
    (async_connect proxied (replicate 7 none) (5 ∷ 2 ∷ 1 ∷ [])).1 ≢ pending
async_connect-ne-pending_example =
    async_connect-ne-pending proxied (replicate 7 none) (5 ∷ 2 ∷ 1 ∷ []) (omega arith)

async_connect-accepted_example :
    (kind : ℕ) × (high : ℕ) × (low : ℕ) × (rest : Bytes) × IsBound kind (1 ∷ 2 ∷ 3 ∷ 4 ∷ [])
    × (5 ∷ 0 ∷ 5 ∷ 0 ∷ 0 ∷ 1 ∷ 1 ∷ 2 ∷ 3 ∷ 4 ∷ 26 ∷ 41 ∷ []
        ≡ acceptance direct.auth ++ (5 ∷ 0 ∷ 0 ∷ kind ∷ (1 ∷ 2 ∷ 3 ∷ 4 ∷ [] ++ high ∷ low ∷ rest)))
    × (6697 ≡ high * 256 + low)
unfolding async_connect
async_connect-accepted_example =
    async_connect-accepted direct (replicate 5 none)
      (5 ∷ 0 ∷ 5 ∷ 0 ∷ 0 ∷ 1 ∷ 1 ∷ 2 ∷ 3 ∷ 4 ∷ 26 ∷ 41 ∷ []) (1 ∷ 2 ∷ 3 ∷ 4 ∷ []) 6697 refl

async_connect-sent_example :
    let sent = (async_connect proxied (replicate 7 none) (5 ∷ 0 ∷ [])).0 in
    (sent ≡ []) ⊎ ((sent ≡ 5 ∷ 1 ∷ 2 ∷ []) ⊎ ((rest : Bytes) × (5 ∷ 0 ∷ [] ≡ 5 ∷ 2 ∷ rest)))
async_connect-sent_example = async_connect-sent proxied (replicate 7 none) (5 ∷ 0 ∷ [])
