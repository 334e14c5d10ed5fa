-- ===== src/Connect/Plan.antt =====
-- The steps of a connection, as the settings ask for them.
use snowcone.Prelude.{
  ℕ, zero, suc, ◌≡◌, refl, ap, ◌∙◌, Bool, true, false, not, ◌&&◌, ◌==◌, ==_ne, arith, List, [], ◌∷◌,
  ◌++◌, append-nil, Bytes, codes,
}
use snowcone.IrcSession.{irc_buffer_size}
use snowcone.Connect.{
  Settings, Call, async_resolve, tcp_connect, no_delay, set_cloexec, make_context,
  set_default_verify_paths, set_verify_mode, set_verify_callback, upgrade, use_certificate,
  use_private_key, handshake, tcp_buffer_size, tls_buffer_size, socks_connect, set_alpn_protos,
  verify_peer, set_host_name, World, returned, threw, Traced, pure, ◌>>=◌, ◌>>◌, when, call, hex,
  is_empty, use_socks, swap_socks, dial, proxy, secure, connect,
}

-- If the action returns, it has made these calls.
abbrev Makes : Traced Bytes → List Call → Type 0
Makes action calls = (text : Bytes) → action.1 ≡ returned text → action.0 ≡ calls

pure-Makes : (text : Bytes) → Makes (pure text) []
pure-Makes text x e = refl

call-Makes : (w : World) (c : Call) → Makes (call w c) (c ∷ [])
call-Makes w c x e = refl

bind-Makes :
    (action : Traced Bytes) (next : Bytes → Traced Bytes) (first second : List Call)
    → Makes action first
    → ((text : Bytes) → Makes (next text) second)
    → Makes (action >>= next) (first ++ second)
bind-Makes (calls, threw what) next first second h k x e = cc
bind-Makes (calls, returned text) next first second h k x e =
    ap (λ t. t ++ (next text).0) (h text refl) ∙ ap (λ t. first ++ t) (k text x e)

abbrev pub if_asked : Bool → List Call → List Call
if_asked true calls = calls
if_asked false calls = []

-- Where the settings have a text.
abbrev pub if_given : Bytes → List Call → List Call
if_given [] calls = []
if_given (x ∷ text) calls = calls

when-Makes :
    (c : Bool) (action : Traced Bytes) (calls : List Call)
    → Makes action calls
    → Makes (when c action) (if_asked c calls)
when-Makes true action calls h = h
when-Makes false action calls h = λ x e. refl

step-Makes :
    (w : World) (c : Call) (next : Traced Bytes) (calls : List Call)
    → Makes next calls
    → Makes (call w c >> next) (c ∷ calls)
step-Makes w c next calls h =
    bind-Makes (call w c) (λ x. next) (c ∷ []) calls (call-Makes w c) (λ x. h)

-- The connection to the host that is dialled.
abbrev pub dial_calls : Bytes → ℕ → List Call
dial_calls host port =
    async_resolve host port
    ∷ tcp_connect
    ∷ no_delay
    ∷ tcp_buffer_size irc_buffer_size
    ∷ set_cloexec
    ∷ []

-- Everything is configured before the handshake.
abbrev pub secure_calls : Settings → List Call
secure_calls s =
    make_context
    ∷ set_default_verify_paths
    ∷ upgrade
    ∷ (if_asked s.client_cert (use_certificate ∷ [])
        ++ (if_asked s.client_key (use_private_key ∷ [])
            ++ (tls_buffer_size irc_buffer_size
                ∷ set_alpn_protos (3 ∷ codes "irc")
                ∷ (if_given s.verify (set_verify_mode ∷ set_verify_callback s.verify ∷ [])
                    ++ (if_given s.sni (set_host_name s.sni ∷ []) ++ handshake ∷ [])))))

-- With a proxy, its host is dialled and the server is named to it.
abbrev pub reach_calls : Bool → Settings → List Call
reach_calls true s =
    dial_calls s.socks_host s.socks_port ++ socks_connect s.host s.port s.socks_auth ∷ []
reach_calls false s = dial_calls s.host s.port

dial-Makes : (w : World) (s : Settings) → Makes (dial w s) (dial_calls s.host s.port)
unfolding dial
dial-Makes w s = step-Makes w (async_resolve s.host s.port) _ _ (
    bind-Makes (call w tcp_connect) _ (tcp_connect ∷ [])
      (no_delay ∷ tcp_buffer_size irc_buffer_size ∷ set_cloexec ∷ []) (call-Makes w tcp_connect)
      (λ endpoint. step-Makes w no_delay _ _ (
        step-Makes w (tcp_buffer_size irc_buffer_size) _ _
          (step-Makes w set_cloexec _ _ (pure-Makes (codes "tcp=" ++ endpoint))))))

when-step :
    (c : Bool) (action next : Traced Bytes) (calls more : List Call)
    → Makes action calls
    → Makes next more
    → Makes (when c action >> next) (if_asked c calls ++ more)
when-step c action next calls more h k =
    bind-Makes (when c action) (λ x. next) (if_asked c calls) more (when-Makes c action calls h)
      (λ x. k)

given-step :
    (text : Bytes) (action next : Traced Bytes) (calls more : List Call)
    → Makes action calls
    → Makes next more
    → Makes (when (not (is_empty text)) action >> next) (if_given text calls ++ more)
given-step [] action next calls more h k = when-step false action next calls more h k
given-step (x ∷ text) action next calls more h k = when-step true action next calls more h k

verify_peer-Makes :
    (w : World) (host : Bytes)
    → Makes (verify_peer w host) (set_verify_mode ∷ set_verify_callback host ∷ [])
unfolding verify_peer
verify_peer-Makes w host =
    step-Makes w set_verify_mode (call w (set_verify_callback host)) _
      (call-Makes w (set_verify_callback host))

secure-Makes : (w : World) (s : Settings) → Makes (secure w s) (secure_calls s)
unfolding secure
secure-Makes w s = step-Makes w make_context _ _ (
    step-Makes w set_default_verify_paths _ _ (
      step-Makes w upgrade _ _ (
        when-step s.client_cert (call w use_certificate) _ (use_certificate ∷ []) _
          (call-Makes w use_certificate)
          (when-step s.client_key (call w use_private_key) _ (use_private_key ∷ []) _
            (call-Makes w use_private_key)
            (step-Makes w (tls_buffer_size irc_buffer_size) _ _ (
              step-Makes w (set_alpn_protos (3 ∷ codes "irc")) _ _ (
                given-step s.verify (verify_peer w s.verify) _ _ _ (verify_peer-Makes w s.verify) (
                  given-step s.sni (call w (set_host_name s.sni)) _ (set_host_name s.sni ∷ []) _
                    (call-Makes w (set_host_name s.sni))
                    (step-Makes w handshake _ _
                      (pure-Makes (codes " tls=" ++ hex w.digest)))))))))))

proxy-Makes :
    (w : World) (s : Settings)
    → Makes (proxy w s) (socks_connect s.socks_host s.socks_port s.socks_auth ∷ [])
unfolding proxy
proxy-Makes w s =
    bind-Makes (call w (socks_connect s.socks_host s.socks_port s.socks_auth)) _
      (socks_connect s.socks_host s.socks_port s.socks_auth ∷ []) []
      (call-Makes w (socks_connect s.socks_host s.socks_port s.socks_auth))
      (λ endpoint. pure-Makes (codes " socks=" ++ endpoint))

-- There is a proxy if the settings have both its host and its port.
abbrev pub has_proxy : Bytes → ℕ → Bool
has_proxy [] port = false
has_proxy (x ∷ host) zero = false
has_proxy (x ∷ host) (suc port) = true

-- All the calls for these settings.
abbrev pub plan : Settings → List Call
plan s = reach_calls (has_proxy s.socks_host s.socks_port) s ++ if_asked s.tls (secure_calls s)

has_proxy_lem :
    (host : Bytes) (port : ℕ) → not (is_empty host) && not (port == 0) ≡ has_proxy host port
has_proxy_lem [] port = refl
has_proxy_lem (x ∷ host) zero = refl
has_proxy_lem (x ∷ host) (suc port) = rw (==_ne (suc port) 0 (omega arith)) refl

rest-Makes :
    (socks : Bool) (w : World) (settings : Settings) (tcp : Bytes)
    → let s = swap_socks socks settings in
      Makes
        (when socks (proxy w s) >>= λ via.
          when s.tls (secure w s) >>= λ tls. pure (tcp ++ (via ++ tls)))
        (if_asked socks (socks_connect s.socks_host s.socks_port s.socks_auth ∷ [])
          ++ (if_asked s.tls (secure_calls s) ++ []))
rest-Makes socks w settings tcp =
    let s : Settings = swap_socks socks settings in
    bind-Makes (when socks (proxy w s)) _
      (if_asked socks (socks_connect s.socks_host s.socks_port s.socks_auth ∷ []))
      (if_asked s.tls (secure_calls s) ++ []) (when-Makes socks (proxy w s) _ (proxy-Makes w s))
      (λ via.
        bind-Makes (when s.tls (secure w s)) _ (if_asked s.tls (secure_calls s)) []
          (when-Makes s.tls (secure w s) _ (secure-Makes w s))
          (λ tls. pure-Makes (tcp ++ (via ++ tls))))

reach_swap :
    (socks : Bool) (settings : Settings) (calls : List Call)
    → let s = swap_socks socks settings in
      dial_calls s.host s.port
        ++ (if_asked socks (socks_connect s.socks_host s.socks_port s.socks_auth ∷ []) ++ calls)
      ≡ reach_calls socks settings ++ calls
reach_swap true settings calls = refl
reach_swap false settings calls = refl

tls_swap :
    (socks : Bool) (settings : Settings)
    → let s = swap_socks socks settings in
      if_asked s.tls (secure_calls s) ≡ if_asked settings.tls (secure_calls settings)
tls_swap true settings = refl
tls_swap false settings = refl

-- If `connect` returns, it has made every call that the settings ask for, in order: if they have a
-- proxy's host and port, it has dialled the proxy and named the server to it, and else it has dialled
-- the server; with TLS it has made a context with the default paths and upgraded the stream after
-- that, and has set the certificate, the key, the protocol, the mode and the host to verify and the
-- host to name, as far as they are given, before the handshake, which comes last.
pub connect-plan :
    (w : World) (settings : Settings) (fingerprint : Bytes)
    → (connect w settings).1 ≡ returned fingerprint
    → (connect w settings).0 ≡ plan settings
unfolding connect
connect-plan w settings fingerprint e =
    let socks : Bool = use_socks settings in
    let s : Settings = swap_socks socks settings in
    bind-Makes (dial w s) _ (dial_calls s.host s.port) _ (dial-Makes w s)
      (λ tcp. rest-Makes socks w settings tcp) fingerprint e
    ∙ reach_swap socks settings (if_asked s.tls (secure_calls s) ++ [])
    ∙ ap (λ t. reach_calls socks settings ++ t)
        (append-nil (if_asked s.tls (secure_calls s)) ∙ tls_swap socks settings)
    ∙ ap (λ c. reach_calls c settings ++ if_asked settings.tls (secure_calls settings))
        (has_proxy_lem settings.socks_host settings.socks_port)
