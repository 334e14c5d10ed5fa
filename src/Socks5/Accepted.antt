-- ===== src/Socks5/Accepted.antt =====
-- The operation succeeds with no other server than one that accepts.
use snowcone.Prelude.{
  ℕ, ◌+◌, ◌*◌, ◌≤◌, ◌≡◌, refl, sym, ap, ◌∙◌, ◌⊎◌, inl, inr, Option, List, [], ◌∷◌, ◌++◌, arith,
  Bytes, ◌==◌, leb, if◌then◌else◌, length, take, drop, ==_iff, not,
}
use snowcone.Socks5.{
  Host, hostname, ipv4, ipv6, Auth, no_credential, username_password, Socks, Action, read, Received,
  hello_recvd, auth_recvd, reply_recvd, finish_ipv4, finish_ipv6, received, step_start, step_reply,
  send_connect, send_usernamepassword, finish, step, resume, run, async_connect, method_wanted,
  endpoint, failure, wrong_version, no_acceptable_methods, authentication_failed, general_failure,
  unsupported_endpoint_address, domain_too_long, username_too_long, password_too_long, host_check,
  auth_check, after_hello, transact,
}
use snowcone.Socks5.Server.{bytes_of}
use snowcone.Socks5.Dialog.{IsBound, auth_reply, acceptance}
use snowcone.Socks5.Leads.{
  read-Leads, transact-Leads, guard-Leads, choose-Leads, branch-Leads, finish-EndsWith, Leads,
  EndsWith, is_of_not,
}

module _ (s : Socks) (a : Bytes) (p : ℕ) where
  -- The reply and the bound address behind it.
  abbrev IsReply : Bytes → Type 0
  IsReply input =
      (kind : ℕ) × (high : ℕ) × (low : ℕ) × (rest : Bytes) × IsBound kind a
      × (input ≡ 5 ∷ 0 ∷ 0 ∷ kind ∷ (a ++ high ∷ low ∷ rest))
      × (p ≡ high * 256 + low)

  read_finish-EndsWith :
      (n : ℕ) (next : Received) (input : Bytes)
      → ((buffer : Bytes) → step s (received next) buffer ≡ finish n buffer)
      → Leads s a p (read (n + 2) (received next)) input
      → EndsWith s a p n input
  read_finish-EndsWith n next input ends h =
      let (enough, led) = read-Leads s a p (n + 2) (received next) input h in
      finish-EndsWith s a p n input (drop (n + 2) input) enough (
        led.0,
        ap (λ t. (run s t led.0 (drop (n + 2) input)).1) (sym (ends (take (n + 2) input))) ∙ led.1,
      )

  kind-EndsWith :
      (k : ℕ) (input : Bytes)
      → Leads s a p
          (if k == 1
            then read 6 (received finish_ipv4)
            else if k == 4
            then read 18 (received finish_ipv6)
            else failure unsupported_endpoint_address)
          input
      → ((k ≡ 1) × EndsWith s a p 4 input) ⊎ ((k ≡ 4) × EndsWith s a p 16 input)
  kind-EndsWith k input h = elim (branch-Leads s a p (k == 1) _ _ input h) [
    | inl (e, led) ↦ inl (
      (==_iff k 1).0 e,
      read_finish-EndsWith 4 finish_ipv4 input (λ buffer. unfold step in refl) led,
    )
    | inr (e, led) ↦
        let (e4, led4) =
          choose-Leads s a p (k == 4) unsupported_endpoint_address (read 18 (received finish_ipv6))
            input led in
        inr (
          (==_iff k 4).0 e4,
          read_finish-EndsWith 16 finish_ipv6 input (λ buffer. unfold step in refl) led4,
        )
  ]

  step_reply-IsReply :
      (v r z k : ℕ) (input : Bytes)
      → Leads s a p (step_reply (v ∷ r ∷ z ∷ k ∷ [])) input
      → IsReply (v ∷ r ∷ z ∷ k ∷ input)
  unfolding step_reply
  step_reply-IsReply v r z k input h =
      let (is_version, h1) = guard-Leads s a p (not (v == 5)) wrong_version _ input h in
      let (is_success, h2) = guard-Leads s a p (not (r == 0)) r _ input h1 in
      let (is_reserved, h3) = guard-Leads s a p (not (z == 0)) general_failure _ input h2 in
      let v5 : v ≡ 5 = is_of_not v 5 is_version in
      let r0 : r ≡ 0 = is_of_not r 0 is_success in
      let z0 : z ≡ 0 = is_of_not z 0 is_reserved in
      elim (kind-EndsWith k input h3) [
        | inl (k1, (high, low, rest, size, whole, port)) ↦
            (k, high, low, rest, inl (k1, size), cc, port)
        | inr (k4, (high, low, rest, size, whole, port)) ↦
            (k, high, low, rest, inr (k4, size), cc, port)
      ]

  send_connect-IsReply : (input : Bytes) → Leads s a p (send_connect s) input → IsReply input
  send_connect-IsReply input h = four input (
      transact-Leads s a p (bytes_of (send_connect s)) reply_recvd input (unfold send_connect in h))
    where
      four :
          (input : Bytes)
          → (4 ≤ length input)
            × Leads s a p (step s (received reply_recvd) (take 4 input)) (drop 4 input)
          → IsReply input
      four (v ∷ r ∷ z ∷ k ∷ input) (h, led) = step_reply-IsReply v r z k input (unfold step in led)
      four [] (h, led) = absurd (omega arith)
      four (x ∷ []) (h, led) = absurd (omega arith)
      four (x ∷ y ∷ []) (h, led) = absurd (omega arith)
      four (x ∷ y ∷ z ∷ []) (h, led) = absurd (omega arith)

  -- What follows the choice of the method.
  abbrev IsAccepted : Auth → Bytes → Type 0
  IsAccepted auth input = (rest : Bytes) × (input ≡ auth_reply auth ++ rest) × IsReply rest

  after_hello-IsAccepted :
      (auth : Auth) (input : Bytes) → Leads s a p (after_hello s auth) input → IsAccepted auth input
  unfolding step
  after_hello-IsAccepted no_credential input h = (input, refl, send_connect-IsReply input h)
  after_hello-IsAccepted (username_password name password) input h = two input (
      transact-Leads s a p (bytes_of (send_usernamepassword name password)) auth_recvd input
        (unfold send_usernamepassword in h))
    where
      two :
          (input : Bytes)
          → (2 ≤ length input)
            × Leads s a p (step s (received auth_recvd) (take 2 input)) (drop 2 input)
          → IsAccepted (username_password name password) input
      two (v ∷ status ∷ input) (h, led) =
          let (is_version, h1) = guard-Leads s a p (not (v == 1)) wrong_version _ input led in
          let (is_success, h2) =
            guard-Leads s a p (not (status == 0)) authentication_failed _ input h1 in
          let v1 : v ≡ 1 = is_of_not v 1 is_version in
          let s0 : status ≡ 0 = is_of_not status 0 is_success in
          (input, cc, send_connect-IsReply input h2)
      two [] (h, led) = absurd (omega arith)
      two (x ∷ []) (h, led) = absurd (omega arith)

  hello-IsAccepted :
      (input : Bytes)
      → Leads s a p (transact (5 ∷ 1 ∷ method_wanted s.auth ∷ []) hello_recvd) input
      → (rest : Bytes) × (input ≡ 5 ∷ method_wanted s.auth ∷ rest) × IsAccepted s.auth rest
  unfolding step
  hello-IsAccepted input h = two input (transact-Leads s a p _ hello_recvd input h)
    where
      two :
          (input : Bytes)
          → (2 ≤ length input)
            × Leads s a p (step s (received hello_recvd) (take 2 input)) (drop 2 input)
          → (rest : Bytes) × (input ≡ 5 ∷ method_wanted s.auth ∷ rest) × IsAccepted s.auth rest
      two (v ∷ method ∷ input) (h, led) =
          let (is_version, h1) = guard-Leads s a p (not (v == 5)) wrong_version _ input led in
          let (is_wanted, h2) =
            choose-Leads s a p (method_wanted s.auth == method) no_acceptable_methods
              (after_hello s s.auth) input h1 in
          let v5 : v ≡ 5 = is_of_not v 5 is_version in
          let same : method_wanted s.auth ≡ method =
            (==_iff (method_wanted s.auth) method).0 is_wanted in
          (input, cc, after_hello-IsAccepted s.auth input h2)
      two [] (h, led) = absurd (omega arith)
      two (x ∷ []) (h, led) = absurd (omega arith)

  host_check-Leads :
      (host : Host) (next : Action) (input : Bytes)
      → Leads s a p (host_check host next) input
      → Leads s a p next input
  host_check-Leads (hostname name) next input h =
      (guard-Leads s a p (leb 256 (length name)) domain_too_long next input h).1
  host_check-Leads (ipv4 address) next input h = h
  host_check-Leads (ipv6 address) next input h = h

  auth_check-Leads :
      (auth : Auth) (next : Action) (input : Bytes)
      → Leads s a p (auth_check auth next) input
      → Leads s a p next input
  auth_check-Leads no_credential next input h = h
  auth_check-Leads (username_password name password) next input h =
      (guard-Leads s a p (leb 256 (length password)) password_too_long next input
        (guard-Leads s a p (leb 256 (length name)) username_too_long _ input h).1).1

-- The operation returns an endpoint only if the server chose the wanted method, accepted the
-- credentials if there are any, and reported success with that endpoint.
pub async_connect-accepted :
    (s : Socks) (completions : List (Option ℕ)) (input address : Bytes) (port : ℕ)
    → (async_connect s completions input).1 ≡ endpoint address port
    → (kind : ℕ) × (high : ℕ) × (low : ℕ) × (rest : Bytes) × IsBound kind address
      × (input ≡ acceptance s.auth ++ (5 ∷ 0 ∷ 0 ∷ kind ∷ (address ++ high ∷ low ∷ rest)))
      × (port ≡ high * 256 + low)
unfolding async_connect resume step step_start
async_connect-accepted s cs input address port e =
    let hello : Action = transact (5 ∷ 1 ∷ method_wanted s.auth ∷ []) hello_recvd in
    let led = host_check-Leads s address port s.host (auth_check s.auth hello) input (cs, e) in
    let (r1, e1, (r2, e2, (kind, high, low, rest, bound, e3, is_port))) =
      hello-IsAccepted s address port input
        (auth_check-Leads s address port s.auth hello input led) in
    (kind, high, low, rest, bound, cc, is_port)
