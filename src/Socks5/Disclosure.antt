-- ===== src/Socks5/Disclosure.antt =====
-- What the operation sends to a server that has not accepted its method.
use snowcone.Prelude.{
  ℕ, arith, ◌≡◌, refl, ap, ◌⊎◌, inl, inr, Bool, true, false, Option, none, some, List, [], ◌∷◌,
  ◌++◌, Bytes, ◌==◌, ==_iff, leb, if◌then◌else◌, length, Bool-cases,
}
use snowcone.Socks5.{
  Host, hostname, ipv4, ipv6, Auth, no_credential, username_password, Socks, Action, hello_recvd,
  SocksErrc, failure, domain_too_long, username_too_long, password_too_long, step_hello, step_start,
  step, resume, run, async_connect, method_wanted, host_check, auth_check, transact,
}
use snowcone.Socks5.Dialog.{run-transact}

module _ (s : Socks) where
  abbrev hello : Bytes
  hello = 5 ∷ 1 ∷ method_wanted s.auth ∷ []

  abbrev HasChosen : Bytes → Type 0
  HasChosen input = (rest : Bytes) × (input ≡ 5 ∷ method_wanted s.auth ∷ rest)

  abbrev IsHidden : Bytes → Bytes → Type 0
  IsHidden input sent = (sent ≡ []) ⊎ ((sent ≡ hello) ⊎ HasChosen input)

  abbrev Hides : Action → Type 0
  Hides action = (cs : List (Option ℕ)) (input : Bytes) → IsHidden input (run s action cs input).0

  failure-Hides : (error : SocksErrc) → Hides (failure error)
  unfolding run
  failure-Hides error cs input = inl refl

  guard-Hides :
      (c : Bool) (error : SocksErrc) (next : Action)
      → Hides next
      → Hides (if c then failure error else next)
  guard-Hides true error next h = failure-Hides error
  guard-Hides false error next h = h

  host_check-Hides : (host : Host) (next : Action) → Hides next → Hides (host_check host next)
  host_check-Hides (hostname name) next h =
      guard-Hides (leb 256 (length name)) domain_too_long next h
  host_check-Hides (ipv4 address) next h = h
  host_check-Hides (ipv6 address) next h = h

  auth_check-Hides : (auth : Auth) (next : Action) → Hides next → Hides (auth_check auth next)
  auth_check-Hides no_credential next h = h
  auth_check-Hides (username_password name password) next h =
      guard-Hides (leb 256 (length name)) username_too_long _
        (guard-Hides (leb 256 (length password)) password_too_long next h)

  -- Nothing is sent in answer to another choice.
  step_hello-silent :
      (v method : ℕ) (cs : List (Option ℕ)) (left rest : Bytes)
      → ((run s (step_hello s (v ∷ method ∷ [])) cs left).0 ≡ []) ⊎ HasChosen (v ∷ method ∷ rest)
  unfolding step_hello run
  step_hello-silent v method cs left rest = elim (Bool-cases (v == 5)) [
    | inr other ↦ inl (rw other refl)
    | inl is_version ↦ elim (Bool-cases (method_wanted s.auth == method)) [
      | inr other ↦ inl (rw (is_version, other) refl)
      | inl wanted ↦
          let v5 : v ≡ 5 = (==_iff v 5).0 is_version in
          let same : method_wanted s.auth ≡ method =
            (==_iff (method_wanted s.auth) method).0 wanted in
          inr (rest, cc)
    ]
  ]

  read-IsHidden :
      (cs : List (Option ℕ)) (v method : ℕ) (rest : Bytes)
      → IsHidden
          (v ∷ method ∷ rest)
          (run s (transact hello hello_recvd) (none ∷ none ∷ cs) (v ∷ method ∷ rest)).0
  read-IsHidden cs v method rest =
      rw (run-transact s hello hello_recvd cs (v ∷ method ∷ rest) (omega arith)) (
        unfold step in
        elim (step_hello-silent v method cs rest rest) [
          | inl e ↦ inr (inl (ap (λ t. hello ++ t) e))
          | inr chosen ↦ inr (inr chosen)
        ])

  hello-Hides : Hides (transact hello hello_recvd)
  unfolding run resume step
  hello-Hides [] input = inl refl
  hello-Hides (some error ∷ cs) input = inl refl
  hello-Hides (none ∷ []) input = inr (inl refl)
  hello-Hides (none ∷ some error ∷ cs) input = inr (inl refl)
  hello-Hides (none ∷ none ∷ cs) [] = inr (inl refl)
  hello-Hides (none ∷ none ∷ cs) (x ∷ []) = inr (inl refl)
  hello-Hides (none ∷ none ∷ cs) (v ∷ method ∷ rest) = read-IsHidden cs v method rest

-- The operation sends nothing, or only its hello message, unless the server has answered that
-- with version 5 and the method that the client wants. In particular no credentials are sent.
pub async_connect-sent :
    (s : Socks) (completions : List (Option ℕ)) (input : Bytes)
    → let sent = (async_connect s completions input).0 in
      (sent ≡ [])
      ⊎ ((sent ≡ 5 ∷ 1 ∷ method_wanted s.auth ∷ [])
          ⊎ ((rest : Bytes) × (input ≡ 5 ∷ method_wanted s.auth ∷ rest)))
unfolding async_connect resume step step_start
async_connect-sent s cs input =
    let hello : Action = transact (5 ∷ 1 ∷ method_wanted s.auth ∷ []) hello_recvd in
    host_check-Hides s s.host (auth_check s.auth hello)
      (auth_check-Hides s s.auth hello (hello-Hides s)) cs input
