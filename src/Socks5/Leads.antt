-- ===== src/Socks5/Leads.antt =====
-- What a network has to deliver for an action to lead to an endpoint.
use snowcone.Prelude.{
  ℕ, zero, suc, ◌+◌, ◌*◌, ◌≤◌, ◌≡◌, refl, sym, ap, ◌∙◌, ◌⊎◌, inl, inr, Bool, true, false, Option,
  none, some, List, [], ◌∷◌, ◌++◌, arith, Bytes, ◌==◌, ltb, if◌then◌else◌, length, take-length_add,
  take, drop, Bool-cases, not,
}
use snowcone.Socks5.{
  Socks, Action, read, fail, connected, Received, State, received, finish, step, resume, run,
  Outcome, failed, endpoint, read_error, eof, ErrorCode, socks_error, SocksErrc, failure, read_size,
  transact,
}
use snowcone.Socks5.Dialog.{finish_lem}

not_lt : (m n : ℕ) → ltb m n ≡ false → n ≤ m
not_lt m n h = ground arith

read_error_cases :
    (n : ℕ) (input : Bytes)
    → ((n ≤ length input) × (read_error none n input ≡ none)) ⊎ (read_error none n input ≡ some eof)
read_error_cases n input = elim (Bool-cases (ltb (length input) n)) [
  | inl short ↦ inr (rw short refl)
  | inr enough ↦ inl (not_lt (length input) n enough, rw enough refl)
]

pub is_of_not : (x y : ℕ) → not (x == y) ≡ false → x ≡ y
is_of_not x y h = ground arith

-- An address of `n` bytes and a port.
split_endpoint :
    (n : ℕ) (input : Bytes)
    → n + 2 ≤ length input
    → (address : Bytes) × (high : ℕ) × (low : ℕ) × (rest : Bytes) × (length address ≡ n)
      × (input ≡ address ++ high ∷ low ∷ rest)
split_endpoint zero (high ∷ low ∷ rest) h = ([], high, low, rest, refl, refl)
split_endpoint zero [] h = absurd (omega arith)
split_endpoint zero (x ∷ []) h = absurd (omega arith)
split_endpoint (suc n) [] h = absurd (omega arith)
split_endpoint (suc n) (x ∷ input) h =
    let (address, high, low, rest, size, whole) = split_endpoint n input (omega arith) in
    (x ∷ address, high, low, rest, ap suc size, ap (λ t. x ∷ t) whole)

module _ (s : Socks) (a : Bytes) (p : ℕ) where
  -- The action leads to the endpoint, however the reads and writes complete.
  abbrev pub Leads : Action → Bytes → Type 0
  Leads action input = (cs : List (Option ℕ)) × ((run s action cs input).1 ≡ endpoint a p)

  failed_ne : {error : ErrorCode} → failed error ≡ endpoint a p → ⊥
  failed_ne h = cc

  pub read-Leads :
      (n : ℕ) (state : State) (input : Bytes)
      → Leads (read n state) input
      → (n ≤ length input) × Leads (step s state (take n input)) (drop n input)
  unfolding run resume
  read-Leads n state input ([], e) = absurd (cc)
  read-Leads n state input (some error ∷ cs, e) = absurd (cc)
  read-Leads n state input (none ∷ cs, e) =
      let after : Option ℕ → Outcome =
        λ c. (run s (resume s state c (take n input)) cs (drop n input)).1 in
      elim (read_error_cases n input) [
        | inl (enough, succeeds) ↦ (enough, (cs, ap after (sym succeeds) ∙ e))
        | inr fails ↦ absurd (failed_ne (ap after (sym fails) ∙ e))
      ]

  pub transact-Leads :
      (bytes : Bytes) (next : Received) (input : Bytes)
      → Leads (transact bytes next) input
      → (read_size next ≤ length input)
        × Leads (step s (received next) (take (read_size next) input)) (drop (read_size next) input)
  transact-Leads bytes next input ([], e) = absurd (unfold run in cc)
  transact-Leads bytes next input (some error ∷ cs, e) = absurd (unfold run resume in cc)
  transact-Leads bytes next input (none ∷ cs, e) =
      read-Leads (read_size next) (received next) input (cs, unfold run resume step in e)

  fail-Leads : (error : ErrorCode) (input : Bytes) → Leads (fail error) input → ⊥
  unfolding run
  fail-Leads error input (cs, e) = failed_ne e

  pub guard-Leads :
      (c : Bool) (error : SocksErrc) (next : Action) (input : Bytes)
      → Leads (if c then failure error else next) input
      → (c ≡ false) × Leads next input
  guard-Leads false error next input h = (refl, h)
  guard-Leads true error next input h = absurd (fail-Leads (socks_error error) input h)

  pub choose-Leads :
      (c : Bool) (error : SocksErrc) (next : Action) (input : Bytes)
      → Leads (if c then next else failure error) input
      → (c ≡ true) × Leads next input
  choose-Leads true error next input h = (refl, h)
  choose-Leads false error next input h = absurd (fail-Leads (socks_error error) input h)

  -- What the server sends behind the header of its reply.
  abbrev pub EndsWith : ℕ → Bytes → Type 0
  EndsWith n input =
      (high : ℕ) × (low : ℕ) × (rest : Bytes) × (length a ≡ n)
      × (input ≡ a ++ high ∷ low ∷ rest)
      × (p ≡ high * 256 + low)

  pub finish-EndsWith :
      (n : ℕ) (input left : Bytes)
      → n + 2 ≤ length input
      → Leads (finish n (take (n + 2) input)) left
      → EndsWith n input
  unfolding run
  finish-EndsWith n input left h (cs, e) =
      let (address, high, low, rest, size, whole) = split_endpoint n input h in
      let front : take (n + 2) input ≡ address ++ high ∷ low ∷ [] =
        rw (whole, ← size) (take-length_add address (high ∷ low ∷ rest) 2) in
      let ends : finish n (take (n + 2) input) ≡ connected address (high * 256 + low) =
        rw (front, ← size) (finish_lem address high low) in
      let same : endpoint address (high * 256 + low) ≡ endpoint a p =
        ap (λ t. (run s t cs left).1) (sym ends) ∙ e in
      let same_address : address ≡ a = cc in
      let same_port : p ≡ high * 256 + low = cc in
      (
        high,
        low,
        rest,
        sym (ap length same_address) ∙ size,
        whole ∙ ap (λ t. t ++ high ∷ low ∷ rest) same_address,
        same_port,
      )

  pub branch-Leads :
      (c : Bool) (then_do else_do : Action) (input : Bytes)
      → Leads (if c then then_do else else_do) input
      → ((c ≡ true) × Leads then_do input) ⊎ ((c ≡ false) × Leads else_do input)
  branch-Leads true then_do else_do input h = inl (refl, h)
  branch-Leads false then_do else_do input h = inr (refl, h)
