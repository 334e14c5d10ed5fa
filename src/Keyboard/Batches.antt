-- ===== src/Keyboard/Batches.antt =====
-- Where the polls cut the input does not matter, if none cuts off the key behind an escape.
use snowcone.Prelude.{
  ◌⊎◌, inl, inr, ℕ, ◌≡◌, refl, sym, ap, true, false, List, [], ◌∷◌, ◌++◌, append_assoc, append-nil,
}
use snowcone.Keyboard.{
  Terminal, State, keyboard, negated, is_escape, single, read_keys, stdin_thread,
}

abbrev concat : List (List ℕ) → List ℕ
concat [] = []
concat (keys ∷ polls) = keys ++ concat polls

module _ {M : Type 0} (t : Terminal M) where
  pub read_keys_escape :
      (s : State M) (key next : ℕ) (keys : List ℕ)
      → is_escape t s key ≡ true
      → read_keys t s (key ∷ next ∷ keys)
        ≡ ((read_keys t s keys).0, keyboard (negated next) ∷ (read_keys t s keys).1)
  read_keys_escape s key next keys e = unfold read_keys in rw (e, read_keys) refl

  pub read_keys-single :
      (s : State M) (key : ℕ) (keys : List ℕ)
      → is_escape t s key ≡ false
      → let later = read_keys t (single t s key).0 keys in
        read_keys t s (key ∷ keys) ≡ (later.0, (single t s key).1 ++ later.1)
  read_keys-single s key [] e =
      unfold read_keys in
      rw (e, read_keys)
        (ap (λ events. ((single t s key).0, events)) (sym (append-nil (single t s key).1)))
  read_keys-single s key (next ∷ keys) e = unfold read_keys in rw (e, read_keys) refl

  read_keys_nil : (s : State M) → read_keys t s [] ≡ (s, [])
  read_keys_nil s = unfold read_keys in refl

  -- The keys do not end in an escape that takes the next key with it.
  abbrev pub EndsWhole : State M → List ℕ → Type 0
  EndsWhole s [] = Unit
  EndsWhole s (key ∷ []) = is_escape t s key ≡ false
  EndsWhole s (key ∷ next ∷ keys) =
      ((is_escape t s key ≡ true) × EndsWhole s keys)
      ⊎ ((is_escape t s key ≡ false) × EndsWhole (single t s key).0 (next ∷ keys))

  read_keys-append :
      (s : State M) (keys more : List ℕ)
      → EndsWhole s keys
      → let first = read_keys t s keys in
        let later = read_keys t first.0 more in
        read_keys t s (keys ++ more) ≡ (later.0, first.1 ++ later.1)
  read_keys-append s [] more w = rw (read_keys_nil s) refl
  read_keys-append s (key ∷ []) more w =
      rw (read_keys-single s key more w, read_keys-single s key [] w)
        (rw (read_keys_nil (single t s key).0) (rw (append-nil (single t s key).1) refl))
  read_keys-append s (key ∷ next ∷ keys) more (inl (e, w)) =
      rw (read_keys_escape s key next (keys ++ more) e, read_keys_escape s key next keys e)
        (rw (read_keys-append s keys more w) refl)
  read_keys-append s (key ∷ next ∷ keys) more (inr (e, w)) =
      rw (read_keys-single s key (next ∷ (keys ++ more)) e, read_keys-single s key (next ∷ keys) e)
        (rw (read_keys-append (single t s key).0 (next ∷ keys) more w) (rw append_assoc refl))

-- No poll cuts an escape off from its key.
abbrev pub AreWhole : {M : Type 0} → Terminal M → State M → List (List ℕ) → Type 0
AreWhole t s [] = Unit
AreWhole t s (keys ∷ polls) = EndsWhole t s keys × AreWhole t (read_keys t s keys).0 polls

-- The events, and the state behind them, are those of all the keys in one poll, if no poll ends
-- between an escape and its key. In particular a paste may be spread over any number of polls.
pub stdin_thread-read_keys :
    {M : Type 0} (t : Terminal M) (s : State M) (polls : List (List ℕ))
    → AreWhole t s polls
    → stdin_thread t s polls ≡ read_keys t s (concat polls)
stdin_thread-read_keys t s [] w = unfold stdin_thread in refl
stdin_thread-read_keys t s (keys ∷ polls) (w, ws) =
    let ih = stdin_thread-read_keys t (read_keys t s keys).0 polls ws in
    rw (read_keys-append t s keys (concat polls) w) (rw (← ih) (unfold stdin_thread in refl))
