-- ===== src/Keyboard/Paste.antt =====
-- A bracketed paste.
use snowcone.Prelude.{
  ℕ, ◌%◌, ◌≡◌, ◌≢◌, refl, sym, ◌∙◌, true, false, List, [], ◌∷◌, ◌++◌, append_assoc, append-nil,
  arith, Bytes, IsByte, All, ◌==◌, ==_ne,
}
use snowcone.Keyboard.{Terminal, State, pasted, single, read_keys, start_paste, end_paste}
use snowcone.Keyboard.Batches.{read_keys-single}

module _ {M : Type 0} (t : Terminal M) (m : M) (n : ℕ) where
  abbrev pub inside : Bytes → State M
  inside p = record { paste = p; in_paste = true; mbstate = m; fetched = n }

  abbrev pub outside : State M
  outside = record { paste = []; in_paste = false; mbstate = m; fetched = n }

  single_byte : (p : Bytes) (x : ℕ) → IsByte x → single t (inside p) x ≡ (inside (p ++ x ∷ []), [])
  unfolding single
  single_byte p x h =
      let other : (x == 513) ≡ false = ground arith in
      let same : x % 256 ≡ x = omega arith in rw (other, same) refl

  single_start : t.key_mouse ≢ start_paste → single t outside start_paste ≡ (inside [], [])
  unfolding single
  single_start h =
      let other : (512 == t.key_mouse) ≡ false = ==_ne 512 t.key_mouse (λ e. h (sym e)) in
      rw other refl

  read_keys-inside :
      (p text : Bytes) (keys : List ℕ)
      → All IsByte text
      → let later = read_keys t outside keys in
        read_keys t (inside p) (text ++ end_paste ∷ keys) ≡ (later.0, pasted (p ++ text) ∷ later.1)
  read_keys-inside p [] keys h =
      rw (append-nil p) (read_keys-single t (inside p) end_paste keys refl ∙ unfold single in refl)
  read_keys-inside p (x ∷ text) keys h =
      read_keys-single t (inside p) x (text ++ end_paste ∷ keys) refl
      ∙ rw (single_byte p x h.0)
          (read_keys-inside (p ++ x ∷ []) text keys h.1 ∙ rw append_assoc refl)

-- Whatever bytes stand between the marks of a paste, escapes and newlines included, they are given
-- to the program as one pasted text, unchanged; what follows is read as if the paste had not been.
pub read_keys-pasted :
    {M : Type 0} (t : Terminal M) (m : M) (n : ℕ) (text : Bytes) (keys : List ℕ)
    → t.key_mouse ≢ start_paste
    → All IsByte text
    → let later = read_keys t (outside t m n) keys in
      read_keys t (outside t m n) (start_paste ∷ (text ++ end_paste ∷ keys))
      ≡ (later.0, pasted text ∷ later.1)
read_keys-pasted t m n text keys h bytes =
    read_keys-single t (outside t m n) start_paste (text ++ end_paste ∷ keys) refl
    ∙ rw (single_start t m n h) (read_keys-inside t m n [] text keys bytes)
