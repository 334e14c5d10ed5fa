-- ===== src/Connect/Encodings.antt =====
-- The digest and the protocol names can be read back from what is written.
use snowcone.Prelude.{
  ℕ, zero, suc, ◌+◌, ◌-◌, ◌*◌, ◌/◌, ◌%◌, ◌≤◌, ◌<◌, ◌≡◌, refl, true, false, Option, none, some, List,
  [], ◌∷◌, ◌++◌, Bytes, IsByte, All, arith, ◌==◌, ==_iff, ltb, if◌then◌else◌, get_or, length,
  length-append, take, drop, take_front, drop_front, all_below, all_below_sound,
}
use snowcone.Connect.{hex, hex_digits, alpn_encode}

abbrev digit_value : ℕ → ℕ
digit_value c = if ltb c 58 then c - 48 else c - 87

unfoldable pub unhex : Bytes → Bytes
unhex [] = []
unhex (x ∷ []) = []
unhex (high ∷ low ∷ s) = (digit_value high * 16 + digit_value low) ∷ unhex s

digits_table : all_below 16 (λ n. digit_value (get_or hex_digits n 0) == n) ≡ true
unfolding all_below
digits_table = refl

digit_value-hex_digits : (n : ℕ) → n < 16 → digit_value (get_or hex_digits n 0) ≡ n
digit_value-hex_digits n h =
    (==_iff (digit_value (get_or hex_digits n 0)) n).0
      (all_below_sound 16 (λ n. digit_value (get_or hex_digits n 0) == n) n h digits_table)

-- The text of a digest determines the digest: two hexadecimal digits stand for each byte.
pub unhex-hex : (md : Bytes) → All IsByte md → unhex (hex md) ≡ md
unfolding hex unhex
unhex-hex [] h = refl
unhex-hex (b ∷ md) h =
    let high = digit_value-hex_digits (b / 16 % 16) (omega arith) in
    let low = digit_value-hex_digits (b % 16) (omega arith) in
    let same : b / 16 % 16 * 16 + b % 16 ≡ b = omega (arith, h.0) in
    rw (high, low) (rw (same, unhex-hex md h.1) refl)

abbrev cons : Bytes → Option (List Bytes) → Option (List Bytes)
cons p none = none
cons p (some ps) = some (p ∷ ps)

-- A reader of the format of the ALPN extension.
unfoldable pub alpn_read : ℕ → Bytes → Option (List Bytes)
alpn_read fuel [] = some []
alpn_read zero (n ∷ s) = none
alpn_read (suc fuel) (n ∷ s) =
    let rest = alpn_read fuel (drop n s) in if ltb (length s) n then none else cons (take n s) rest

-- The names are read back from their encoding, one for each round of the reader.
pub alpn_read-alpn_encode :
    (fuel : ℕ) (protocols : List Bytes)
    → length (alpn_encode protocols) ≤ fuel
    → alpn_read fuel (alpn_encode protocols) ≡ some protocols
unfolding alpn_read alpn_encode
alpn_read-alpn_encode fuel [] h = refl
alpn_read-alpn_encode zero (p ∷ ps) h = absurd (omega arith)
alpn_read-alpn_encode (suc fuel) (p ∷ ps) h =
    let rest : Bytes = alpn_encode ps in
    let enough : ltb (length (p ++ rest)) (length p) ≡ false =
      ground (arith, length-append p rest) in
    rw (enough, take_front p rest, drop_front p rest)
      (rw (alpn_read-alpn_encode fuel ps (omega (arith, length-append p rest))) refl)
