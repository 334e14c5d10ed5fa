-- ===== src/Base64/RoundTrip.antt =====
-- `encode` spells the sextets of its input, and `decode` reads them back.
use Prim.Native.Nat.{bit_or}
use mathlib.Core.List.{filter_map, filter_map-cons-none, filter_map-cons-some}
use snowcone.Prelude.{
  ℕ, ◌+◌, ◌*◌, ◌/◌, ◌%◌, ◌^◌, ◌<◌, ◌≡◌, refl, Bool, true, false, Option, none, some, List, [], ◌∷◌,
  arith, Bytes, IsByte, All, get_or, ◌==◌, all_below, all_below_sound,
}
use snowcone.Prelude.Bits.{bit_or-add, bit_and-low_six}
use snowcone.Base64.{alphabet, value_of, shift_right, extract, encode, decode}
use snowcone.Base64.Groups.{join_groups, sextets}
use snowcone.Base64.Decode.{decode-join_groups}

-- The six bits of each character of the encoding.
split_bytes : Bytes → List ℕ
split_bytes (x ∷ y ∷ z ∷ rest) =
    (x / 4) ∷ (x % 4 * 16 + y / 16) ∷ (y % 16 * 4 + z / 64) ∷ (z % 64) ∷ split_bytes rest
split_bytes (x ∷ y ∷ []) = (x / 4) ∷ (x % 4 * 16 + y / 16) ∷ (y % 16 * 4) ∷ []
split_bytes (x ∷ []) = (x / 4) ∷ (x % 4 * 16) ∷ []
split_bytes [] = []

pub symbol : ℕ → ℕ
unfolding alphabet
symbol v = get_or alphabet v 0

pub extract-symbol : (buffer i : ℕ) → extract buffer i ≡ symbol (shift_right buffer i % 64)
unfolding extract symbol
extract-symbol buffer i = rw (bit_and-low_six (buffer / 2 ^ (6 * i)))

is_value : Option ℕ → ℕ → Bool
is_value none v = false
is_value (some w) v = w == v

is_value→eq : (o : Option ℕ) (v : ℕ) → is_value o v ≡ true → o ≡ some v
unfolding is_value
is_value→eq none v h = cc
is_value→eq (some w) v h = ground arith

symbols_table : all_below 64 (λ v. is_value (value_of (symbol v)) v) ≡ true
unfolding all_below is_value value_of symbol
symbols_table = refl

value_of-symbol : (v : ℕ) → v < 64 → value_of (symbol v) ≡ some v
value_of-symbol v h =
    is_value→eq _ v (all_below_sound 64 (λ v. is_value (value_of (symbol v)) v) v h symbols_table)

cons_symbol :
    (buffer i v : ℕ) (s : Bytes)
    → shift_right buffer i % 64 ≡ v
    → v < 64
    → sextets (extract buffer i ∷ s) ≡ v ∷ sextets s
cons_symbol buffer i v s e h =
    rw (extract-symbol buffer i, e) (filter_map-cons-some value_of _ s (value_of-symbol v h))

padding : (s : Bytes) → sextets (b'=' ∷ s) ≡ sextets s
padding s = filter_map-cons-none value_of b'=' s (unfold value_of in refl)

group_of_three :
    (x y z : ℕ)
    → IsByte x
    → IsByte y
    → IsByte z
    → bit_or (bit_or (x * 2 ^ 16) (y * 2 ^ 8)) z ≡ x * 2 ^ 16 + y * 2 ^ 8 + z
group_of_three x y z hx hy hz =
    let regroup : x * 2 ^ 16 + y * 2 ^ 8 ≡ (x * 2 ^ 8 + y) * 2 ^ 8 = omega arith in
    rw (bit_or-add 16 x (y * 2 ^ 8) (omega arith)) (rw regroup (bit_or-add 8 (x * 2 ^ 8 + y) z hz))

sextets-encode : (s : Bytes) → All IsByte s → sextets (encode s) ≡ split_bytes s
unfolding encode split_bytes
sextets-encode [] h = unfold filter_map in refl
sextets-encode (x ∷ []) h =
    rw
      (
        cons_symbol (x * 2 ^ 10) 2 (x / 4) _ (omega arith) (omega arith),
        cons_symbol (x * 2 ^ 10) 1 (x % 4 * 16) _ (omega arith) (omega arith),
        padding _,
        padding [],
      )
      (unfold filter_map in refl)
sextets-encode (x ∷ y ∷ []) h =
    let whole : bit_or (x * 2 ^ 10) (y * 2 ^ 2) ≡ x * 2 ^ 10 + y * 2 ^ 2 =
      bit_or-add 10 x (y * 2 ^ 2) (omega arith) in
    let n : ℕ = x * 2 ^ 10 + y * 2 ^ 2 in
    rw
      (
        whole,
        cons_symbol n 2 (x / 4) _ (omega arith) (omega arith),
        cons_symbol n 1 (x % 4 * 16 + y / 16) _ (omega arith) (omega arith),
        cons_symbol n 0 (y % 16 * 4) _ (omega arith) (omega arith),
        padding [],
      )
      (unfold filter_map in refl)
sextets-encode (x ∷ y ∷ z ∷ rest) h =
    let n : ℕ = x * 2 ^ 16 + y * 2 ^ 8 + z in
    rw (
      group_of_three x y z h.0 h.1.0 h.1.1.0,
      cons_symbol n 3 (x / 4) _ (omega arith) (omega arith),
      cons_symbol n 2 (x % 4 * 16 + y / 16) _ (omega arith) (omega arith),
      cons_symbol n 1 (y % 16 * 4 + z / 64) _ (omega arith) (omega arith),
      cons_symbol n 0 (z % 64) _ (omega arith) (omega arith),
      sextets-encode rest h.1.1.1,
    )

join_groups-split_bytes : (s : Bytes) → All IsByte s → join_groups (split_bytes s) ≡ (s, true)
unfolding join_groups split_bytes
join_groups-split_bytes [] h = refl
join_groups-split_bytes (x ∷ []) h =
    let first : x / 4 * 4 + x % 4 * 16 / 16 ≡ x = omega arith in rw first
join_groups-split_bytes (x ∷ y ∷ []) h =
    let first : x / 4 * 4 + (x % 4 * 16 + y / 16) / 16 ≡ x = omega arith in
    let second : (x % 4 * 16 + y / 16) % 16 * 16 + y % 16 * 4 / 4 ≡ y = omega arith in
    rw (first, second)
join_groups-split_bytes (x ∷ y ∷ z ∷ rest) h =
    let first : x / 4 * 4 + (x % 4 * 16 + y / 16) / 16 ≡ x = omega arith in
    let second : (x % 4 * 16 + y / 16) % 16 * 16 + (y % 16 * 4 + z / 64) / 4 ≡ y = omega arith in
    let third : (y % 16 * 4 + z / 64) % 4 * 64 + z % 64 ≡ z = omega arith in
    rw (join_groups-split_bytes rest h.1.1.1, first, second, third)

-- Decoding the encoding of any byte string succeeds and gives the byte string back.
pub decode-encode : (s : Bytes) → All IsByte s → decode (encode s) ≡ (s, true)
decode-encode s h =
    rw (decode-join_groups (encode s), sextets-encode s h) (join_groups-split_bytes s h)
