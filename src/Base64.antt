-- ===== src/Base64.antt =====
-- base64/base64.cpp, base64/include/base64.hpp and the Lua bindings of mybase64/mybase64.cpp.
-- A buffer that the code fills through `*output++` is the list of the bytes written so far. The
-- 32-bit `buffer` keeps its wrap-around. The entry -1 of `alphabet_values` is `none`.
pub mod Groups
pub mod Decode
pub mod RoundTrip
pub mod Sizes
mod Tests
use Prim.Native.Nat.{bit_and, bit_or}
use snowcone.Prelude.{
  ℕ, zero, suc, ◌+◌, ◌*◌, ◌/◌, ◌%◌, ◌^◌, Bool, true, false, not, Option, none, some, List, [], ◌∷◌,
  ◌++◌, Bytes, codes, ◌==◌, if◌then◌else◌, get_or, set, replicate, length,
}

pub alphabet : Bytes
alphabet = codes "ABCDEFGHIJKLMNOPQRSTUVWXYZabcdefghijklmnopqrstuvwxyz0123456789+/"

-- `for (auto const k : alphabet) { result[k] = v++; }`
fill_values : Bytes → ℕ → List (Option ℕ) → List (Option ℕ)
fill_values [] v result = result
fill_values (k ∷ ks) v result = fill_values ks (v + 1) (set result k (some v))

pub alphabet_values : List (Option ℕ)
unfolding fill_values alphabet
alphabet_values = fill_values alphabet 0 (replicate 256 none)

pub encoded_size : ℕ → ℕ
encoded_size len = (len + 2) / 3 * 4

pub decoded_size : ℕ → ℕ
decoded_size len = (len + 3) / 4 * 3

-- `buffer >> 6 * i`
abbrev shift_right : ℕ → ℕ → ℕ
shift_right buffer i = buffer / 2 ^ (6 * i)

pub extract : ℕ → ℕ → ℕ
unfolding alphabet
extract buffer i = get_or alphabet (bit_and 0x3f (shift_right buffer i)) 0

-- The three bytes of a full group, and the one or two that are left at the end.
pub encode : Bytes → Bytes
unfolding extract
encode (x ∷ y ∷ z ∷ rest) =
    let buffer = bit_or (bit_or (x * 2 ^ 16) (y * 2 ^ 8)) z in
    extract buffer 3 ∷ extract buffer 2 ∷ extract buffer 1 ∷ extract buffer 0 ∷ encode rest
encode (x ∷ y ∷ []) =
    let buffer = bit_or (x * 2 ^ 10) (y * 2 ^ 2) in
    extract buffer 2 ∷ extract buffer 1 ∷ extract buffer 0 ∷ b'=' ∷ []
encode (x ∷ []) = let buffer = x * 2 ^ 10 in extract buffer 2 ∷ extract buffer 1 ∷ b'=' ∷ b'=' ∷ []
encode [] = []

-- `filled(i)`: whether `buffer >> 6 * i` is not zero.
abbrev filled : ℕ → ℕ → Bool
filled buffer i = not (shift_right buffer i == 0)

-- The conversion to `char` keeps the low eight bits.
abbrev low_byte : ℕ → ℕ
low_byte x = x % 2 ^ 8

-- `buffer << 6 | value`
abbrev push_sextet : ℕ → ℕ → ℕ
push_sextet buffer value = bit_or (buffer * 2 ^ 6 % 2 ^ 32) value

-- `alphabet_values[static_cast<std::uint8_t>(c)]`
pub value_of : ℕ → Option ℕ
unfolding alphabet_values
value_of c = get_or alphabet_values c none

-- One round of the loop of `decode`, with the bytes that it writes.
pub decode_step : ℕ → ℕ → ℕ × Bytes
unfolding value_of
decode_step buffer c = elim (value_of c) [
  | none ↦ (buffer, [])
  | some value ↦
      let next = push_sextet buffer value in
      if filled next 4
      then (1, low_byte (next / 2 ^ 16) ∷ low_byte (next / 2 ^ 8) ∷ low_byte next ∷ [])
      else (next, [])
]

-- The buffer after the loop, and all that the loop wrote.
pub decode_loop : Bytes → ℕ → ℕ × Bytes
unfolding decode_step
decode_loop [] buffer = (buffer, [])
decode_loop (c ∷ input) buffer =
    let (next, written) = decode_step buffer c in
    let (last, more) = decode_loop input next in (last, written ++ more)

-- The code behind the loop. The Boolean says whether a pointer is returned, not `nullptr`.
pub decode_end : ℕ → Bytes × Bool
decode_end buffer =
    let double = buffer * 2 ^ 6 % 2 ^ 32 in
    let quadruple = buffer * 2 ^ 12 % 2 ^ 32 in
    if filled buffer 3
    then (low_byte (double / 2 ^ 16) ∷ low_byte (double / 2 ^ 8) ∷ [], true)
    else if filled buffer 2
    then (low_byte (quadruple / 2 ^ 16) ∷ [], true)
    else if filled buffer 1
    then ([], false)
    else ([], true)

pub decode : Bytes → Bytes × Bool
unfolding decode_loop decode_end
decode input =
    let (buffer, written) = decode_loop input 1 in
    let (rest, success) = decode_end buffer in (written ++ rest, success)

-- `l_to_base64` pushes `encoded_size` bytes of its buffer: `none` if that is not what was written.
pub l_to_base64 : Bytes → Option Bytes
unfolding encode encoded_size
l_to_base64 input =
    let output = encode input in
    if length output == encoded_size (length input) then some output else none

-- `l_from_base64` pushes what was written, or the failure value.
pub l_from_base64 : Bytes → Option Bytes
unfolding decode
l_from_base64 input = let (output, success) = decode input in if success then some output else none
