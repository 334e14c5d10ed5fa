-- ===== src/Base64/Sizes.antt =====
-- What the two codecs write stays within the sizes that their callers allocate.
use mathlib.Core.List.{filter_map, filter_map-cons-none, filter_map-cons-some}
use snowcone.Prelude.{
  ℕ, ◌+◌, ◌*◌, ◌/◌, ◌%◌, ◌≤◌, ◌≡◌, ◌↔◌, refl, false, inl, inr, some, List, [], ◌∷◌, arith, Bytes,
  length, ==_self, Option-cases,
}
use snowcone.Base64.{value_of, encode, decode, encoded_size, decoded_size, l_to_base64}
use snowcone.Base64.Groups.{join_groups, sextets}
use snowcone.Base64.Decode.{decode-join_groups}

-- `encode` writes exactly the number of bytes that `encoded_size` tells its callers to allocate.
pub length-encode : (s : Bytes) → length (encode s) ≡ encoded_size (length s)
unfolding encode encoded_size
length-encode [] = refl
length-encode (x ∷ []) = refl
length-encode (x ∷ y ∷ []) = refl
length-encode (x ∷ y ∷ z ∷ rest) = omega (arith, length-encode rest)

-- So the Lua binding always pushes the whole encoding.
pub l_to_base64-encode : (s : Bytes) → l_to_base64 s ≡ some (encode s)
unfolding l_to_base64
l_to_base64-encode s = rw (length-encode s) (rw (==_self (encoded_size (length s))))

length-sextets-le : (s : Bytes) → length (sextets s) ≤ length s
length-sextets-le [] = unfold filter_map in omega arith
length-sextets-le (c ∷ s) = elim (Option-cases (value_of c)) [
  | inl e ↦ rw (filter_map-cons-none value_of c s e) (omega (arith, length-sextets-le s))
  | inr (v, e) ↦ rw (filter_map-cons-some value_of c s e) (omega (arith, length-sextets-le s))
]

length-join_groups-le : (p : List ℕ) → length (join_groups p).0 ≤ (length p + 3) / 4 * 3
unfolding join_groups
length-join_groups-le [] = omega arith
length-join_groups-le (a ∷ []) = omega arith
length-join_groups-le (a ∷ b ∷ []) = omega arith
length-join_groups-le (a ∷ b ∷ c ∷ []) = omega arith
length-join_groups-le (a ∷ b ∷ c ∷ d ∷ p) = omega (arith, length-join_groups-le p)

-- Whatever the input, malformed input included, `decode` writes no more bytes than
-- `decoded_size` tells its callers to allocate.
pub length-decode-le : (s : Bytes) → length (decode s).0 ≤ decoded_size (length s)
unfolding decoded_size
length-decode-le s =
    rw (decode-join_groups s)
      (omega (arith, length-join_groups-le (sextets s), length-sextets-le s))

join_groups_fails : (p : List ℕ) → ((join_groups p).1 ≡ false) ↔ (length p % 4 ≡ 1)
unfolding join_groups
join_groups_fails [] = ground arith
join_groups_fails (a ∷ []) = ground arith
join_groups_fails (a ∷ b ∷ []) = ground arith
join_groups_fails (a ∷ b ∷ c ∷ []) = ground arith
join_groups_fails (a ∷ b ∷ c ∷ d ∷ p) =
    let ih = join_groups_fails p in ((λ e. omega (arith, ih.0 e)), (λ e. ih.1 (omega (arith))))

-- `decode` fails exactly if the number of alphabet bytes in the input is one more than a multiple
-- of four.
pub decode_fails : (s : Bytes) → ((decode s).1 ≡ false) ↔ (length (sextets s) % 4 ≡ 1)
decode_fails s = rw (decode-join_groups s) (join_groups_fails (sextets s))
