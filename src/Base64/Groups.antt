-- ===== src/Base64/Groups.antt =====
-- `decode` against a description that has no buffer: the sextets that the input spells, in groups
-- of four.
use mathlib.Core.List.{filter_map}
use snowcone.Prelude.{
  ℕ, zero, suc, ◌+◌, ◌*◌, ◌/◌, ◌%◌, ◌^◌, ◌<◌, ◌≡◌, ◌≢◌, refl, Bool, true, false, not, ◌&&◌, ◌==◌,
  Option, none, some, List, [], ◌∷◌, arith, Bytes, ltb, get_or,
}
use snowcone.Prelude.Bits.{bit_or-add}
use snowcone.Base64.{value_of, alphabet_values, push_sextet, decode_step}

-- The bytes of the groups, and whether the last group is none of a single sextet.
unfoldable pub join_groups : List ℕ → Bytes × Bool
join_groups (a ∷ b ∷ c ∷ d ∷ rest) =
    let (bytes, success) = join_groups rest in
    ((a * 4 + b / 16) ∷ (b % 16 * 16 + c / 4) ∷ (c % 4 * 64 + d) ∷ bytes, success)
join_groups (a ∷ b ∷ c ∷ []) = ((a * 4 + b / 16) ∷ (b % 16 * 16 + c / 4) ∷ [], true)
join_groups (a ∷ b ∷ []) = ((a * 4 + b / 16) ∷ [], true)
join_groups (a ∷ []) = ([], false)
join_groups [] = ([], true)

-- The bytes of the alphabet in the input, as sextets. All other bytes are skipped.
abbrev pub sextets : Bytes → List ℕ
sextets = filter_map value_of

small : Option ℕ → Bool
small none = true
small (some v) = ltb v 64

all_small : List (Option ℕ) → Bool
unfolding small
all_small [] = true
all_small (o ∷ os) = small o && all_small os

get_or-small :
    (os : List (Option ℕ)) (i : ℕ) → all_small os ≡ true → small (get_or os i none) ≡ true
unfolding all_small
get_or-small [] i h = refl
get_or-small (o ∷ os) zero h = ground arith
get_or-small (o ∷ os) (suc i) h = get_or-small os i (ground arith)

table-small : all_small alphabet_values ≡ true
unfolding all_small alphabet_values
table-small = refl

value_of-small : (c : ℕ) → small (value_of c) ≡ true
unfolding value_of
value_of-small c = get_or-small alphabet_values c table-small

pub value_of-lt : (c v : ℕ) → value_of c ≡ some v → v < 64
unfolding small
value_of-lt c v h = ground (arith, value_of-small c)

pub push_sextet-add : (b v : ℕ) → b < 2 ^ 26 → v < 64 → push_sextet b v ≡ b * 64 + v
push_sextet-add b v hb hv =
    let fits : b * 2 ^ 6 % 2 ^ 32 ≡ b * 2 ^ 6 = omega arith in rw fits (bit_or-add 6 b v hv)

pub not_zero : (n : ℕ) → n ≢ 0 → not (n == 0) ≡ true
not_zero n h = ground arith

pub is_zero : (n : ℕ) → n ≡ 0 → not (n == 0) ≡ false
is_zero n h = ground arith

module _ (b c v : ℕ) (is_value : value_of c ≡ some v) where
  pub decode_step_keep : b < 2 ^ 18 → decode_step b c ≡ (b * 64 + v, [])
  unfolding decode_step
  decode_step_keep h =
      let lt = value_of-lt c v is_value in
      let empty : not ((b * 64 + v) / 2 ^ (6 * 4) == 0) ≡ false = is_zero _ (omega arith) in
      rw (is_value, decode_step) (rw (push_sextet-add b v (omega arith) lt) (rw empty))

  pub decode_step_flush :
      (n : ℕ)
      → b * 64 + v ≡ 2 ^ 24 + n
      → b < 2 ^ 19
      → decode_step b c ≡ (1, (n / 2 ^ 16) ∷ (n / 2 ^ 8 % 2 ^ 8) ∷ (n % 2 ^ 8) ∷ [])
  unfolding decode_step
  decode_step_flush n e h =
      let lt = value_of-lt c v is_value in
      let full : not ((2 ^ 24 + n) / 2 ^ (6 * 4) == 0) ≡ true = not_zero _ (omega arith) in
      rw (is_value, decode_step)
        (rw (push_sextet-add b v (omega arith) lt) (
          rw e (
            rw full (
              let x : (2 ^ 24 + n) / 2 ^ 16 % 2 ^ 8 ≡ n / 2 ^ 16 = omega arith in
              let y : (2 ^ 24 + n) / 2 ^ 8 % 2 ^ 8 ≡ n / 2 ^ 8 % 2 ^ 8 = omega arith in
              let z : (2 ^ 24 + n) % 2 ^ 8 ≡ n % 2 ^ 8 = omega arith in rw (x, y, z)))))

pub decode_step_skip : (b c : ℕ) → value_of c ≡ none → decode_step b c ≡ (b, [])
unfolding decode_step
decode_step_skip b c e = rw (e, decode_step)
