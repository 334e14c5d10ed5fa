-- ===== src/Base64/Decode.antt =====
-- `decode` against `join_groups`: the loop's buffer is followed through every state.
use mathlib.Core.List.{filter_map, foldl, filter_map-cons-none, filter_map-cons-some}
use snowcone.Prelude.{
  ℕ, ◌+◌, ◌*◌, ◌/◌, ◌%◌, ◌^◌, ◌<◌, ◌≡◌, ◌≢◌, refl, Bool, true, false, none, some, inl, inr, List,
  [], ◌∷◌, ◌++◌, append_assoc, append-nil, arith, Bytes, length, All, Option-cases,
}
use snowcone.Base64.{value_of, decode_step, decode_loop, decode_end, decode}
use snowcone.Base64.Groups.{
  join_groups, sextets, value_of-lt, not_zero, is_zero, decode_step_keep, decode_step_flush,
  decode_step_skip,
}

-- `decode`, from any buffer on.
decode_from : Bytes → ℕ → Bytes × Bool
unfolding decode_loop
decode_from input buffer =
    let (last, written) = decode_loop input buffer in
    let (rest, success) = decode_end last in (written ++ rest, success)

decode_from-step :
    (c : ℕ) (s : Bytes) (b n : ℕ) (w : Bytes)
    → decode_step b c ≡ (n, w)
    → decode_from (c ∷ s) b ≡ (w ++ (decode_from s n).0, (decode_from s n).1)
unfolding decode_from
decode_from-step c s b n w e = rw (e, decode_loop) (rw append_assoc)

-- The buffer that holds the sextets of an unfinished group behind its marker bit.
hold : List ℕ → ℕ
hold = foldl (λ b v. b * 64 + v) 1

module _ (c : ℕ) (s : Bytes) (p : List ℕ) where
  skip_byte :
      value_of c ≡ none
      → decode_from s (hold p) ≡ join_groups (p ++ sextets s)
      → decode_from (c ∷ s) (hold p) ≡ join_groups (p ++ sextets (c ∷ s))
  skip_byte e ih =
      rw
        (
          decode_from-step c s (hold p) _ [] (decode_step_skip _ c e),
          filter_map-cons-none value_of c s e,
        )
        ih

  keep_byte :
      (v : ℕ)
      → value_of c ≡ some v
      → hold p < 2 ^ 18
      → decode_from s (hold p * 64 + v) ≡ join_groups (p ++ v ∷ sextets s)
      → decode_from (c ∷ s) (hold p) ≡ join_groups (p ++ sextets (c ∷ s))
  keep_byte v e h ih =
      rw
        (
          decode_from-step c s (hold p) _ [] (decode_step_keep _ c v e h),
          filter_map-cons-some value_of c s e,
        )
        ih

  flush_bytes :
      (x y z v : ℕ)
      → p ≡ x ∷ y ∷ z ∷ []
      → (x < 64) × (y < 64) × (z < 64)
      → value_of c ≡ some v
      → decode_from s 1 ≡ join_groups (sextets s)
      → decode_from (c ∷ s) (hold p) ≡ join_groups (p ++ sextets (c ∷ s))
  unfolding hold join_groups
  flush_bytes x y z v p_is h e ih =
      let lt = value_of-lt c v e in
      let n : ℕ = x * 2 ^ 18 + y * 2 ^ 12 + z * 2 ^ 6 + v in
      let first : n / 2 ^ 16 ≡ x * 4 + y / 16 = omega arith in
      let second : n / 2 ^ 8 % 2 ^ 8 ≡ y % 16 * 16 + z / 4 = omega arith in
      let third : n % 2 ^ 8 ≡ z % 4 * 64 + v = omega arith in
      let b : ℕ = ((64 + x) * 64 + y) * 64 + z in
      rw p_is (
        rw (
          decode_from-step c s b 1 _ (decode_step_flush b c v e n (omega arith) (omega arith)),
          filter_map-cons-some value_of c s e,
          ih,
          first,
          second,
          third,
        ))

module _ (b : ℕ) where
  end_of_three :
      b / 2 ^ 18 ≢ 0
      → decode_end b
        ≡ ((b * 2 ^ 6 % 2 ^ 32 / 2 ^ 16 % 2 ^ 8) ∷ (b * 2 ^ 6 % 2 ^ 32 / 2 ^ 8 % 2 ^ 8) ∷ [], true)
  unfolding decode_end
  end_of_three h = rw (not_zero _ h, decode_end)

  end_of_two :
      b / 2 ^ 18 ≡ 0
      → b / 2 ^ 12 ≢ 0
      → decode_end b ≡ ((b * 2 ^ 12 % 2 ^ 32 / 2 ^ 16 % 2 ^ 8) ∷ [], true)
  unfolding decode_end
  end_of_two e h = rw (is_zero _ e, not_zero _ h, decode_end)

  end_of_one : b / 2 ^ 12 ≡ 0 → b / 2 ^ 6 ≢ 0 → decode_end b ≡ ([], false)
  unfolding decode_end
  end_of_one e h =
      let none_of_three : b / 2 ^ 18 ≡ 0 = omega arith in
      rw (is_zero _ none_of_three, is_zero _ e, not_zero _ h, decode_end)

decode_end-join :
    (p : List ℕ) → All (λ v. v < 64) p → length p < 4 → decode_end (hold p) ≡ join_groups p
unfolding join_groups hold
decode_end-join [] h l = unfold decode_end in refl
decode_end-join (a ∷ []) h l = end_of_one (64 + a) (omega arith) (omega arith)
decode_end-join (a ∷ b ∷ []) h l =
    let k : ℕ = (64 + a) * 64 + b in
    let first : k * 2 ^ 12 % 2 ^ 32 / 2 ^ 16 % 2 ^ 8 ≡ a * 4 + b / 16 = omega arith in
    rw (end_of_two k (omega arith) (omega arith), first)
decode_end-join (a ∷ b ∷ c ∷ []) h l =
    let k : ℕ = ((64 + a) * 64 + b) * 64 + c in
    let first : k * 2 ^ 6 % 2 ^ 32 / 2 ^ 16 % 2 ^ 8 ≡ a * 4 + b / 16 = omega arith in
    let second : k * 2 ^ 6 % 2 ^ 32 / 2 ^ 8 % 2 ^ 8 ≡ b % 16 * 16 + c / 4 = omega arith in
    rw (end_of_three k (omega arith), first, second)
decode_end-join (a ∷ b ∷ c ∷ d ∷ p) h l = absurd (omega arith)

value_byte :
    (c : ℕ) (s : Bytes) (p : List ℕ) (v : ℕ)
    → value_of c ≡ some v
    → All (λ v. v < 64) p
    → length p < 4
    → v < 64
    → ((q : List ℕ)
        → All (λ v. v < 64) q
        → length q < 4
        → decode_from s (hold q) ≡ join_groups (q ++ sextets s))
    → decode_from (c ∷ s) (hold p) ≡ join_groups (p ++ sextets (c ∷ s))
unfolding hold
value_byte c s [] v e h l lt ih =
    keep_byte c s [] v e (omega arith) (ih (v ∷ []) (omega arith) (omega arith))
value_byte c s (x ∷ []) v e h l lt ih =
    keep_byte c s (x ∷ []) v e (omega arith) (ih (x ∷ v ∷ []) (omega arith) (omega arith))
value_byte c s (x ∷ y ∷ []) v e h l lt ih =
    keep_byte c s (x ∷ y ∷ []) v e (omega arith) (ih (x ∷ y ∷ v ∷ []) (omega arith) (omega arith))
value_byte c s (x ∷ y ∷ z ∷ []) v e h l lt ih =
    flush_bytes c s _ x y z v refl (omega arith) e (ih [] tt (omega arith))
value_byte c s (x ∷ y ∷ z ∷ d ∷ p) v e h l lt ih = absurd (omega arith)

-- The loop with an unfinished group, which `hold` puts in the buffer.
decode_from-join :
    (s : Bytes) (p : List ℕ)
    → All (λ v. v < 64) p
    → length p < 4
    → decode_from s (hold p) ≡ join_groups (p ++ sextets s)
unfolding decode_from filter_map
decode_from-join [] p h l = rw append-nil (decode_end-join p h l)
decode_from-join (c ∷ s) p h l = elim (Option-cases (value_of c)) [
  | inl e ↦ skip_byte c s p e (decode_from-join s p h l)
  | inr (v, e) ↦ value_byte c s p v e h l (value_of-lt c v e) (decode_from-join s)
]

-- `decode` gives the bytes of the sextets' groups of four, a last group of two or three being
-- allowed, and it reports failure exactly if one sextet is left over.
pub decode-join_groups : (input : Bytes) → decode input ≡ join_groups (sextets input)
unfolding decode
decode-join_groups input = unfold decode_from hold in decode_from-join input [] tt (omega arith)
