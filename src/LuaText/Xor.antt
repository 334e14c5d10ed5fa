-- ===== src/LuaText/Xor.antt =====
-- The combination is undone by itself, and its size.
use Prim.Native.Nat.{bit_xor}
use snowcone.Prelude.{
  ℕ, ◌+◌, ◌-◌, ◌≡◌, refl, true, [], ◌∷◌, Bytes, IsByte, All, arith, ◌==◌, ==_iff, all_below,
  all_below_sound, length, drop,
}
use snowcone.LuaText.{l_xor}

xor_table : all_below 256 (λ x. all_below 256 (λ y. bit_xor (bit_xor x y) y == x)) ≡ true
unfolding all_below
xor_table = refl

bit_xor-twice : (x y : ℕ) → IsByte x → IsByte y → bit_xor (bit_xor x y) y ≡ x
bit_xor-twice x y h k = (==_iff (bit_xor (bit_xor x y) y) x).0 (
    all_below_sound 256 (λ y. bit_xor (bit_xor x y) y == x) y k
      (all_below_sound 256 (λ x. all_below 256 (λ y. bit_xor (bit_xor x y) y == x)) x h xor_table))

-- Of two texts of one length, combining the first twice with the second gives it back.
pub l_xor-l_xor :
    (s1 s2 : Bytes)
    → All IsByte s1
    → All IsByte s2
    → length s1 ≡ length s2
    → l_xor (l_xor s1 s2) s2 ≡ s1
unfolding l_xor
l_xor-l_xor [] [] h k e = refl
l_xor-l_xor [] (y ∷ s2) h k e = absurd (omega arith)
l_xor-l_xor (x ∷ s1) [] h k e = absurd (omega arith)
l_xor-l_xor (x ∷ s1) (y ∷ s2) h k e =
    rw (bit_xor-twice x y h.0 k.0, l_xor-l_xor s1 s2 h.1 k.1 (omega arith)) refl

drop_all : (s : Bytes) → drop (length s) s ≡ []
drop_all [] = refl
drop_all (x ∷ s) = drop_all s

-- The result is as long as the longer text, and behind the end of either text it is the other one.
pub drop-l_xor :
    (s1 s2 : Bytes)
    → (length (l_xor s1 s2) ≡ length s1 + (length s2 - length s1))
      × (drop (length s1) (l_xor s1 s2) ≡ drop (length s1) s2)
      × (drop (length s2) (l_xor s1 s2) ≡ drop (length s2) s1)
unfolding l_xor
drop-l_xor [] [] = (refl, refl, refl)
drop-l_xor [] (y ∷ s2) = (omega arith, refl, drop_all s2)
drop-l_xor (x ∷ s1) [] = (omega arith, drop_all s1, refl)
drop-l_xor (x ∷ s1) (y ∷ s2) =
    let (size, one, two) = drop-l_xor s1 s2 in (omega (arith, size), one, two)
