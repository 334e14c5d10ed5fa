-- ===== src/Prelude/Chars.antt =====
-- Byte strings: a `char` is its `uint8_t` value.
use Prim.Native.Char.{code}
use Prim.Native.Nat.{ℕ, ◌<◌}
use mathlib.Core.Path.{◌≡◌, refl}
use mathlib.Core.Bool.{Bool, true, false, not, ◌&&◌}
use native.Mathlib.Omega.{arith}
use snowcone.Prelude.Tests.{◌==◌, ltb}
use Prim.Native.String.{String}
use mathlib.Core.List.{List, [], ◌∷◌}
use mathlib.Core.Logic.{◌≢◌}
use snowcone.Prelude.Lists.{All}

abbrev pub Bytes : Type 0
Bytes = List ℕ

abbrev pub IsByte : ℕ → Type 0
IsByte b = b < 256

-- The code points of a literal, which are its bytes if it is ASCII.
abbrev pub codes : String → Bytes
codes String.[] = []
codes (String.◌∷◌ c s) = code c ∷ codes s

-- The byte `c` does not stand in the text.
abbrev pub Lacks : ℕ → Bytes → Type 0
Lacks c = All (λ x. x ≢ c)

-- Tests by evaluation.
abbrev pub lacks : ℕ → Bytes → Bool
lacks c [] = true
lacks c (x ∷ s) = not (x == c) && lacks c s

abbrev pub are_bytes : Bytes → Bool
are_bytes [] = true
are_bytes (x ∷ s) = ltb x 256 && are_bytes s

pub lacks-Lacks : (c : ℕ) (s : Bytes) → lacks c s ≡ true → Lacks c s
lacks-Lacks c [] h = tt
lacks-Lacks c (x ∷ s) h = (ground arith, lacks-Lacks c s (ground arith))

pub are_bytes-IsByte : (s : Bytes) → are_bytes s ≡ true → All IsByte s
are_bytes-IsByte [] h = tt
are_bytes-IsByte (x ∷ s) h = (ground arith, are_bytes-IsByte s (ground arith))

-- Equality of texts, by evaluation.
abbrev pub same : Bytes → Bytes → Bool
same [] [] = true
same [] (y ∷ t) = false
same (x ∷ s) [] = false
same (x ∷ s) (y ∷ t) = (x == y) && same s t

pub same-eq : (s t : Bytes) → same s t ≡ true → s ≡ t
same-eq [] [] h = refl
same-eq [] (y ∷ t) h = cc
same-eq (x ∷ s) [] h = cc
same-eq (x ∷ s) (y ∷ t) h = ground (arith, same-eq s t)

pub same_self : (s : Bytes) → same s s ≡ true
same_self [] = refl
same_self (x ∷ s) = ground (arith, same_self s)
