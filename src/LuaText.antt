-- ===== src/LuaText.antt =====
-- Two bindings on Lua strings: `l_irccase` of client/applib.cpp and `l_xor` of
-- myopenssl/myopenssl.cpp.
pub mod Case
pub mod Xor
mod Tests
use Prim.Native.Nat.{bit_xor}
use snowcone.Prelude.{ℕ, zero, suc, ◌+◌, List, [], ◌∷◌, ◌++◌, map, Bytes, codes, get_or}

-- The bytes from `first` on that the table writes as hexadecimal escapes.
escapes : ℕ → ℕ → Bytes
escapes first zero = []
escapes first (suc n) = first ∷ escapes (first + 1) n

-- The 256 bytes of the literal.
pub charmap : Bytes
unfolding escapes
charmap =
    escapes 0x00 32
    ++ (codes
          " !\"#$%&'()*+,-./0123456789:;<=>?@ABCDEFGHIJKLMNOPQRSTUVWXYZ[\\]^_`ABCDEFGHIJKLMNOPQRSTUVWXYZ[\\]^"
        ++ escapes 0x7f 129)

pub l_irccase : Bytes → Bytes
unfolding charmap
l_irccase str = map (λ c. get_or charmap c 0) str

-- The common part is combined, and the rest of the longer text is copied.
pub l_xor : Bytes → Bytes → Bytes
l_xor [] s2 = s2
l_xor (x ∷ s1) [] = x ∷ s1
l_xor (x ∷ s1) (y ∷ s2) = bit_xor x y ∷ l_xor s1 s2
