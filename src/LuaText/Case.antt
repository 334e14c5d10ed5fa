-- ===== src/LuaText/Case.antt =====
-- The case mapping against its description.
use snowcone.Prelude.{
  ℕ, ◌-◌, ◌≡◌, refl, ap, true, ◌&&◌, [], ◌∷◌, map, Bytes, IsByte, All, arith, leb, ◌==◌, ==_iff,
  if◌then◌else◌, get_or, all_below, all_below_sound,
}
use snowcone.LuaText.{charmap, l_irccase}

-- RFC 1459: the upper case of `a` to `z`, and of `{`, `|`, `}` and `~`, which follow them.
unfoldable pub upper : ℕ → ℕ
upper c = if leb 97 c && leb c 126 then c - 32 else c

charmap_table : all_below 256 (λ c. get_or charmap c 0 == upper c) ≡ true
unfolding all_below charmap upper
charmap_table = refl

get_or-charmap : (c : ℕ) → IsByte c → get_or charmap c 0 ≡ upper c
get_or-charmap c h =
    (==_iff (get_or charmap c 0) (upper c)).0
      (all_below_sound 256 (λ c. get_or charmap c 0 == upper c) c h charmap_table)

-- The mapping puts each byte in upper case as RFC 1459 has it.
pub l_irccase-upper : (str : Bytes) → All IsByte str → l_irccase str ≡ map upper str
unfolding l_irccase
l_irccase-upper [] h = refl
l_irccase-upper (c ∷ str) h =
    rw (get_or-charmap c h.0) (ap (λ t. upper c ∷ t) (l_irccase-upper str h.1))

upper-IsByte : (str : Bytes) → All IsByte str → All IsByte (map upper str)
unfolding upper
upper-IsByte [] h = tt
upper-IsByte (c ∷ str) h = (ground (arith, h.0), upper-IsByte str h.1)

upper-upper : (c : ℕ) → upper (upper c) ≡ upper c
unfolding upper
upper-upper c = ground arith

map-upper_twice : (str : Bytes) → map upper (map upper str) ≡ map upper str
map-upper_twice [] = refl
map-upper_twice (c ∷ str) = rw (upper-upper c, map-upper_twice str) refl

-- Normalising twice is normalising once, so the result can serve as a key.
pub l_irccase-l_irccase : (str : Bytes) → All IsByte str → l_irccase (l_irccase str) ≡ l_irccase str
l_irccase-l_irccase str h =
    rw (l_irccase-upper str h, l_irccase-upper (map upper str) (upper-IsByte str h))
      (map-upper_twice str)
