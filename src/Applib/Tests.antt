-- ===== src/Applib/Tests.antt =====
-- Runs of the bindings.
use snowcone.Prelude.{◌≡◌, refl, Bool, true, false, none, some, [], ◌∷◌, codes, Bytes, pos, neg}
use snowcone.LineBuffer.{until_zero}
use snowcone.Applib.{
  Converted, address, malformed, reloads, endwin, refresh, resize, on_resize, returned, failed,
  l_pton, l_isalnum, signal_thread,
}

-- A converter that knows one address of each family.
abbrev inet_pton : Bool → Bytes → Converted
inet_pton true p = address (0 ∷ 0 ∷ 0 ∷ 0 ∷ 0 ∷ 0 ∷ 0 ∷ 0 ∷ 0 ∷ 0 ∷ 0 ∷ 0 ∷ 0 ∷ 0 ∷ 0 ∷ 1 ∷ [])
inet_pton false [] = malformed
inet_pton false (c ∷ p) = address (127 ∷ 0 ∷ 0 ∷ 1 ∷ 7 ∷ [])

pton_4 : l_pton inet_pton (codes "127.0.0.1") ≡ returned (127 ∷ 0 ∷ 0 ∷ 1 ∷ [])
unfolding l_pton until_zero
pton_4 = refl

pton_bad : l_pton inet_pton [] ≡ failed (codes "pton: bad address")
unfolding l_pton until_zero
pton_bad = refl

alnum :
    (l_isalnum (pos b'z') ≡ some true)
    × (l_isalnum (neg 0) ≡ some false)
    × (l_isalnum (pos 955) ≡ none)
unfolding l_isalnum
alnum = (refl, refl, refl)

signals :
    signal_thread 10 28 (28 ∷ 10 ∷ 1 ∷ []) ≡ endwin ∷ refresh ∷ resize ∷ on_resize ∷ reloads ∷ []
unfolding signal_thread
signals = refl
