-- ===== src/LuaText/Tests.antt =====
-- Runs of the bindings.
use snowcone.Prelude.{◌≡◌, refl, codes}
use snowcone.LuaText.{l_irccase}

nick : l_irccase (codes "Glguy{}|^~") ≡ codes "GLGUY[]\\^^"
unfolding l_irccase
nick = refl
