-- ===== src/IrcMsg/Print.antt =====
-- The text of a message, and the messages that have one. The program prints no messages itself;
-- this is the specification that the parser is held against.
use snowcone.Prelude.{◌≢◌, List, [], ◌∷◌, ◌++◌, Bytes, All, Lacks}
use snowcone.IrcMsg.{IrcTag, IrcMsg}
use snowcone.IrcMsg.Escape.{escape}

unfoldable pub print_tag : IrcTag → Bytes
print_tag t = t.key ++ b'=' ∷ escape t.val

unfoldable pub print_tags : List IrcTag → Bytes
unfolding print_tag
print_tags [] = []
print_tags (t ∷ []) = print_tag t
print_tags (t ∷ u ∷ ts) = print_tag t ++ b';' ∷ print_tags (u ∷ ts)

unfoldable pub print_args : List Bytes → Bytes
print_args [] = []
print_args (a ∷ []) = b':' ∷ a
print_args (a ∷ b ∷ rest) = a ++ b' ' ∷ print_args (b ∷ rest)

abbrev pub tags_part : List IrcTag → Bytes → Bytes
tags_part [] text = text
tags_part (t ∷ ts) text = b'@' ∷ print_tags (t ∷ ts) ++ b' ' ∷ text

abbrev pub args_part : List Bytes → Bytes
args_part [] = []
args_part (a ∷ rest) = b' ' ∷ print_args (a ∷ rest)

-- The source is always written, so that no command is taken for tags or a source.
unfoldable pub print : IrcMsg → Bytes
print m = tags_part m.tags (b':' ∷ (m.source ++ b' ' ∷ (m.command ++ args_part m.args)))

abbrev pub IsKey : Bytes → Type 0
IsKey k = (k ≢ []) × Lacks b';' k × Lacks b'=' k × Lacks b' ' k

abbrev pub StartsNot : Bytes → Type 0
StartsNot [] = ⊥
StartsNot (c ∷ s) = c ≢ b':'

-- An argument that needs no colon in front of it.
abbrev pub IsMiddle : Bytes → Type 0
IsMiddle a = StartsNot a × Lacks b' ' a

abbrev pub AreArgs : List Bytes → Type 0
AreArgs [] = Unit
AreArgs (a ∷ []) = Unit
AreArgs (a ∷ b ∷ rest) = IsMiddle a × AreArgs (b ∷ rest)

pub record IsWellFormed (m : IrcMsg) : Type 0 where
  pub keys : All (λ t. IsKey t.key) m.tags
  pub source_word : Lacks b' ' m.source
  pub command_given : m.command ≢ []
  pub command_word : Lacks b' ' m.command
  pub args_words : AreArgs m.args
