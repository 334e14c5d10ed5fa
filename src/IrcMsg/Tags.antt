-- ===== src/IrcMsg/Tags.antt =====
-- `parse_irc_tags` against a description by cases: the text is split at its semicolons, and each
-- piece is read as one tag.
use snowcone.Prelude.{
  ℕ, zero, suc, ◌<◌, ◌≡◌, ◌≢◌, refl, ◌∙◌, Option, none, some, inl, inr, List, [], ◌∷◌, ◌++◌,
  append_assoc, arith, Bytes, ◌==◌, if◌then◌else◌, Bool-cases, length,
}
use snowcone.IrcMsg.{
  IrcTag, Result, ok, throw, stuck, ◌>>=◌, until, strsep, after_separator, make_tag, parse_tag,
  tags_loop, parse_irc_tags,
}
use snowcone.IrcMsg.Scan.{length-until}

abbrev pub cons_head : ℕ → List Bytes → List Bytes
cons_head x [] = []
cons_head x (p ∷ ps) = (x ∷ p) ∷ ps

-- The pieces between the separators: one more than there are separators.
unfoldable pub split : ℕ → Bytes → List Bytes
split c [] = [] ∷ []
split c (x ∷ s) = let pieces = split c s in if x == c then [] ∷ pieces else cons_head x pieces

-- Each piece is read in turn, and the first error ends it.
unfoldable pub read_all : List Bytes → Result (List IrcTag)
read_all [] = ok []
read_all (p ∷ ps) = do tag ← parse_tag p; tags ← read_all ps; ok (tag ∷ tags)

abbrev pub split_rest : ℕ → Option Bytes → List Bytes
split_rest c none = []
split_rest c (some s) = split c s

pub split-strsep : (c : ℕ) (s : Bytes) → split c s ≡ (strsep c s).0 ∷ split_rest c (strsep c s).1
unfolding split strsep until
split-strsep c [] = refl
split-strsep c (x ∷ s) = elim (Bool-cases (x == c)) [
  | inl e ↦ rw e
  | inr e ↦ rw (e, split-strsep c s)
]

length-after_separator : (t r : Bytes) → after_separator t ≡ some r → length r < length t
length-after_separator [] r e = cc
length-after_separator (x ∷ t) r e = ground (arith)

length-strsep : (c : ℕ) (s r : Bytes) → (strsep c s).1 ≡ some r → length r < length s
unfolding strsep
length-strsep c s r e = omega (arith, length-after_separator (until c s).1 r e, length-until c s)

-- A list of tags behind those that are read already.
abbrev behind : List IrcTag → Result (List IrcTag) → Result (List IrcTag)
behind tags m = m >>= λ more. ok (tags ++ more)

behind-cons :
    (tags : List IrcTag) (tag : IrcTag) (m : Result (List IrcTag))
    → behind (tags ++ tag ∷ []) m ≡ behind tags (m >>= λ more. ok (tag ∷ more))
behind-cons tags tag (ok more) = rw append_assoc
behind-cons tags tag (throw e) = refl
behind-cons tags tag stuck = refl

-- One round, on the piece that `strsep` cuts off.
tags_round :
    (piece : Result IrcTag) (rest : Option Bytes) (fuel : ℕ) (tags : List IrcTag)
    → ((r : Bytes) (done : List IrcTag)
        → rest ≡ some r
        → tags_loop fuel r done ≡ behind done (read_all (split b';' r)))
    → (piece >>= λ tag. elim rest [
      | none ↦ ok (tags ++ tag ∷ [])
      | some more ↦ tags_loop fuel more (tags ++ tag ∷ [])
    ])
      ≡ behind tags (do tag ← piece; more ← read_all (split_rest b';' rest); ok (tag ∷ more))
tags_round (throw e) rest fuel tags ih = refl
tags_round stuck rest fuel tags ih = refl
tags_round (ok tag) none fuel tags ih = unfold read_all in refl
tags_round (ok tag) (some r) fuel tags ih =
    ih r (tags ++ tag ∷ []) refl ∙ behind-cons tags tag (read_all (split b';' r))

tags_loop-read_all :
    (fuel : ℕ) (str : Bytes) (tags : List IrcTag)
    → length str < fuel
    → tags_loop fuel str tags ≡ behind tags (read_all (split b';' str))
unfolding tags_loop read_all
tags_loop-read_all zero str tags h = elim h [ ]
tags_loop-read_all (suc fuel) str tags h = rw (split-strsep b';' str) (
    tags_round (parse_tag (strsep b';' str).0) (strsep b';' str).1 fuel tags
      (λ r done e. tags_loop-read_all fuel r done (omega (arith, length-strsep b';' str r e))))

behind-nil : (m : Result (List IrcTag)) → behind [] m ≡ m
behind-nil (ok more) = refl
behind-nil (throw e) = refl
behind-nil stuck = refl

-- The loop over `strsep` reads, in order, the pieces between the semicolons of the text.
pub parse_irc_tags-read_all : (s : Bytes) → parse_irc_tags s ≡ read_all (split b';' s)
unfolding parse_irc_tags
parse_irc_tags-read_all s =
    tags_loop-read_all (suc (length s)) s [] (omega arith) ∙ behind-nil (read_all (split b';' s))

make_tag-ne-stuck : (key : Bytes) (val : Option Bytes) → make_tag key val ≢ stuck
unfolding make_tag
make_tag-ne-stuck [] val e = cc
make_tag-ne-stuck (k ∷ ks) none e = cc
make_tag-ne-stuck (k ∷ ks) (some v) e = cc

parse_tag-ne-stuck : (s : Bytes) → parse_tag s ≢ stuck
unfolding parse_tag
parse_tag-ne-stuck s = make_tag-ne-stuck (strsep b'=' s).0 (strsep b'=' s).1

read_all-ne-stuck : (ps : List Bytes) → read_all ps ≢ stuck
unfolding read_all
read_all-ne-stuck [] e = cc
read_all-ne-stuck (p ∷ ps) e = ground (arith, parse_tag-ne-stuck p, read_all-ne-stuck ps)

-- The loop ends on every text.
pub parse_irc_tags-ne-stuck : (s : Bytes) → parse_irc_tags s ≢ stuck
parse_irc_tags-ne-stuck s e = read_all-ne-stuck (split b';' s) (rw (← parse_irc_tags-read_all s) e)
