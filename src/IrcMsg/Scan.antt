-- ===== src/IrcMsg/Scan.antt =====
-- How the scanners cut a text: `until`, `trim`, `word` and `strsep`.
use snowcone.Prelude.{
  ℕ, ◌+◌, ◌≤◌, ◌<◌, ◌≡◌, ◌≢◌, refl, inl, inr, none, some, [], ◌∷◌, ◌++◌, arith, Bytes, ◌==◌,
  Bool-cases, length, length-append, All, All-of_append, Lacks,
}
use snowcone.IrcMsg.{until, trim, word, after_word, strsep}

module _ (c : ℕ) where
  pub until_append : (s : Bytes) → (until c s).0 ++ (until c s).1 ≡ s
  unfolding until
  until_append [] = refl
  until_append (x ∷ s) = ground (arith, until_append s)

  pub until-Lacks : (s : Bytes) → Lacks c (until c s).0
  unfolding until
  until-Lacks [] = tt
  until-Lacks (x ∷ s) = ground (arith, until-Lacks s)

  pub until_all : (s : Bytes) → Lacks c s → until c s ≡ (s, [])
  unfolding until
  until_all [] h = refl
  until_all (x ∷ s) h = ground (arith, until_all s h.1)

  pub until_at : (s rest : Bytes) → Lacks c s → until c (s ++ c ∷ rest) ≡ (s, c ∷ rest)
  unfolding until
  until_at [] rest h = ground arith
  until_at (x ∷ s) rest h = ground (arith, until_at s rest h.1)

  -- What a split leaves keeps every property of the bytes.
  pub until-All {κ} :
      (P : ℕ → Type κ) (s : Bytes) → All P s → All P (until c s).0 × All P (until c s).1
  until-All P s h = All-of_append P _ _ (rw (until_append s) h)

  pub length-until : (s : Bytes) → length (until c s).0 + length (until c s).1 ≡ length s
  length-until s = rw (← length-append (until c s).0 (until c s).1) (rw (until_append s))

pub trim-All {κ} : (P : ℕ → Type κ) (s : Bytes) → All P s → All P (trim s)
unfolding trim
trim-All P [] h = h
trim-All P (x ∷ s) h = elim (Bool-cases (x == b' ')) [
  | inl e ↦ rw e (trim-All P s h.1)
  | inr e ↦ rw e h
]

pub length-trim-le : (s : Bytes) → length (trim s) ≤ length s
unfolding trim
length-trim-le [] = omega arith
length-trim-le (x ∷ s) = ground (arith, length-trim-le s)

-- A text that does not begin with a space.
abbrev pub IsTrim : Bytes → Type 0
IsTrim [] = Unit
IsTrim (x ∷ s) = x ≢ b' '

pub trim-IsTrim : (s : Bytes) → IsTrim (trim s)
unfolding trim
trim-IsTrim [] = tt
trim-IsTrim (x ∷ s) = elim (Bool-cases (x == b' ')) [
  | inl e ↦ rw e (trim-IsTrim s)
  | inr e ↦ rw e (λ eq. ground arith)
]

pub trim_of_IsTrim : (s : Bytes) → IsTrim s → trim s ≡ s
unfolding trim
trim_of_IsTrim [] h = refl
trim_of_IsTrim (x ∷ s) h = ground arith

pub after_word-All {κ} : (P : ℕ → Type κ) (s : Bytes) → All P s → All P (after_word s)
after_word-All P [] h = h
after_word-All P (x ∷ s) h = trim-All P s h.1

pub after_word-IsTrim : (s : Bytes) → IsTrim (after_word s)
after_word-IsTrim [] = tt
after_word-IsTrim (x ∷ s) = trim-IsTrim s

length-after_word : (s : Bytes) → length (after_word s) ≤ length s
length-after_word [] = omega arith
length-after_word (x ∷ s) = omega (arith, length-trim-le s)

pub word-Lacks : (s : Bytes) → Lacks b' ' (word s).0
unfolding word
word-Lacks s = until-Lacks b' ' s

pub word-All {κ} : (P : ℕ → Type κ) (s : Bytes) → All P s → All P (word s).0 × All P (word s).1
unfolding word
word-All P s h =
    let parts = until-All b' ' P s h in (parts.0, after_word-All P (until b' ' s).1 parts.1)

pub word-IsTrim : (s : Bytes) → IsTrim (word s).1
unfolding word
word-IsTrim s = after_word-IsTrim (until b' ' s).1

-- A word in front of a text, with the one space that separates them.
pub word_at : (s rest : Bytes) → Lacks b' ' s → IsTrim rest → word (s ++ b' ' ∷ rest) ≡ (s, rest)
unfolding word
word_at s rest h t = rw (until_at b' ' s rest h) (rw (trim_of_IsTrim rest t))

pub word_all : (s : Bytes) → Lacks b' ' s → word s ≡ (s, [])
unfolding word
word_all s h = rw (until_all b' ' s h)

-- Every word takes something from a text that is not empty.
pub word_shrinks : (x : ℕ) (s : Bytes) → length (word (x ∷ s)).1 < length (x ∷ s)
unfolding word
word_shrinks x s = elim (Bool-cases (x == b' ')) [
  | inl e ↦ unfold until in rw e (omega (arith, length-trim-le s))
  | inr e ↦
      unfold until in rw e (omega (arith, length-after_word (until b' ' s).1, length-until b' ' s))
]

pub strsep_at : (c : ℕ) (s rest : Bytes) → Lacks c s → strsep c (s ++ c ∷ rest) ≡ (s, some rest)
unfolding strsep
strsep_at c s rest h = rw (until_at c s rest h)

pub strsep_all : (c : ℕ) (s : Bytes) → Lacks c s → strsep c s ≡ (s, none)
unfolding strsep
strsep_all c s h = rw (until_all c s h)

pub strsep-Lacks : (c : ℕ) (s : Bytes) → Lacks c (strsep c s).0
unfolding strsep
strsep-Lacks c s = until-Lacks c s

pub strsep-All {κ} : (c : ℕ) (P : ℕ → Type κ) (s : Bytes) → All P s → All P (strsep c s).0
unfolding strsep
strsep-All c P s h = (until-All c P s h).0
