-- ===== src/LineBuffer/Terminator.antt =====
-- Where `next_line` writes the terminator.
use snowcone.Prelude.{
  get_or_front, ℕ, suc, ◌+◌, ◌-◌, ◌≡◌, refl, ap, ◌∙◌, true, false, inl, inr, [], ◌∷◌, ◌++◌,
  append_assoc, arith, Bytes, ltb, lt→ltb, ◌==◌, if◌then◌else◌, length, length-append, set,
  Bool-cases,
}
use snowcone.LineBuffer.{terminator}
use snowcone.LineBuffer.Cut.{set_front, last-cases}

-- A line without the carriage return at its end.
unfoldable pub strip_cr : Bytes → Bytes
strip_cr [] = []
strip_cr (x ∷ []) = if x == b'\r' then [] else x ∷ []
strip_cr (x ∷ y ∷ s) = x ∷ strip_cr (y ∷ s)

strip_cr-snoc :
    (l : Bytes) (c : ℕ) → strip_cr (l ++ c ∷ []) ≡ (if c == b'\r' then l else l ++ c ∷ [])
unfolding strip_cr
strip_cr-snoc [] c = refl
strip_cr-snoc (x ∷ []) c = ground arith
strip_cr-snoc (x ∷ y ∷ l) c = ground (arith, strip_cr-snoc (y ∷ l) c)

-- The terminator is written where the stripped line ends.
module _ (used rest : Bytes) (start nl : ℕ) (at_start : start ≡ length used) where
  terminated_empty :
      nl ≡ length used
      → set (used ++ b'\n' ∷ rest) (terminator (used ++ b'\n' ∷ rest) start nl) 0 ≡ used ++ 0 ∷ rest
  unfolding terminator
  terminated_empty at =
      let not_before : ltb start nl ≡ false = ground arith in
      rw not_before (rw at (set_front used b'\n' 0 rest))

  module _ (l : Bytes) (c : ℕ) (at : nl ≡ suc (length used + length l)) where
    terminator_snoc :
        terminator ((used ++ l) ++ c ∷ b'\n' ∷ rest) start nl
        ≡ (if c == b'\r' then length (used ++ l) else nl)
    unfolding terminator
    terminator_snoc =
        let before : nl - 1 ≡ length (used ++ l) = omega (arith, length-append used l) in
        rw (lt→ltb start nl (omega arith), before, get_or_front (used ++ l) c 0 (b'\n' ∷ rest))

    terminated_cr :
        (c == b'\r') ≡ true
        → set
            ((used ++ l) ++ c ∷ b'\n' ∷ rest)
            (terminator ((used ++ l) ++ c ∷ b'\n' ∷ rest) start nl)
            0
          ≡ (used ++ l) ++ 0 ∷ b'\n' ∷ rest
    terminated_cr e = rw (terminator_snoc, e) (set_front (used ++ l) c 0 (b'\n' ∷ rest))

    terminated_plain :
        (c == b'\r') ≡ false
        → set
            ((used ++ l) ++ c ∷ b'\n' ∷ rest)
            (terminator ((used ++ l) ++ c ∷ b'\n' ∷ rest) start nl)
            0
          ≡ ((used ++ l) ++ c ∷ []) ++ 0 ∷ rest
    terminated_plain e =
        let behind : nl ≡ length ((used ++ l) ++ c ∷ []) =
          omega (arith, length-append (used ++ l) (c ∷ []), length-append used l) in
        rw (terminator_snoc, e)
          (rw behind (
            ap (λ t. set t (length ((used ++ l) ++ c ∷ [])) 0) (simp append_assoc)
            ∙ set_front ((used ++ l) ++ c ∷ []) b'\n' 0 rest))

-- What is left of the line in the buffer, and the bytes between it and the next line.
abbrev pub Cut : Bytes → Bytes → Bytes → ℕ → ℕ → Type 0
Cut used line rest start nl =
    (kept : Bytes) × (gap : Bytes) × (set (used ++ (line ++ b'\n' ∷ rest))
        (terminator (used ++ (line ++ b'\n' ∷ rest)) start nl) 0
      ≡ used ++ (kept ++ 0 ∷ (gap ++ rest)))
    × (kept ≡ strip_cr line)
    × (length kept + length gap ≡ length line)

regroup :
    (used l rest : Bytes) (c : ℕ)
    → used ++ ((l ++ c ∷ []) ++ b'\n' ∷ rest) ≡ (used ++ l) ++ c ∷ b'\n' ∷ rest
regroup used l rest c = simp append_assoc

pub terminated :
    (used line rest : Bytes) (start nl : ℕ)
    → start ≡ length used
    → nl ≡ length used + length line
    → Cut used line rest start nl
terminated used line rest start nl hs hn = elim (last-cases line) [
  | inl e ↦ rw e (
    [],
    [],
    terminated_empty used rest start nl hs (omega (arith, ap length e)),
    unfold strip_cr in refl,
    refl,
  )
  | inr (l, c, e) ↦
      let size = length-append l (c ∷ []) in
      let at : nl ≡ suc (length used + length l) = omega (arith, ap length e) in
      let move = ap (λ t. set t (terminator t start nl) 0) (regroup used l rest c) in
      rw e (elim (Bool-cases (c == b'\r')) [
        | inl cr ↦ (
          l,
          b'\n' ∷ [],
          move ∙ (terminated_cr used rest start nl hs l c at cr ∙ append_assoc used l _),
          rw (strip_cr-snoc l c, cr),
          omega arith,
        )
        | inr plain ↦ (
          l ++ c ∷ [],
          [],
          move ∙ (terminated_plain used rest start nl hs l c at plain ∙ simp append_assoc),
          rw (strip_cr-snoc l c, plain),
          omega arith,
        )
      ])
]
