-- ===== src/LineBuffer/Stable.antt =====
-- What `next_line` leaves as it is. The messages that a session has parsed point into the lines
-- before, while it looks for the next line.
use snowcone.Prelude.{
  ℕ, zero, suc, ◌+◌, ◌≤◌, ◌≡◌, refl, ap, inl, inr, Bool-cases, [], ◌∷◌, arith, Bytes, ◌==◌, set,
  take,
}
use snowcone.LineBuffer.{LineBuffer, next_line, terminator, find, between}
use snowcone.LineBuffer.Layout.{IsValid}

take-set : (n i v : ℕ) (s : Bytes) → n ≤ i → take n (set s i v) ≡ take n s
take-set zero i v s h = refl
take-set (suc n) i v [] h = refl
take-set (suc n) zero v (x ∷ s) h = absurd (omega arith)
take-set (suc n) (suc i) v (x ∷ s) h = ap (λ t. x ∷ t) (take-set n i v s (omega arith))

le-terminator : (s : Bytes) (start nl : ℕ) → start ≤ nl → start ≤ terminator s start nl
unfolding terminator
le-terminator s start nl h = ground arith

-- `next_line` changes no byte in front of the line that it returns.
pub take-next_line :
    (b : LineBuffer) (n : ℕ)
    → IsValid b
    → n ≤ b.start
    → (take n (next_line b).1.buffer ≡ take n b.buffer) × (n ≤ (next_line b).1.start)
unfolding next_line
take-next_line b n v h =
    let nl : ℕ = b.search + find b'\n' (between b.buffer b.search b.finish) in
    elim (Bool-cases (nl == b.finish)) [
      | inl e ↦ rw e (refl, h)
      | inr e ↦
          let behind : b.start ≤ terminator b.buffer b.start nl =
            le-terminator b.buffer b.start nl (omega arith) in
          rw e (take-set n (terminator b.buffer b.start nl) 0 b.buffer (omega arith), omega arith)
    ]
