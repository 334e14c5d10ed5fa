-- ===== src/LineBuffer/Cut.antt =====
-- Cutting a buffer at its iterators and putting it together again.
use snowcone.Prelude.{
  ℕ, zero, suc, ◌+◌, ◌-◌, ◌≤◌, ◌≡◌, refl, ap, ◌⊎◌, inl, inr, List, [], ◌∷◌, ◌++◌, arith, Bytes,
  length, set, drop, take-append-drop, take_front, drop_front, Lacks, ==_ne, ==_self,
}
use snowcone.LineBuffer.{between, find, until_zero}

module _ {ℓ} {A : Type ℓ} where
  drop-nil : (n : ℕ) → drop n (let none_left : List A = [] in none_left) ≡ []
  drop-nil zero = refl
  drop-nil (suc n) = refl

  pub drop-drop : (m n : ℕ) (xs : List A) → drop m (drop n xs) ≡ drop (n + m) xs
  drop-drop m zero xs = let e : 0 + m ≡ m = omega arith in rw e
  drop-drop m (suc n) [] = rw (drop-nil m, drop-nil (suc n + m))
  drop-drop m (suc n) (x ∷ xs) =
      let e : suc n + m ≡ suc (n + m) = omega arith in rw e (drop-drop m n xs)

  pub set_front :
      (xs : List A) (x v : A) (ys : List A) → set (xs ++ x ∷ ys) (length xs) v ≡ xs ++ v ∷ ys
  set_front [] x v ys = refl
  set_front (y ∷ xs) x v ys = ap (λ t. y ∷ t) (set_front xs x v ys)

  pub last-cases : (xs : List A) → (xs ≡ []) ⊎ ((l : List A) × (c : A) × (xs ≡ l ++ c ∷ []))
  last-cases [] = inl refl
  last-cases (x ∷ xs) = elim (last-cases xs) [
    | inl e ↦ inr ([], x, rw e)
    | inr (l, c, e) ↦ inr (x ∷ l, c, rw e)
  ]

pub between-append :
    (buffer : Bytes) (i j : ℕ) → i ≤ j → between buffer i j ++ drop j buffer ≡ drop i buffer
between-append buffer i j h =
    let whole : i + (j - i) ≡ j = omega arith in
    let e : drop j buffer ≡ drop (j - i) (drop i buffer) = rw (drop-drop (j - i) i buffer, whole) in
    rw e (take-append-drop (j - i) (drop i buffer))

-- What stands between two lists' ends.
pub between_middle :
    (pre mid rest : Bytes) (i j : ℕ)
    → i ≡ length pre
    → j ≡ length pre + length mid
    → between (pre ++ (mid ++ rest)) i j ≡ mid
between_middle pre mid rest i j hi hj =
    let size : length pre + length mid - length pre ≡ length mid = omega arith in
    rw (hi, hj, size, drop_front pre (mid ++ rest)) (take_front mid rest)

pub find_none : (c : ℕ) (s : Bytes) → Lacks c s → find c s ≡ length s
unfolding find
find_none c [] h = refl
find_none c (x ∷ s) h = rw (==_ne x c h.0, find_none c s h.1)

pub find_at : (c : ℕ) (s rest : Bytes) → Lacks c s → find c (s ++ c ∷ rest) ≡ length s
unfolding find
find_at c [] rest h = rw (==_self c)
find_at c (x ∷ s) rest h = rw (==_ne x c h.0, find_at c s rest h.1)

-- The first `c` of a text, behind a part that holds none.
pub first_at :
    (c : ℕ) (seen unseen line rest : Bytes)
    → Lacks c seen
    → seen ++ unseen ≡ line ++ c ∷ rest
    → (u : Bytes) × (line ≡ seen ++ u) × (unseen ≡ u ++ c ∷ rest)
first_at c [] unseen line rest h e = (line, refl, e)
first_at c (x ∷ seen) unseen [] rest h e = absurd (h.0 (cc))
first_at c (x ∷ seen) unseen (y ∷ line) rest h e =
    let (u, here, there) = first_at c seen unseen line rest h.1 (cc) in
    let same : y ≡ x = cc in (u, cc (same, here), there)

pub until_zero_at : (s rest : Bytes) → until_zero (s ++ 0 ∷ rest) ≡ until_zero s
unfolding until_zero
until_zero_at [] rest = refl
until_zero_at (x ∷ s) rest = rw (until_zero_at s rest)
