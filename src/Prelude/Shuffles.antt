-- ===== src/Prelude/Shuffles.antt =====
-- Lists in another order.
use Prim.Native.Nat.{suc}
use mathlib.Core.Path.{◌≡◌, refl, sym, ap, ◌∙◌}
use mathlib.Core.Logic.{◌≢◌, ◌⊎◌, inl, inr}
use mathlib.Core.List.{List, [], ◌∷◌, ◌++◌, map}
use snowcone.Prelude.Lists.{All, length}

pub data Shuffle {ℓ} {A : Type ℓ} : List A → List A → Type ℓ where
  nothing : Shuffle [] []
  keep : (x : A) {xs ys : List A} → Shuffle xs ys → Shuffle (x ∷ xs) (x ∷ ys)
  exchange : (x y : A) (xs : List A) → Shuffle (x ∷ y ∷ xs) (y ∷ x ∷ xs)
  both : {xs ys zs : List A} → Shuffle xs ys → Shuffle ys zs → Shuffle xs zs

pub Shuffle_self {ℓ} : {A : Type ℓ} (xs : List A) → Shuffle xs xs
Shuffle_self [] = nothing
Shuffle_self (x ∷ xs) = keep x (Shuffle_self xs)

module _ {ℓ} {A : Type ℓ} where
  pub Shuffle-length : {xs ys : List A} → Shuffle xs ys → length ys ≡ length xs
  Shuffle-length nothing = refl
  Shuffle-length (keep x s) = ap suc (Shuffle-length s)
  Shuffle-length (exchange x y xs) = refl
  Shuffle-length (both s t) = Shuffle-length t ∙ Shuffle-length s

  pub Shuffle-All {κ} : (P : A → Type κ) {xs ys : List A} → Shuffle xs ys → All P xs → All P ys
  Shuffle-All P nothing h = h
  Shuffle-All P (keep x s) (p, h) = (p, Shuffle-All P s h)
  Shuffle-All P (exchange x y xs) (p, (q, h)) = (q, (p, h))
  Shuffle-All P (both s t) h = Shuffle-All P t (Shuffle-All P s h)

module _ {A : Type 0} where
  -- The list holds the item.
  abbrev pub Holds : List A → A → Type 0
  Holds [] a = ⊥
  Holds (x ∷ xs) a = (x ≡ a) ⊎ Holds xs a

  pub Shuffle-Holds : {xs ys : List A} (a : A) → Shuffle xs ys → Holds xs a → Holds ys a
  Shuffle-Holds a nothing h = h
  Shuffle-Holds a (keep x s) (inl e) = inl e
  Shuffle-Holds a (keep x s) (inr h) = inr (Shuffle-Holds a s h)
  Shuffle-Holds a (exchange x y xs) (inl e) = inr (inl e)
  Shuffle-Holds a (exchange x y xs) (inr (inl e)) = inl e
  Shuffle-Holds a (exchange x y xs) (inr (inr h)) = inr (inr h)
  Shuffle-Holds a (both s t) h = Shuffle-Holds a t (Shuffle-Holds a s h)

-- No two items have the same key.
module _ {ℓ κ} {A : Type ℓ} {K : Type κ} (key : A → K) where
  abbrev pub Distinct : List A → Type κ
  Distinct [] = Unit
  Distinct (x ∷ xs) = All (λ y. key y ≢ key x) xs × Distinct xs

  pub Shuffle-Distinct : {xs ys : List A} → Shuffle xs ys → Distinct xs → Distinct ys
  Shuffle-Distinct nothing h = h
  Shuffle-Distinct (keep x s) (p, h) = (Shuffle-All (λ y. key y ≢ key x) s p, Shuffle-Distinct s h)
  Shuffle-Distinct (exchange x y xs) ((p, f), (g, h)) = ((λ e. p (sym e), g), (f, h))
  Shuffle-Distinct (both s t) h = Shuffle-Distinct t (Shuffle-Distinct s h)

module _ {ℓ κ} {A : Type ℓ} {B : Type κ} (f : A → B) where
  map-eq-cons :
      (xs : List A) {b : B} {bs : List B}
      → b ∷ bs ≡ map f xs
      → (x : A) × (t : List A) × (xs ≡ x ∷ t) × (b ≡ f x) × (bs ≡ map f t)
  map-eq-cons [] e = absurd (cc)
  map-eq-cons (x ∷ t) e = (x, t, refl, cc, cc)

  map-Shuffle_of :
      {bs cs : List B}
      → Shuffle bs cs
      → (xs : List A) → bs ≡ map f xs
      → (ys : List A) × (cs ≡ map f ys) × Shuffle xs ys
  map-Shuffle_of nothing [] e = ([], refl, nothing)
  map-Shuffle_of nothing (x ∷ xs) e = absurd (cc)
  map-Shuffle_of (keep b s) xs e =
      let (x, t, same_list, head, tail) = map-eq-cons xs e in
      let (ys, made, shuffled) = map-Shuffle_of s t tail in
      (x ∷ ys, cc, rw same_list (keep x shuffled))
  map-Shuffle_of (exchange b c bs) xs e =
      let (x, t, same_list, head, tail) = map-eq-cons xs e in
      let (y, u, next_list, second, rest) = map-eq-cons t tail in
      (y ∷ x ∷ u, cc, rw (same_list, next_list) (exchange x y u))
  map-Shuffle_of (both s t) xs e =
      let (ys, made, shuffled) = map-Shuffle_of s xs e in
      let (zs, again, more) = map-Shuffle_of t ys made in (zs, again, both shuffled more)

  -- A shuffled image is the image of a shuffled list.
  pub map-Shuffle :
      (xs : List A) {cs : List B}
      → Shuffle (map f xs) cs
      → (ys : List A) × (cs ≡ map f ys) × Shuffle xs ys
  map-Shuffle xs s = map-Shuffle_of s xs refl

module _ {ℓ} {A : Type ℓ} where
  pub Shuffle-append :
      (xs : List A) {ys zs : List A} → Shuffle ys zs → Shuffle (xs ++ ys) (xs ++ zs)
  Shuffle-append [] s = s
  Shuffle-append (x ∷ xs) s = keep x (Shuffle-append xs s)

  Shuffle_behind : (x : A) (ys zs : List A) → Shuffle (x ∷ (ys ++ zs)) (ys ++ x ∷ zs)
  Shuffle_behind x [] zs = Shuffle_self (x ∷ zs)
  Shuffle_behind x (y ∷ ys) zs = both (exchange x y (ys ++ zs)) (keep y (Shuffle_behind x ys zs))

  -- Two parts change places.
  pub Shuffle_parts : (xs ys zs : List A) → Shuffle (xs ++ (ys ++ zs)) (ys ++ (xs ++ zs))
  Shuffle_parts [] ys zs = Shuffle_self (ys ++ zs)
  Shuffle_parts (x ∷ xs) ys zs =
      both (keep x (Shuffle_parts xs ys zs)) (Shuffle_behind x ys (xs ++ zs))

  pub Shuffle_back : {xs ys : List A} → Shuffle xs ys → Shuffle ys xs
  Shuffle_back nothing = nothing
  Shuffle_back (keep x s) = keep x (Shuffle_back s)
  Shuffle_back (exchange x y xs) = exchange y x xs
  Shuffle_back (both s t) = both (Shuffle_back t) (Shuffle_back s)
