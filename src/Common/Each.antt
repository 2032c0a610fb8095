-- ===== src/Common/Each.antt =====
-- Properties of every element of a list, and the elements after a change at one place.
use mathlib.Core.List.{Permᴰ}
use Prim.Native.Nat.{ℕ, zero, suc, ◌+◌}
use mathlib.Core.Path.{◌≡◌, refl, ap}
use mathlib.Core.Logic.{◌≢◌, ◌⊎◌, inl, inr}
use mathlib.Core.Option.{some, none}
use mathlib.Core.List.{List, [], ◌∷◌, ◌++◌, map}
use native.Mathlib.Omega.{arith}
use emicro.Common.Lists.{length, All, adjust, get_elem?}

module _ {ℓ} {A : Type ℓ} where
  pub All-append {κ} : (P : A → Type κ) (xs ys : List A) → All P xs → All P ys → All P (xs ++ ys)
  All-append P [] ys h h' = h'
  All-append P (x ∷ xs) ys (h, hs) h' = (h, All-append P xs ys hs h')

  pub All-append_left {κ} : (P : A → Type κ) (xs ys : List A) → All P (xs ++ ys) → All P xs
  All-append_left P [] ys h = tt
  All-append_left P (x ∷ xs) ys (h, hs) = (h, All-append_left P xs ys hs)

  pub All-middle {κ} : (P : A → Type κ) (xs ys : List A) (x : A) → All P (xs ++ (x ∷ ys)) → P x
  All-middle P [] ys x h = h.0
  All-middle P (z ∷ xs) ys x h = All-middle P xs ys x h.1

  pub All-replace {κ} :
      (P : A → Type κ) (xs ys : List A) (x y : A)
      → P y
      → All P (xs ++ (x ∷ ys))
      → All P (xs ++ (y ∷ ys))
  All-replace P [] ys x y p h = (p, h.1)
  All-replace P (z ∷ xs) ys x y p h = (h.0, All-replace P xs ys x y p h.1)

  pub All-Permᴰ {κ} : (P : A → Type κ) {xs ys : List A} → Permᴰ xs ys → All P xs → All P ys
  All-Permᴰ P Permᴰ.nil h = tt
  All-Permᴰ P (Permᴰ.cons e p) h = (rw e at h.0, All-Permᴰ P p h.1)
  All-Permᴰ P (Permᴰ.swap e e') h = (rw e' at h.1.0, (rw e at h.0, h.1.1))
  All-Permᴰ P (Permᴰ.trans p q) h = All-Permᴰ P q (All-Permᴰ P p h)

  pub All-adjust {κ} :
      (P : A → Type κ) (f : A → A) (i : ℕ) (xs : List A) (x : A)
      → All P xs
      → get_elem? xs i ≡ some x
      → P (f x)
      → All P (adjust f i xs)
  All-adjust P f i [] x h at p = tt
  All-adjust P f zero (y ∷ xs) x (h, hs) at p = let same : y ≡ x = cc in (rw same p, hs)
  All-adjust P f (suc i) (y ∷ xs) x (h, hs) at p = (h, All-adjust P f i xs x hs at p)

  -- The element at a place after a change at the same place, or at another.
  pub adjust_get :
      (f : A → A) (i j : ℕ) (xs : List A) (y : A)
      → get_elem? (adjust f i xs) j ≡ some y
      → ((i ≡ j) × ((x : A) × (get_elem? xs j ≡ some x) × (y ≡ f x)))
        ⊎ ((i ≢ j) × (get_elem? xs j ≡ some y))
  adjust_get f i j [] y e = cc
  adjust_get f zero zero (x ∷ xs) y e = inl (refl, (x, refl, cc))
  adjust_get f zero (suc j) (x ∷ xs) y e = inr (omega arith, e)
  adjust_get f (suc i) zero (x ∷ xs) y e = inr (omega arith, e)
  adjust_get f (suc i) (suc j) (x ∷ xs) y e = elim (adjust_get f i j xs y e) [
    | inl (same, found) ↦ inl (omega arith, found)
    | inr (other, found) ↦ inr (omega arith, found)
  ]

  pub map-map {κ μ} :
      {B : Type κ} {C : Type μ} (f : A → B) (g : B → C) (xs : List A)
      → map g (map f xs) ≡ map (λ x. g (f x)) xs
  map-map f g [] = refl
  map-map f g (x ∷ xs) = ap (◌∷◌ (g (f x))) (map-map f g xs)

  pub map_get {κ} :
      {B : Type κ} (f : A → B) (j : ℕ) (xs : List A) (y : B)
      → get_elem? (map f xs) j ≡ some y
      → (x : A) × (get_elem? xs j ≡ some x) × (y ≡ f x)
  map_get f j [] y e = cc
  map_get f zero (x ∷ xs) y e = (x, refl, cc)
  map_get f (suc j) (x ∷ xs) y e = map_get f j xs y e

  pub get_elem?-map {κ} :
      {B : Type κ} (f : A → B) (xs : List A) (i : ℕ) (x : A)
      → get_elem? xs i ≡ some x
      → get_elem? (map f xs) i ≡ some (f x)
  get_elem?-map f [] i x at = cc
  get_elem?-map f (y ∷ xs) zero x at = let same : y ≡ x = cc in rw same refl
  get_elem?-map f (y ∷ xs) (suc i) x at = get_elem?-map f xs i x at

  -- The sum over a list, and what one element gives to it.
  abbrev pub sum_by : (A → ℕ) → List A → ℕ
  sum_by f [] = 0
  sum_by f (x ∷ xs) = f x + sum_by f xs

  pub sum_by-append : (f : A → ℕ) (xs ys : List A) → sum_by f (xs ++ ys) ≡ sum_by f xs + sum_by f ys
  sum_by-append f [] ys = omega arith
  sum_by-append f (x ∷ xs) ys = omega (arith, sum_by-append f xs ys)

  pub sum_by-between :
      (f : A → ℕ) (xs ys : List A) (x : A) → sum_by f (xs ++ (x ∷ ys)) ≡ sum_by f (xs ++ ys) + f x
  sum_by-between f xs ys x = omega (arith, sum_by-append f xs ys, sum_by-append f xs (x ∷ ys))

  -- The element after a list, and the elements of the list before it.
  pub get_elem?-append_length :
      (xs ys : List A) (y : A) → get_elem? (xs ++ (y ∷ ys)) (length xs) ≡ some y
  get_elem?-append_length [] ys y = refl
  get_elem?-append_length (x ∷ xs) ys y = get_elem?-append_length xs ys y

  pub get_elem?-append_left :
      (xs ys : List A) (i : ℕ) (x : A) → get_elem? xs i ≡ some x → get_elem? (xs ++ ys) i ≡ some x
  get_elem?-append_left [] ys i x h = cc
  get_elem?-append_left (z ∷ xs) ys zero x h = h
  get_elem?-append_left (z ∷ xs) ys (suc i) x h = get_elem?-append_left xs ys i x h

  pub get_elem?-length : (xs : List A) → get_elem? xs (length xs) ≡ none
  get_elem?-length [] = refl
  get_elem?-length (x ∷ xs) = get_elem?-length xs

  pub adjust-append_length :
      (f : A → A) (xs ys : List A) (y : A)
      → adjust f (length xs) (xs ++ (y ∷ ys)) ≡ xs ++ (f y ∷ ys)
  adjust-append_length f [] ys y = refl
  adjust-append_length f (x ∷ xs) ys y = ap (◌∷◌ x) (adjust-append_length f xs ys y)
