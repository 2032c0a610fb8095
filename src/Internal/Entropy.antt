-- ===== src/Internal/Entropy.antt =====
-- internal/utils/xmath/entropy.go. A map is the list of its values in the order of a range over it; an
-- int is a word of 64 bits, and a float64 what the section's parameter says.
use mathlib.Core.List.{Permᴰ}
use emicro.Common.{ℕ, ◌≡◌, refl, ap, ◌∙◌, Bool, List, [], ◌∷◌, if◌then◌else◌, length, arith}
use emicro.Common.Words.{add64}

pub record Floats (F : Type 0) : Type 0 where
  pub of_int : ℕ → F
  pub less : F → F → Bool
  pub minus : F → F → F
  pub times : F → F → F
  pub over : F → F → F
  pub log2 : F → F
  pub epsilon : F

-- The loop that adds the values up.
abbrev pub total_from : ℕ → List ℕ → ℕ
total_from total [] = total
total_from total (v ∷ m) = total_from (add64 total v) m

module _ {F : Type 0} (fl : Floats F) where
  -- A probability, epsilon at least.
  abbrev pub probability : ℕ → ℕ → F
  probability total v =
      let proba = fl.over (fl.of_int v) (fl.of_int total) in
      if fl.less proba fl.epsilon then fl.epsilon else proba

  abbrev pub entropy_from : ℕ → F → List ℕ → F
  entropy_from total entropy [] = entropy
  entropy_from total entropy (v ∷ m) =
      let proba = probability total v in
      entropy_from total (fl.minus entropy (fl.times proba (fl.log2 proba))) m

  unfoldable pub calc_entropy : List ℕ → F
  calc_entropy [] = fl.of_int 1
  calc_entropy (v ∷ []) = fl.of_int 1
  calc_entropy (v ∷ u ∷ m) =
      fl.over (entropy_from (total_from 0 (v ∷ u ∷ m)) (fl.of_int 0) (v ∷ u ∷ m))
        (fl.log2 (fl.of_int (length (v ∷ u ∷ m))))

add64_swap : (t a b a' b' : ℕ) → a ≡ b' → b ≡ a' → add64 (add64 t a) b ≡ add64 (add64 t a') b'
add64_swap t a b a' b' e e' = omega arith

-- The total does not depend on the order in which the range visits the map, also where it wraps.
total_from-Permᴰ :
    (m n : List ℕ) → Permᴰ m n → (total : ℕ) → total_from total m ≡ total_from total n
total_from-Permᴰ m n Permᴰ.nil total = refl
total_from-Permᴰ m n (Permᴰ.cons e p) total = rw e (total_from-Permᴰ _ _ p _)
total_from-Permᴰ m n (Permᴰ.swap {l = l} e e') total =
    ap (λ t. total_from t l) (add64_swap total _ _ _ _ e e')
total_from-Permᴰ m n (Permᴰ.trans p q) total =
    total_from-Permᴰ _ _ p total ∙ total_from-Permᴰ _ _ q total
