-- ===== src/Balance/Best.antt =====
-- The loop that several pickers run: over the connections that pass the filter, keep the best one
-- by a key. It is written with the place and the key of the best one so far, where the source keeps
-- a pointer.
use emicro.Common.{
  ℕ, suc, ◌-◌, ◌≤◌, ◌≡◌, refl, ◌⊎◌, inl, inr, Bool, true, false, ◌&&◌, Option, none, some, List, [],
  ◌∷◌, if◌then◌else◌, get_elem?, All, Bool-cases, arith,
}

abbrev pub key_of : Option (ℕ × ℕ) → Option ℕ
key_of none = none
key_of (some (place, key)) = some key

-- `beats best key`: a key takes the place of the best one so far, or of none.
unfoldable pub best_from {ℓ} :
    {A : Type ℓ}
    → (Option ℕ → ℕ → Bool)
    → (A → Bool)
    → (A → ℕ)
    → List A
    → ℕ
    → Option (ℕ × ℕ)
    → Option (ℕ × ℕ)
best_from beats pass key [] i best = best
best_from beats pass key (x ∷ xs) i best =
    best_from beats pass key xs (suc i)
      (if pass x && beats (key_of best) (key x) then some (i, key x) else best)

-- What the test has to be: `R a b` says that `a` is as good as `b`.
pub record IsChoice (beats : Option ℕ → ℕ → Bool) (R : ℕ → ℕ → Type 0) : Type 0 where
  pub self : (a : ℕ) → R a a
  pub trans : (a b c : ℕ) → R a b → R b c → R a c
  pub taken : (a b : ℕ) → beats (some a) b ≡ true → R b a
  pub left : (a b : ℕ) → beats (some a) b ≡ false → R a b
  pub mono : (a b : ℕ) → R a b → beats none b ≡ true → beats none a ≡ true
  pub first : (a b : ℕ) → beats none a ≡ true → beats none b ≡ false → R a b

module _ {ℓ} {A : Type ℓ} (pass : A → Bool) (key : A → ℕ) where
  -- The element at place `j` of a list whose first place is `i`: it passes, and has the key `w`.
  pub record FoundAt (xs : List A) (i j w : ℕ) : Type ℓ where
    pub above : i ≤ j
    pub elem : A
    pub here : get_elem? xs (j - i) ≡ some elem
    pub passes : pass elem ≡ true
    pub keyed : key elem ≡ w

  FoundAt-cons : (x : A) (xs : List A) (i j w : ℕ) → FoundAt xs (suc i) j w → FoundAt (x ∷ xs) i j w
  FoundAt-cons x xs i j w f = record {
    above = omega (arith, f.above);
    elem = f.elem;
    here = let e : j - i ≡ suc (j - suc i) = omega (arith, f.above) in rw e f.here;
    passes = f.passes;
    keyed = f.keyed;
  }

  FoundAt-head : (x : A) (xs : List A) (i : ℕ) → pass x ≡ true → FoundAt (x ∷ xs) i i (key x)
  FoundAt-head x xs i p = record {
    above = omega arith;
    elem = x;
    here = let e : i - i ≡ 0 = omega arith in rw e;
    passes = p;
    keyed = refl;
  }

  module _ {beats : Option ℕ → ℕ → Bool} {R : ℕ → ℕ → Type 0} (choice : IsChoice beats R) where
    -- `w` is as good as the key of everything that passes.
    abbrev pub AsGood : ℕ → List A → Type 0
    AsGood w = All (λ x. pass x ≡ true → R w (key x))

    AsGood-trans : (w v : ℕ) (xs : List A) → R w v → AsGood v xs → AsGood w xs
    AsGood-trans w v [] r h = tt
    AsGood-trans w v (x ∷ xs) r h =
        (λ p. choice.trans w v (key x) r (h.0 p), AsGood-trans w v xs r h.1)

    -- The loop from a best one so far keeps it or finds a better one.
    record Improved (xs : List A) (i j₀ w₀ : ℕ) (r : Option (ℕ × ℕ)) : Type ℓ where
      place : ℕ
      weight : ℕ
      result : r ≡ some (place, weight)
      no_worse : R weight w₀
      as_good : AsGood weight xs
      origin : ((place ≡ j₀) × (weight ≡ w₀)) ⊎ FoundAt xs i place weight

    Improved-skip :
        (x : A) (xs : List A) (i j₀ w₀ : ℕ) {r : Option (ℕ × ℕ)}
        → (pass x ≡ true → R w₀ (key x))
        → Improved xs (suc i) j₀ w₀ r
        → Improved (x ∷ xs) i j₀ w₀ r
    Improved-skip x xs i j₀ w₀ old m = record {
      place = m.place;
      weight = m.weight;
      result = m.result;
      no_worse = m.no_worse;
      as_good = (λ p. choice.trans m.weight w₀ (key x) m.no_worse (old p), m.as_good);
      origin = elim m.origin [
        | inl same ↦ inl same
        | inr f ↦ inr (FoundAt-cons x xs i m.place m.weight f)
      ];
    }

    Improved-origin :
        (x : A) (xs : List A) (i j w : ℕ)
        → pass x ≡ true
        → ((j ≡ i) × (w ≡ key x)) ⊎ FoundAt xs (suc i) j w
        → FoundAt (x ∷ xs) i j w
    Improved-origin x xs i j w p (inl (e, e')) = rw (e, e') (FoundAt-head x xs i p)
    Improved-origin x xs i j w p (inr f) = FoundAt-cons x xs i j w f

    best_from-some :
        (xs : List A) (i j₀ w₀ : ℕ)
        → Improved xs i j₀ w₀ (best_from beats pass key xs i (some (j₀, w₀)))
    unfolding best_from
    best_from-some [] i j₀ w₀ = record {
      place = j₀;
      weight = w₀;
      result = refl;
      no_worse = choice.self w₀;
      as_good = tt;
      origin = inl (refl, refl);
    }
    best_from-some (x ∷ xs) i j₀ w₀ = elim (Bool-cases (pass x)) [
      | inr out ↦ rw out (Improved-skip x xs i j₀ w₀ (λ p. cc) (best_from-some xs (suc i) j₀ w₀))
      | inl p ↦ elim (Bool-cases (beats (some w₀) (key x))) [
        | inr worse ↦
            rw (p, worse)
              (Improved-skip x xs i j₀ w₀ (λ _. choice.left w₀ (key x) worse)
                (best_from-some xs (suc i) j₀ w₀))
        | inl better ↦
            rw (p, better)
              (let m = best_from-some xs (suc i) i (key x) in
                record {
                  place = m.place;
                  weight = m.weight;
                  result = m.result;
                  no_worse =
                      choice.trans m.weight (key x) w₀ m.no_worse (choice.taken w₀ (key x) better);
                  as_good = (λ _. m.no_worse, m.as_good);
                  origin = inr (Improved-origin x xs i m.place m.weight p m.origin);
                })
      ]
    ]

    -- What passes and could not be the first.
    abbrev pub NoneFirst : List A → Type 0
    NoneFirst = All (λ x. pass x ≡ true → beats none (key x) ≡ false)

    -- The best of a list: of all that pass, and standing in the list.
    pub record IsBest (xs : List A) (i : ℕ) (r : Option (ℕ × ℕ)) : Type ℓ where
      pub place : ℕ
      pub weight : ℕ
      pub result : r ≡ some (place, weight)
      pub as_good : AsGood weight xs
      pub found : FoundAt xs i place weight
      pub is_first : beats none weight ≡ true

    IsBest-skip :
        (x : A) (xs : List A) (i : ℕ) (r : Option (ℕ × ℕ))
        → (pass x ≡ true → beats none (key x) ≡ false)
        → ((r ≡ none) × NoneFirst xs) ⊎ IsBest xs (suc i) r
        → ((r ≡ none) × NoneFirst (x ∷ xs)) ⊎ IsBest (x ∷ xs) i r
    IsBest-skip x xs i r skip (inl (e, rest)) = inl (e, (skip, rest))
    IsBest-skip x xs i r skip (inr b) = inr (record {
      place = b.place;
      weight = b.weight;
      result = b.result;
      as_good = (λ p. choice.first b.weight (key x) b.is_first (skip p), b.as_good);
      found = FoundAt-cons x xs i b.place b.weight b.found;
      is_first = b.is_first;
    })

    Improved-IsBest :
        (x : A) (xs : List A) (i : ℕ) (r : Option (ℕ × ℕ))
        → pass x ≡ true
        → beats none (key x) ≡ true
        → Improved xs (suc i) i (key x) r
        → IsBest (x ∷ xs) i r
    Improved-IsBest x xs i r p first m = record {
      place = m.place;
      weight = m.weight;
      result = m.result;
      as_good = (λ _. m.no_worse, m.as_good);
      found = Improved-origin x xs i m.place m.weight p m.origin;
      is_first = choice.mono m.weight (key x) m.no_worse first;
    }

    first_cases :
        (x : A) (i : ℕ)
        → let next : Option (ℕ × ℕ) =
            if pass x && beats none (key x) then some (i, key x) else none in
          ((next ≡ none) × (pass x ≡ true → beats none (key x) ≡ false))
          ⊎ ((next ≡ some (i, key x)) × (pass x ≡ true) × (beats none (key x) ≡ true))
    first_cases x i = elim (Bool-cases (pass x)) [
      | inr out ↦ inl (rw out, λ p. cc)
      | inl p ↦ elim (Bool-cases (beats none (key x))) [
        | inr skip ↦ inl (rw (p, skip), λ _. skip)
        | inl first ↦ inr (rw (p, first), p, first)
      ]
    ]

    -- From no best one: nothing passes that could be the first, or the result is the best.
    pub best_from_lem :
        (xs : List A) (i : ℕ)
        → ((best_from beats pass key xs i none ≡ none) × NoneFirst xs)
          ⊎ IsBest xs i (best_from beats pass key xs i none)
    unfolding best_from
    best_from_lem [] i = inl (refl, tt)
    best_from_lem (x ∷ xs) i = elim (first_cases x i) [
      | inl (e, skip) ↦ rw e (IsBest-skip x xs i _ skip (best_from_lem xs (suc i)))
      | inr (e, p, first) ↦
          rw e (inr (Improved-IsBest x xs i _ p first (best_from-some xs (suc i) i (key x))))
    ]
