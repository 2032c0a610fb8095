-- ===== src/Internal/RandString/Letters.antt =====
-- internal/utils/xstring/random.go: what Randn returns, and that it returns.
use mathlib.Core.Path.{subst, sym}
use emicro.Common.{
  ℕ, zero, suc, ◌+◌, ◌-◌, ◌*◌, ◌/◌, ◌%◌, ◌≤◌, ◌<◌, ◌≡◌, refl, Bool, true, false, ◌||◌, Bool-cases,
  inl, inr, some, [], ◌∷◌, ltb, ltb→lt, Returns-weaken, if◌then◌else◌, get_elem?, get_elem?_lt,
  length, All, Outcome, ok, panic, no_fuel, ◌>>=◌, Returns, arith,
}
use emicro.Common.Maps.{Bytes}
use emicro.Internal.RandString.{
  letter_bytes, letter_idx_count, letter_idx_max, Source, letter_at, fill, randn,
}

-- A byte of letterBytes.
abbrev pub IsLetter : ℕ → Type 0
IsLetter c = (i : ℕ) × (get_elem? letter_bytes i ≡ some c)

abbrev is_index : ℕ → Bool
is_index cache = ltb (cache % letter_idx_count) (length letter_bytes)

-- One of the last `k` groups of six bits stands for a letter.
abbrev pub has_letter : ℕ → ℕ → Bool
has_letter zero cache = false
has_letter (suc k) cache = is_index cache || has_letter k (cache / letter_idx_count)

-- Every number that the source gives has a letter in its ten groups.
pub record IsFair {R : Type 0} (src : Source R) : Type 0 where
  pub letter : (r : R) → has_letter letter_idx_max (src.int63 r).0 ≡ true

-- What the loop returns from `left` free places and the bytes `b` behind them.
abbrev Filled : {R : Type 0} → ℕ → Bytes → Bytes × R → Type 0
Filled left b (bytes, r) = (length bytes ≡ length b + left) × All IsLetter bytes

-- The rounds that are enough: one for each group that is left, and ten for each letter but the one
-- that is known to be in the groups.
abbrev Enough : (fuel left : ℕ) → Bool → ℕ → Type 0
Enough fuel left known remain = remain + 10 * left ≤ fuel + (if known then 10 else 0)

after_letter :
    (fuel left k : ℕ) (known : Bool)
    → Enough (suc fuel) (suc left) true (suc k)
    → Enough fuel left known k
after_letter fuel left k known h = ground arith

after_none :
    (fuel left k : ℕ) (known : Bool)
    → Enough (suc fuel) (suc left) known (suc k)
    → Enough fuel (suc left) known k
after_none fuel left k known h = ground arith

drawn-Enough :
    (fuel left : ℕ) (known : Bool)
    → known ≡ true
    → Enough (suc fuel) (suc left) false 0
    → Enough (suc fuel) (suc left) known 10
drawn-Enough fuel left known e h = ground arith

no_round : (left k : ℕ) (known : Bool) → Enough 0 (suc left) known (suc k) → ⊥
no_round left k known h = ground arith

ample : (n : ℕ) (known : Bool) → known ≡ true → Enough (10 * n) n known 10
ample n known e = ground arith

one_longer :
    {R : Type 0} (left : ℕ) (b : Bytes) (c : ℕ) (m : Outcome (Bytes × R))
    → Returns (Filled left (c ∷ b)) m
    → Returns (Filled (suc left) b) m
one_longer left b c (ok (bytes, r)) (len, letters) = (omega arith, letters)
one_longer left b c panic h = h
one_longer left b c no_fuel h = h

module _ {R : Type 0} (src : Source R) where
  -- The loop on less fuel.
  abbrev Fills : ℕ → Type 0
  Fills fuel =
      (left cache remain : ℕ) (r : R) (b : Bytes)
      → Enough fuel left (has_letter remain cache) remain
      → All IsLetter b
      → Returns (Filled left b) (fill src fuel left cache remain r b)

  letter_at-IsLetter :
      (idx : ℕ) → idx < length letter_bytes → (c : ℕ) × (letter_at idx ≡ ok c) × IsLetter c
  letter_at-IsLetter idx h =
      let (c, e) = get_elem?_lt letter_bytes idx h in (c, rw (e, letter_at) refl, (idx, e))

  -- A round on a number with `suc k` groups left.
  round :
      (fuel : ℕ)
      → Fills fuel
      → (left cache k : ℕ) (r : R) (b : Bytes)
      → Enough (suc fuel) (suc left) (has_letter (suc k) cache) (suc k)
      → All IsLetter b
      → Returns (Filled (suc left) b) (elim (is_index cache) [
        | true ↦ letter_at (cache % letter_idx_count) >>= λ c.
            fill src fuel left (cache / letter_idx_count) k r (c ∷ b)
        | false ↦ fill src fuel (suc left) (cache / letter_idx_count) k r b
      ])
  round fuel fills left cache k r b enough letters = elim (Bool-cases (is_index cache)) [
    | inl good ↦
        let (c, at, letter) = letter_at-IsLetter (cache % letter_idx_count) (ltb→lt _ _ good) in
        let after =
          fills left (cache / letter_idx_count) k r (c ∷ b)
            (after_letter fuel left k (has_letter k (cache / letter_idx_count)) (rw good at enough))
            (letter, letters) in
        rw (good, at)
          (one_longer left b c (fill src fuel left (cache / letter_idx_count) k r (c ∷ b)) after)
    | inr bad ↦ rw bad (
        fills (suc left) (cache / letter_idx_count) k r b
          (after_none fuel left k (has_letter k (cache / letter_idx_count)) (rw bad at enough))
          letters)
  ]

  fill_lem : IsFair src → (fuel : ℕ) → Fills fuel
  unfolding fill
  fill_lem fair zero zero cache remain r b enough letters = (omega arith, letters)
  fill_lem fair (suc fuel) zero cache remain r b enough letters = (omega arith, letters)
  fill_lem fair zero (suc left) cache zero r b enough letters = absurd (omega arith)
  fill_lem fair zero (suc left) cache (suc k) r b enough letters =
      absurd (no_round left k (has_letter (suc k) cache) enough)
  fill_lem fair (suc fuel) (suc left) cache zero r b enough letters =
      round fuel (fill_lem fair fuel) left (src.int63 r).0 9 (src.int63 r).1 b
        (drawn-Enough fuel left (has_letter letter_idx_max (src.int63 r).0) (fair.letter r) enough)
        letters
  fill_lem fair (suc fuel) (suc left) cache (suc k) r b enough letters =
      let less : suc k - 1 ≡ k = omega arith in
      subst
        (λ j. Returns (Filled (suc left) b) (elim (is_index cache) [
          | true ↦ letter_at (cache % letter_idx_count) >>= λ c.
              fill src fuel left (cache / letter_idx_count) j r (c ∷ b)
          | false ↦ fill src fuel (suc left) (cache / letter_idx_count) j r b
        ]))
        (sym less) (round fuel (fill_lem fair fuel) left cache k r b enough letters)

  -- Where every number of the source has a letter in its ten groups of six bits, Randn ends within ten
  -- rounds for each letter, does not panic, and returns exactly `n` bytes, all of them letters or
  -- digits.
  pub randn-IsLetter :
      IsFair src
      → (n : ℕ) (r : R)
      → Returns (λ out. (length out.0 ≡ n) × All IsLetter out.0) (randn src (10 * n) n r)
  unfolding randn
  randn-IsLetter fair n r =
      Returns-weaken (Filled n []) _ _ (λ out (len, letters). (omega arith, letters))
        (fill_lem fair (10 * n) n (src.int63 r).0 letter_idx_max (src.int63 r).1 []
          (ample n (has_letter letter_idx_max (src.int63 r).0) (fair.letter r)) tt)
