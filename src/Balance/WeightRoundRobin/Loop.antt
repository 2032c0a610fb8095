-- ===== src/Balance/WeightRoundRobin/Loop.antt =====
-- The loop of the weighted Pick taken apart: the bumped connections, the total, the heaviest one.
use emicro.Common.{
  ℕ, suc, ◌+◌, ◌%◌, ◌^◌, ◌<◌, ◌≡◌, refl, ap, inl, inr, Bool, true, false, Option, List, [], ◌∷◌,
  Bool-cases, All, length, if◌then◌else◌, arith,
}
use emicro.Common.Words.{add32}
use emicro.Balance.Types.{Address}
use emicro.Balance.Best.{best_from}
use emicro.Balance.WeightRoundRobin.{WeightConn, bump, heavier, visit}

module _ (allow : Address → Bool) where
  abbrev pass : WeightConn → Bool
  pass con = allow con.address

  pub bumped : List WeightConn → List WeightConn
  bumped [] = []
  bumped (con ∷ rest) =
      (if pass con
        then record con { current_weight = add32 con.current_weight con.efficient_weight }
        else con)
      ∷ bumped rest

  pub total_from : ℕ → List WeightConn → ℕ
  total_from total [] = total
  total_from total (con ∷ rest) =
      total_from (if pass con then add32 total con.efficient_weight else total) rest

  pub visit-eq :
      (conns : List WeightConn) (i total : ℕ) (max : Option (ℕ × ℕ))
      → visit pass conns i total max ≡ (
        bumped conns,
        total_from total conns,
        best_from heavier pass (λ c. c.current_weight) (bumped conns) i max,
      )
  unfolding visit bumped total_from best_from
  visit-eq [] i total max = refl
  visit-eq (con ∷ rest) i total max = elim (Bool-cases (allow con.address)) [
    | inr out ↦ rw out (rw out (ap (λ v. (con ∷ v.0, v.1, v.2)) (visit-eq rest (suc i) total max)))
    | inl p ↦ rw p (
        rw p (
          ap (λ v. (bump con ∷ v.0, v.1, v.2))
            (visit-eq rest (suc i) (add32 total con.efficient_weight) _)))
  ]

unfoldable pub sum_current : List WeightConn → ℕ
sum_current [] = 0
sum_current (con ∷ rest) = con.current_weight + sum_current rest

module _ (allow : Address → Bool) where
  -- The loop moves the current weights up by what it adds to the total, modulo 2^32.
  pub sum_current-bumped :
      (conns : List WeightConn) (total : ℕ)
      → (sum_current (bumped allow conns) + total) % 2 ^ 32
        ≡ (sum_current conns + total_from allow total conns) % 2 ^ 32
  unfolding sum_current bumped total_from
  sum_current-bumped [] total = refl
  sum_current-bumped (con ∷ rest) total = elim (Bool-cases (allow con.address)) [
    | inr out ↦ rw out (omega (arith, sum_current-bumped rest total))
    | inl p ↦ rw p (omega (arith, sum_current-bumped rest (add32 total con.efficient_weight)))
  ]

  -- Where no connection passes the loop changes nothing.
  pub bumped_none :
      (conns : List WeightConn)
      → All (λ c. allow c.address ≡ true → true ≡ false) (bumped allow conns)
      → bumped allow conns ≡ conns
  unfolding bumped
  bumped_none [] h = refl
  bumped_none (con ∷ rest) h = elim (Bool-cases (allow con.address)) [
    | inr out ↦ rw out (ap (◌∷◌ con) (bumped_none rest h.1))
    | inl p ↦ cc (h.0 (rw p (rw p)))
  ]

  pub length-bumped : (conns : List WeightConn) → length (bumped allow conns) ≡ length conns
  unfolding bumped
  length-bumped [] = refl
  length-bumped (con ∷ rest) = ap suc (length-bumped rest)

  pub total_from-lt :
      (conns : List WeightConn) (total : ℕ) → total < 2 ^ 32 → total_from allow total conns < 2 ^ 32
  unfolding total_from
  total_from-lt [] total h = h
  total_from-lt (con ∷ rest) total h = elim (Bool-cases (allow con.address)) [
    | inr out ↦ rw out (total_from-lt rest total h)
    | inl p ↦ rw p (total_from-lt rest (add32 total con.efficient_weight) (omega arith))
  ]
