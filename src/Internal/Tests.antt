-- ===== src/Internal/Tests.antt =====
-- A random string from a source of ones.
use emicro.Common.{ℕ, ◌≡◌, refl, [], ◌∷◌, ok}
use emicro.Internal.RandString.{Source, fill, randn}

-- The groups of 1 are 1 and then 0, the places of b and a.
abbrev ones : Source ℕ
ones = record { int63 = λ r. (1, r) }

three_letters : randn ones 30 3 0 ≡ ok (97 ∷ 97 ∷ 98 ∷ [], 0)
unfolding randn fill
three_letters = refl
