-- ===== src/Common/Words.antt =====
-- Go's integers as native numbers that wrap.
use Prim.Native.Nat.{ℕ, ◌+◌, ◌-◌, ◌*◌, ◌%◌, ◌^◌, ◌<◌}
use mathlib.Core.Bool.{Bool}
use emicro.Common.Tests.{ltb}
use mathlib.Core.Path.{◌≡◌, sym, ap, ◌∙◌}
use native.Mathlib.Nat.{mod-lt, mod-add-mod, mod-eq_of_lt, mod_self}
use native.Mathlib.Omega.{arith}

abbrev pub u32_mod : ℕ
u32_mod = 2 ^ 32

abbrev pub u64_mod : ℕ
u64_mod = 2 ^ 64

abbrev pub add32 : ℕ → ℕ → ℕ
add32 a b = (a + b) % u32_mod

-- `-` on ℕ stops at 0, so the modulus is added first.
abbrev pub sub32 : ℕ → ℕ → ℕ
sub32 a b = (a + u32_mod - b) % u32_mod

abbrev pub add64 : ℕ → ℕ → ℕ
add64 a b = (a + b) % u64_mod

-- Counting on, modulo n: one further, and as far as the next multiple.
pub mod_next : (c n r : ℕ) → c % n ≡ r → r + 1 < n → (c + 1) % n ≡ r + 1
mod_next c n r e h = sym (mod-add-mod c n 1) ∙ ap (λ (x : ℕ). (x + 1) % n) e ∙ mod-eq_of_lt h

pub mod_round : (c n : ℕ) → 0 < n → (c + (n - c % n)) % n ≡ 0
mod_round c n h =
    sym (mod-add-mod c n (n - c % n))
    ∙ ap (λ (x : ℕ). x % n) (omega (arith, mod-lt c h))
    ∙ mod_self n

-- int64 as the word of its two's complement, and what Go does with it.
abbrev pub sub64 : ℕ → ℕ → ℕ
sub64 a b = (a + u64_mod - b) % u64_mod

abbrev pub mul64 : ℕ → ℕ → ℕ
mul64 a b = (a * b) % u64_mod

-- `<` of int64: the words compared with the sign bit turned over.
abbrev pub lt_signed : ℕ → ℕ → Bool
lt_signed a b = ltb (add64 a (2 ^ 63)) (add64 b (2 ^ 63))
