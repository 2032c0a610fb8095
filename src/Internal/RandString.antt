-- ===== src/Internal/RandString.antt =====
-- internal/utils/xstring/random.go: random strings from a source of 63-bit numbers, which is a
-- parameter. The lock of the source makes each of its calls one step.
pub mod Letters
use emicro.Common.{
  ℕ, zero, suc, ◌-◌, ◌/◌, ◌%◌, ◌^◌, Bool, true, false, Option, none, some, List, [], ◌∷◌, ltb, ◌==◌,
  if◌then◌else◌, get_elem?, length, Outcome, ok, panic, no_fuel, ◌>>=◌,
}
use emicro.Common.Maps.{Bytes, bytes_of}

abbrev pub letter_bytes : Bytes
letter_bytes = bytes_of "abcdefghijklmnopqrstuvwxyzABCDEFGHIJKLMNOPQRSTUVWXYZ0123456789"

abbrev pub id_len : ℕ
id_len = 8

abbrev pub default_rand_len : ℕ
default_rand_len = 8

-- 1 << letterIdxBits, for letterIdxBits = 6: the mask keeps what is below it.
abbrev pub letter_idx_count : ℕ
letter_idx_count = 2 ^ 6

-- 63 / letterIdxBits
abbrev pub letter_idx_max : ℕ
letter_idx_max = 10

-- rand.Source: Int63.
pub record Source (R : Type 0) : Type 0 where
  pub int63 : R → ℕ × R

-- b[i] = letterBytes[idx]
abbrev pub letter_at : ℕ → Outcome ℕ
letter_at idx = elim (get_elem? letter_bytes idx) [ none ↦ panic | some c ↦ ok c ]

-- if remain == 0: the next number of the source, with all its groups of bits.
abbrev pub refill : {R : Type 0} → Source R → ℕ → ℕ → R → ℕ × ℕ × R
refill src cache zero r = let (drawn, r') = src.int63 r in (drawn, letter_idx_max, r')
refill src cache (suc remain) r = (cache, suc remain, r)

-- The loop of Randn. `left` is i + 1, the number of places that are free, and `b` what stands behind
-- them; each round takes one from the fuel.
unfoldable pub fill :
    {R : Type 0} → Source R → ℕ → (left cache remain : ℕ) → R → Bytes → Outcome (Bytes × R)
fill src fuel zero cache remain r b = ok (b, r)
fill src zero (suc left) cache remain r b = no_fuel
fill src (suc fuel) (suc left) cache remain r b =
    let (cache', remain', after) = refill src cache remain r in
    let idx = cache' % letter_idx_count in
    elim (ltb idx (length letter_bytes)) [
      | true ↦ letter_at idx >>= λ c.
          fill src fuel left (cache' / letter_idx_count) (remain' - 1) after (c ∷ b)
      | false ↦ fill src fuel (suc left) (cache' / letter_idx_count) (remain' - 1) after b
    ]

-- Randn draws once before the loop, also for no letters.
unfoldable pub randn : {R : Type 0} → Source R → ℕ → ℕ → R → Outcome (Bytes × R)
randn src fuel n r = let (cache, r') = src.int63 r in fill src fuel n cache letter_idx_max r' []

abbrev pub rand : {R : Type 0} → Source R → ℕ → R → Outcome (Bytes × R)
rand src fuel r = randn src fuel default_rand_len r

-- RandId: the text of eight bytes of crypto/rand, where they are read, and Randn else.
abbrev pub rand_id : {R : Type 0} → Source R → ℕ → Option Bytes → R → Outcome (Bytes × R)
rand_id src fuel (some hex) r = ok (hex, r)
rand_id src fuel none r = randn src fuel id_len r
