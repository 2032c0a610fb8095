-- ===== src/Balance/WeightRoundRobin/Weights.antt =====
-- How Done moves the effective weight of a connection.
use emicro.Common.{ℕ, zero, suc, ◌-◌, ◌^◌, ◌<◌, ◌≡◌, ◌≢◌, true, arith}
use emicro.Balance.WeightRoundRobin.{WeightConn, reweigh}

-- `n` calls that fail, one after the other.
pub failures : ℕ → WeightConn → WeightConn
failures zero con = con
failures (suc n) con = failures n (reweigh true con)

-- One failure more than its effective weight, and a connection whose configured weight is not 0 has
-- the largest effective weight that there is.
pub failures_wrap :
    (n : ℕ) (con : WeightConn)
    → con.weight ≢ 0
    → con.efficient_weight ≡ n
    → n < 2 ^ 32
    → (failures (suc n) con).efficient_weight ≡ 2 ^ 32 - 1
unfolding failures reweigh
failures_wrap zero con weighty e word = ground arith
failures_wrap (suc n) con weighty e word =
    failures_wrap n (reweigh true con) (step.0) step.1 (omega arith)
  where
    step : ((reweigh true con).weight ≢ 0) × ((reweigh true con).efficient_weight ≡ n)
    step = (λ z. ground arith, ground arith)
