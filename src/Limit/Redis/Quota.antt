-- ===== src/Limit/Redis/Quota.antt =====
-- Requests at the fixed window of Redis until its key expires.
use emicro.Common.{
  ℕ, zero, suc, ◌+◌, ◌≡◌, refl, ap, Bool, true, false, none, some, List, [], ◌∷◌, ltb, lt→ltb,
  arith,
}
use emicro.Limit.Redis.{Counter, fix_window_script}

-- What Redis documents of GET, SET and INCR, for a key that does not expire in between.
pub record Counts {K : Type 0} (redis : Counter K) : Type 0 where
  pub get-set_one : (interval : ℕ) (k : K) → redis.get (redis.set_one interval k) ≡ some 1
  pub get-incr : (k : K) (n : ℕ) → redis.get k ≡ some n → redis.get (redis.incr k) ≡ some (n + 1)

-- The verdicts on `n` requests, one after the other.
pub script_verdicts : {K : Type 0} → Counter K → (interval limit : ℕ) → ℕ → K → List Bool
script_verdicts redis interval limit zero k = []
script_verdicts redis interval limit (suc n) k =
    let (limited, k') = fix_window_script redis interval limit k in
    limited ∷ script_verdicts redis interval limit n k'

-- The first `free` of `n` requests pass, and the others are limited.
abbrev pub first_pass : (free n : ℕ) → List Bool
first_pass free zero = []
first_pass zero (suc n) = true ∷ first_pass zero n
first_pass (suc free) (suc n) = false ∷ first_pass free n

verdicts-counted :
    {K : Type 0} (redis : Counter K)
    → Counts redis
    → (interval limit n val free : ℕ) (k : K) → redis.get k ≡ some val
    → val + free ≡ limit
    → script_verdicts redis interval limit n k ≡ first_pass free n
unfolding script_verdicts fix_window_script
verdicts-counted redis law interval limit zero val free k e h = refl
verdicts-counted redis law interval limit (suc n) val zero k e h =
    let full : ltb val limit ≡ false = ground arith in
    rw (e, full, script_verdicts, fix_window_script)
      (ap (◌∷◌ true) (verdicts-counted redis law interval limit n val zero k e h))
verdicts-counted redis law interval limit (suc n) val (suc free) k e h =
    let room : ltb val limit ≡ true = lt→ltb val limit (omega arith) in
    rw (e, room, script_verdicts, fix_window_script)
      (ap (◌∷◌ false) (
        verdicts-counted redis law interval limit n (val + 1) free (redis.incr k)
          (law.get-incr k val e) (omega arith)))

verdicts-none :
    {K : Type 0} (redis : Counter K) (interval n : ℕ) (k : K)
    → redis.get k ≡ none
    → script_verdicts redis interval 0 n k ≡ first_pass 0 n
unfolding script_verdicts fix_window_script
verdicts-none redis interval zero k e = refl
verdicts-none redis interval (suc n) k e =
    rw (e, script_verdicts, fix_window_script) (ap (◌∷◌ true) (verdicts-none redis interval n k e))

-- From a key that is not there, and until it expires, the script lets exactly the first `limit`
-- requests pass and limits all others, however many there are.
pub script_verdicts-first_pass :
    {K : Type 0} (redis : Counter K)
    → Counts redis
    → (interval limit n : ℕ) (k : K) → redis.get k ≡ none
    → script_verdicts redis interval limit n k ≡ first_pass limit n
unfolding script_verdicts fix_window_script
script_verdicts-first_pass redis law interval limit zero k e = refl
script_verdicts-first_pass redis law interval zero (suc n) k e =
    verdicts-none redis interval (suc n) k e
script_verdicts-first_pass redis law interval (suc limit) (suc n) k e =
    let some_room : ltb (suc limit) 1 ≡ false = ground arith in
    rw (e, some_room, script_verdicts, fix_window_script)
      (ap (◌∷◌ false) (
        verdicts-counted redis law interval (suc limit) n 1 limit (redis.set_one interval k)
          (law.get-set_one interval k) (omega arith)))
