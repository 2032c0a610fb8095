-- ===== src/Balance/P2c/Averages.antt =====
-- loadbalance/p2c/picker.go: the load of a connection, its success rate, and the log.
use native.Mathlib.Nat.{mul-le-mul, one-le-mul, mod-eq_of_lt}
use emicro.Common.{
  ℕ, ◌+◌, ◌-◌, ◌*◌, ◌==◌, ◌^◌, ◌≤◌, ◌<◌, ◌≡◌, refl, inl, inr, Bool-cases, Option, none, some, List,
  get_elem?, adjust, ne→not-==, if◌then◌else◌, arith, All, All-get, adjust_get, map_get,
}
use emicro.Common.Words.{add64, sub64, mul64, u64_mod}
use emicro.Internal.Codes.{Code}
use emicro.Balance.P2c.{
  Floats, Rand, Conn, Picker, end_call, load, root, ewma, elapsed, weight, success_of, decay_time,
  init_success, penalty,
}
use emicro.Balance.P2c.Draws.{IsRand}
use emicro.Balance.P2c.Choice.{pick-IsAnswer, picked}
use emicro.Balance.P2c.Flights.{
  State, Calls, Run, Step, stay, step, picks, fails, ends, done-connections,
}

or_penalty : ℕ → ℕ
or_penalty n = if n == 0 then penalty else n

no_overflow :
    (a b : ℕ)
    → 0 < a
    → a ≤ 2 ^ 32
    → b < 2 ^ 31 - 1
    → (or_penalty (mul64 a (b + 1)) ≡ a * (b + 1))
      × (0 < or_penalty (mul64 a (b + 1)))
      × (or_penalty (mul64 a (b + 1)) < 2 ^ 63)
unfolding or_penalty
no_overflow a b h h' h2 =
    let most : a * (b + 1) ≤ 2 ^ 32 * (2 ^ 31 - 1) =
      mul-le-mul {m₂ = 2 ^ 31 - 1} h' (omega arith) in
    let least : 1 ≤ a * (b + 1) = one-le-mul h (omega arith) in
    let same : mul64 a (b + 1) ≡ a * (b + 1) = mod-eq_of_lt (omega arith) in
    rw (same, ne→not-== (a * (b + 1)) 0 (omega arith)) (refl, least, omega arith)

-- What is relied on of float64: a square root is truncated to a positive word of 32 bits; the decay is
-- a share, from nothing to all; and a mean of two numbers below 2^50 by a share, truncated, is no more
-- than the greater.
pub record IsFloats {F : Type 0} (floats : Floats F) : Type 1 where
  pub root_bounds : (n : ℕ) → 0 < n → n < u64_mod → (0 < root floats n) × (root floats n ≤ 2 ^ 32)
  pub IsShare : F → Type 0
  pub nought-IsShare : IsShare floats.nought
  pub decay-IsShare :
      (t : ℕ)
      → t < 2 ^ 63
      → IsShare (floats.exp (floats.over (floats.of_i64 (sub64 0 t)) (floats.of_i64 decay_time)))
  pub ewma_le : (w : F) (a b m : ℕ) → IsShare w → a ≤ m → b ≤ m → m < 2 ^ 50 → ewma floats w a b ≤ m

pub elapsed_lt : {F : Type 0} (floats : Floats F) (a b : ℕ) → elapsed floats a b < 2 ^ 63
elapsed_lt floats a b = ground arith

module _ {F : Type 0} (floats : Floats F) (law : IsFloats floats) where
  -- The load is the root times the calls in flight and one, and never the penalty for a connection
  -- that nothing is known of, as long as fewer than 2^31 - 1 calls are in flight; it does not
  -- overflow.
  pub load_lem :
      (c : Conn)
      → c.latency < 2 ^ 64 - 1
      → c.inflight < 2 ^ 31 - 1
      → (load floats c ≡ root floats (c.latency + 1) * (c.inflight + 1))
        × (0 < load floats c)
        × (load floats c < 2 ^ 63)
  unfolding load or_penalty
  load_lem c few calls =
      let e : add64 c.latency 1 ≡ c.latency + 1 = omega arith in
      let e' : add64 c.inflight 1 ≡ c.inflight + 1 = omega arith in
      let (least, most) = law.root_bounds (c.latency + 1) (omega arith) (omega arith) in
      rw (e, e', load) (no_overflow (root floats (c.latency + 1)) c.inflight least most calls)

  pub weight-IsShare : (old td : ℕ) → td < 2 ^ 63 → law.IsShare (weight floats old td)
  weight-IsShare old td h = elim (Bool-cases (old == 0)) [
    | inl new ↦ rw new law.nought-IsShare
    | inr known ↦ rw known (law.decay-IsShare td h)
  ]

  pub success_of-le : (err : Option Code) → success_of floats err ≤ init_success
  success_of-le none = omega arith
  success_of-le (some code) = ground (arith)

  abbrev pub InRange : Conn → Type 0
  InRange c = c.success ≤ init_success

  end_call-InRange :
      (start now : ℕ) (err : Option Code) (c : Conn)
      → InRange c
      → InRange (end_call floats start now err c)
  unfolding end_call
  end_call-InRange start now err c h =
      law.ewma_le _ c.success (success_of floats err) init_success
        (weight-IsShare c.latency (elapsed floats now c.last) (elapsed_lt floats now c.last)) h
        (success_of-le err) (omega arith)

  -- Every connection has a success rate of at most 1000.
  abbrev pub AllInRange : List Conn → Type 0
  AllInRange cs = (i : ℕ) (c : Conn) → get_elem? cs i ≡ some c → InRange c

  pub adjust-InRange :
      (f : Conn → Conn) (i : ℕ) (cs : List Conn)
      → ((c : Conn) → InRange c → InRange (f c))
      → AllInRange cs
      → AllInRange (adjust f i cs)
  adjust-InRange f i cs keep h j c at = elim (adjust_get f i j cs c at) [
    | inl (_, (x, here, e)) ↦ rw e (keep x (h j x here))
    | inr (_, here) ↦ h j c here
  ]

  module _ {R : Type 0} (rand : Rand R) (law_r : IsRand rand) where
    step-InRange :
        (s t : State R)
        → Step floats rand s t
        → AllInRange s.0.connections
        → AllInRange t.0.connections
    step-InRange s t (picks now start i p q calls e) h =
        let (_, same) = rw e at (pick-IsAnswer floats rand law_r now p) in
        rw same (adjust-InRange (picked now) i p.connections (λ c k. k) h)
    step-InRange s t (fails now p q calls e) h =
        let (_, same) = rw e at (pick-IsAnswer floats rand law_r now p) in rw same h
    step-InRange s t (ends i start now err p q a b lines e) h =
        let kept =
          adjust-InRange (end_call floats start now err) i p.connections
            (end_call-InRange start now err) h in
        elim (done-connections floats rand i start now err p q lines e) [
          | inl same ↦ rw same kept
          | inr logged ↦
              rw logged (λ j c at. let (x, here, e') = map_get _ j _ c at in rw e' (kept j x here))
        ]

    Run-AllInRange :
        (s t : State R)
        → Run floats rand s t
        → AllInRange s.0.connections
        → AllInRange t.0.connections
    Run-AllInRange s t stay h = h
    Run-AllInRange s u (step t _ r e) h = step-InRange t u e (Run-AllInRange s t r h)

    -- From a picker with no success rate over 1000, any sequence of picks and of ends of calls leaves
    -- no success rate over 1000; rand.Intn must stay below its bound, and the floats must round a mean
    -- of two numbers to no more than the greater.
    pub Run-success :
        (p q : Picker R) (calls after : Calls) (i : ℕ) (c : Conn)
        → All (λ c. c.success ≤ init_success) p.connections
        → Run floats rand (p, calls) (q, after)
        → get_elem? q.connections i ≡ some c
        → c.success ≤ init_success
    Run-success p q calls after i c start run at =
        Run-AllInRange (p, calls) (q, after) run
          (λ j d e. All-get (λ c. c.success ≤ init_success) p.connections j d start e) i c at
