-- ===== src/Balance/Fastest/Choice.antt =====
-- The loop of the fastest pick, and what the lock makes of the pick.
use native.Mathlib.Nat.{sub-zero}
use emicro.Common.{
  ℕ, ◌^◌, ◌≤◌, ◌≡◌, ◌≢◌, refl, ◌⊎◌, inl, inr, true, false, Option, none, some, get_elem?, All,
  arith,
}
use emicro.Common.Words.{add64}
use emicro.Balance.Types.{PickInfo}
use emicro.Balance.Best.{IsChoice, best_from_lem}
use emicro.Balance.Fastest.{Conn, Picker, returned, faster, passes, fastest, pick}

-- `≤` of int64.
abbrev LeSigned : ℕ → ℕ → Type 0
LeSigned a b = add64 a (2 ^ 63) ≤ add64 b (2 ^ 63)

faster-IsChoice : IsChoice faster LeSigned
faster-IsChoice = record {
  self = λ a. omega arith;
  trans = λ a b c h k. omega arith;
  taken = λ a b h. ground arith;
  left = λ a b h. ground arith;
  mono = λ a b h k. refl;
  first = λ a b h k. cc;
}

-- The place `i` holds a connection that passes, and none that passes has a shorter response time.
pub record IsFastest (p : Picker) (info : PickInfo) (i w : ℕ) : Type 0 where
  pub con : Conn
  pub here : get_elem? p.connections i ≡ some con
  pub allowed : passes p info con ≡ true
  pub timed : con.resp_duration ≡ w
  pub least : All (λ c. passes p info c ≡ true → LeSigned w c.resp_duration) p.connections

-- The loop finds a fastest connection among those that pass, and nothing where none passes.
pub fastest_lem :
    (p : Picker) (info : PickInfo)
    → ((fastest p info ≡ none) × All (λ c. passes p info c ≡ true → true ≡ false) p.connections)
      ⊎ ((i : ℕ) × (w : ℕ) × (fastest p info ≡ some (i, w)) × IsFastest p info i w)
unfolding fastest
fastest_lem p info =
    elim (best_from_lem (passes p info) (λ c. c.resp_duration) faster-IsChoice p.connections 0) [
      | inl nothing ↦ inl nothing
      | inr b ↦ inr (
        b.place,
        b.weight,
        b.result,
        record {
          con = b.found.elem;
          here = rw sub-zero at b.found.here;
          allowed = b.found.passes;
          timed = b.found.keyed;
          least = b.as_good;
        },
      )
    ]

-- No pick returns: it takes the writer's lock and gives back a reader's.
pub pick_never_returns :
    (p : Picker) (info : PickInfo) (r : Option ℕ × Picker) → pick p info ≢ returned r
unfolding pick
pick_never_returns p info r = ground arith
