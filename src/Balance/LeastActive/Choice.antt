-- ===== src/Balance/LeastActive/Choice.antt =====
-- What a pick of the least active connection returns, and its Done.
use emicro.Common.{
  ℕ, ◌-◌, ◌^◌, ◌≤◌, ◌<◌, ◌≡◌, ap, ◌⊎◌, inl, inr, Bool, true, false, Bool-cases, lt_of_get, All-get,
  Option, none, some, ltb, ◌==◌, ne→not-==, length, get_elem?, adjust-adjust, All, arith,
}
use native.Mathlib.Nat.{sub-zero}
use emicro.Common.Words.{add32, sub32}
use emicro.Balance.Types.{PickInfo}
use emicro.Balance.Best.{best_from, IsChoice, best_from_lem}
use emicro.Balance.LeastActive.{Conn, Picker, less_active, set_active, pick, pick_done}

less_active-IsChoice : IsChoice less_active (λ a b. a ≤ b)
less_active-IsChoice = record {
  self = λ a. omega arith;
  trans = λ a b c h k. omega arith;
  taken = λ a b h. ground arith;
  left = λ a b h. ground arith;
  mono = λ a b h k. ground arith;
  first = λ a b h k. ground arith;
}

abbrev pub passes : Picker → PickInfo → Conn → Bool
passes p info con = p.filter info con.address

-- The pick found no connection: none that passes has room for one more call.
abbrev pub NothingToPick : Picker → PickInfo → Type 0
NothingToPick p info =
    All (λ c. passes p info c ≡ true → ltb c.active (2 ^ 32 - 1) ≡ false) p.connections

-- The pick at place `i`: the connection passes, and none that passes has fewer calls.
pub record PicksLeast (p : Picker) (info : PickInfo) (i : ℕ) : Type 0 where
  pub con : Conn
  pub here : get_elem? p.connections i ≡ some con
  pub allowed : passes p info con ≡ true
  pub least : All (λ c. passes p info c ≡ true → con.active ≤ c.active) p.connections
  pub counted :
      pick p info ≡ (some i, record p { connections = set_active (λ n. add32 n 1) i p.connections })

scan : Picker → PickInfo → Option (ℕ × ℕ)
scan p info = best_from less_active (passes p info) (λ c. c.active) p.connections 0 none

pick-none : (p : Picker) (info : PickInfo) → scan p info ≡ none → pick p info ≡ (none, p)
unfolding scan pick
pick-none p info e = elim (Bool-cases (length p.connections == 0)) [
  | inl empty ↦ rw empty
  | inr some_left ↦ rw some_left (rw (e, pick))
]

pick-some :
    (p : Picker) (info : PickInfo) (i w : ℕ)
    → 0 < length p.connections
    → scan p info ≡ some (i, w)
    → pick p info ≡ (some i, record p { connections = set_active (λ n. add32 n 1) i p.connections })
unfolding scan pick
pick-some p info i w some_left e = rw (ne→not-== (length p.connections) 0 (omega arith), e, pick)

-- Either no connection that passes has room for one more call, and the error is returned, or the
-- pick returns a connection that passes and that no passing one has fewer calls than, and counts
-- one more call there.
pub pick_least :
    (p : Picker) (info : PickInfo)
    → ((pick p info ≡ (none, p)) × NothingToPick p info) ⊎ ((i : ℕ) × PicksLeast p info i)
unfolding scan
pick_least p info =
    elim (best_from_lem (passes p info) (λ c. c.active) less_active-IsChoice p.connections 0) [
      | inl (e, nothing) ↦ inl (pick-none p info e, nothing)
      | inr b ↦ inr (
        b.place,
        record {
          con = b.found.elem;
          here = rw sub-zero at b.found.here;
          allowed = b.found.passes;
          least = rw b.found.keyed b.as_good;
          counted =
              pick-some p info b.place b.weight
                (omega (arith, lt_of_get p.connections (b.place - 0) b.found.elem b.found.here))
                b.result;
        },
      )
    ]

-- Done of a pick takes the count back: the picker is as it was, where the counts are uint32
-- values.
pub pick_done-pick :
    (p q : Picker) (info : PickInfo) (i : ℕ)
    → All (λ c. c.active < 2 ^ 32) p.connections
    → pick p info ≡ (some i, q)
    → pick_done q i ≡ p
unfolding pick_done
pick_done-pick p q info i words e = elim (pick_least p info) [
  | inl (failed, _) ↦ cc
  | inr (j, found) ↦
      let same : i ≡ j = cc (found.counted) in
      let after : q ≡ record p { connections = set_active (λ n. add32 n 1) j p.connections } =
        cc (found.counted) in
      rw (after, same)
        (ap (λ cs. record p { connections = cs })
          (adjust-adjust _ _ j p.connections found.con found.here (
            back found.con
              (All-get (λ c. c.active < 2 ^ 32) p.connections j found.con words found.here))))
]
  where
    back : (c : Conn) → c.active < 2 ^ 32 → record c { active = sub32 (add32 c.active 1) 1 } ≡ c
    back c h = ap (λ n. record c { active = n }) (omega arith)
