-- ===== src/Balance/WeightRoundRobin/Choice.antt =====
-- What a weighted pick returns, and what it does to the current weights.
use native.Mathlib.Nat.{sub-zero}
use emicro.Common.{
  ℕ, zero, suc, ◌+◌, ◌-◌, ◌%◌, ◌^◌, ◌≤◌, ◌<◌, ◌≡◌, refl, ap, ◌⊎◌, inl, inr, true, false, Option,
  none, some, List, [], ◌∷◌, ◌==◌, ne→not-==, Bool-cases, length, get_elem?, lt_of_get, adjust, All,
  arith,
}
use emicro.Common.Words.{sub32}
use emicro.Balance.Types.{PickInfo}
use emicro.Balance.Best.{best_from, IsChoice, best_from_lem}
use emicro.Balance.WeightRoundRobin.{WeightConn, WeightPicker, passes, heavier, settle, pick}
use emicro.Balance.WeightRoundRobin.Loop.{
  bumped, total_from, visit-eq, sum_current, sum_current-bumped, bumped_none, length-bumped,
  total_from-lt,
}

heavier-IsChoice : IsChoice heavier (λ a b. b ≤ a)
heavier-IsChoice = record {
  self = λ a. omega arith;
  trans = λ a b c h k. omega arith;
  taken = λ a b h. ground arith;
  left = λ a b h. ground arith;
  mono = λ a b h k. refl;
  first = λ a b h k. cc;
}

abbrev pub after_loop : WeightPicker → PickInfo → List WeightConn
after_loop p info = bumped (p.filter info) p.connections

abbrev pub total : WeightPicker → PickInfo → ℕ
total p info = total_from (p.filter info) 0 p.connections

-- The pick at place `i`: after the loop has added the effective weights, its connection passes and
-- none that passes has a higher current weight, which then falls by the total.
pub record PicksHeaviest (p : WeightPicker) (info : PickInfo) (i : ℕ) : Type 0 where
  pub con : WeightConn
  pub here : get_elem? (after_loop p info) i ≡ some con
  pub allowed : passes p info con ≡ true
  pub heaviest :
      All (λ c. passes p info c ≡ true → c.current_weight ≤ con.current_weight) (after_loop p info)
  pub settled : pick p info ≡ (
    some i,
    record p {
      connections =
          adjust
            (λ c. record c { current_weight = sub32 c.current_weight (total p info) })
            i
            (after_loop p info);
    },
  )

scan : WeightPicker → PickInfo → Option (ℕ × ℕ)
scan p info = best_from heavier (passes p info) (λ c. c.current_weight) (after_loop p info) 0 none

pick-none :
    (p : WeightPicker) (info : PickInfo)
    → scan p info ≡ none
    → after_loop p info ≡ p.connections
    → pick p info ≡ (none, p)
unfolding scan pick
pick-none p info e same = elim (Bool-cases (length p.connections == 0)) [
  | inl empty ↦ rw empty
  | inr some_left ↦
      rw (some_left, visit-eq (p.filter info) p.connections 0 0 none)
        (rw (e, settle) (ap (λ cs. (none, record p { connections = cs })) same))
]

pick-some :
    (p : WeightPicker) (info : PickInfo) (i w : ℕ)
    → 0 < length p.connections
    → scan p info ≡ some (i, w)
    → pick p info ≡ (
      some i,
      record p {
        connections =
            adjust
              (λ c. record c { current_weight = sub32 c.current_weight (total p info) })
              i
              (after_loop p info);
      },
    )
unfolding scan pick
pick-some p info i w some_left e =
    rw
      (
        ne→not-== (length p.connections) 0 (omega arith),
        visit-eq (p.filter info) p.connections 0 0 none,
      )
      (rw (e, settle))

-- Either no connection passes, and the error is returned and nothing changes, or the pick returns a
-- connection that passes and has the highest current weight.
pub pick_heaviest :
    (p : WeightPicker) (info : PickInfo)
    → ((pick p info ≡ (none, p))
        × All (λ c. passes p info c ≡ true → true ≡ false) (after_loop p info))
      ⊎ ((i : ℕ) × PicksHeaviest p info i)
unfolding scan
pick_heaviest p info =
    elim (best_from_lem (passes p info) (λ c. c.current_weight) heavier-IsChoice (after_loop p info)
      0) [
        | inl (e, nothing) ↦
            inl (pick-none p info e (bumped_none (p.filter info) p.connections nothing), nothing)
        | inr b ↦ inr (
          b.place,
          record {
            con = b.found.elem;
            here = rw sub-zero at b.found.here;
            allowed = b.found.passes;
            heaviest = rw b.found.keyed b.as_good;
            settled =
                pick-some p info b.place b.weight
                  (omega (
                    arith,
                    length-bumped (p.filter info) p.connections,
                    lt_of_get (after_loop p info) (b.place - 0) b.found.elem b.found.here,
                  ))
                  b.result;
          },
        )
      ]

pub sum_current-adjust :
    (f : WeightConn → WeightConn) (i : ℕ) (conns : List WeightConn) (c : WeightConn)
    → get_elem? conns i ≡ some c
    → sum_current (adjust f i conns) + c.current_weight ≡ sum_current conns + (f c).current_weight
unfolding sum_current
sum_current-adjust f i [] c h = cc
sum_current-adjust f zero (x ∷ rest) c h = let same : x ≡ c = cc in rw same (omega arith)
sum_current-adjust f (suc i) (x ∷ rest) c h = omega (arith, sum_current-adjust f i rest c h)

-- The sum of the current weights is conserved by a pick, modulo 2^32: what the loop adds, the picked
-- connection gives back.
pub sum_current-pick :
    (p : WeightPicker) (info : PickInfo)
    → sum_current (pick p info).1.connections % 2 ^ 32 ≡ sum_current p.connections % 2 ^ 32
sum_current-pick p info = elim (pick_heaviest p info) [
  | inl (e, _) ↦ rw e
  | inr (i, h) ↦ rw (h.settled) (
      omega (
        arith,
        sum_current-bumped (p.filter info) p.connections 0,
        total_from-lt (p.filter info) p.connections 0,
        sum_current-adjust
            (λ c. record c { current_weight = sub32 c.current_weight (total p info) }) i
            (after_loop p info) h.con h.here,
      ))
]
