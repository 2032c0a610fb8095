-- ===== src/Balance/Tests/Together.antt =====
-- Runs of pickers whose picks run at the same time.
use emicro.Common.{◌+◌, ◌%◌, ◌^◌, ◌≡◌, refl, true, false, none, some, List, [], ◌∷◌}
use emicro.Balance.Types.{PickInfo, group_filter}
use emicro.Balance.LeastActive
use emicro.Balance.LeastActive.Turns
use emicro.Balance.LeastActive.Turns.Counts.{active-Run, calls_at}
use emicro.Balance.WeightRoundRobin
use emicro.Balance.WeightRoundRobin.{WeightPicker}
use emicro.Balance.WeightRoundRobin.Loop.{sum_current}
use emicro.Balance.WeightRoundRobin.Turns as Weighted
use emicro.Balance.WeightRoundRobin.Choice
use emicro.Balance.WeightRoundRobin.Turns.Conserved.{sum_current-Run, debts}
use emicro.Balance.Tests.{weights, in_a, anyone, at}

-- Two picks begin, and the second takes the mutex of the first connection.
abbrev two_begun : List (PickInfo × Weighted.Turn)
two_begun = (in_a, Weighted.visiting 0 0 none) ∷ (in_a, Weighted.visiting 0 0 none) ∷ []

abbrev one_ahead : List (PickInfo × Weighted.Turn)
one_ahead = (in_a, Weighted.comparing 0 3 none) ∷ (in_a, Weighted.visiting 0 0 none) ∷ []

abbrev one_bumped : WeightPicker
one_bumped = Weighted.on_conn WeightRoundRobin.bump 0 weights

two_picks : Weighted.Run (weights, []) (one_bumped, one_ahead)
unfolding Weighted.advance_turn group_filter
two_picks =
    Weighted.step (weights, two_begun) (one_bumped, one_ahead)
      (Weighted.step _ _ (Weighted.step _ _ Weighted.stay (Weighted.begins in_a weights []))
        (Weighted.begins in_a weights _))
      (Weighted.advances in_a false (Weighted.visiting 0 0 none) (Weighted.comparing 0 3 none)
        weights one_bumped [] ((in_a, Weighted.visiting 0 0 none) ∷ []) refl
        (λ place e. (λ h. cc, tt)))

sum_current-Run_example :
    sum_current one_bumped.connections % 2 ^ 32
    ≡ (sum_current weights.connections + debts one_ahead) % 2 ^ 32
sum_current-Run_example = sum_current-Run weights one_bumped one_ahead two_picks

-- A pick scans the only connection and counts its call there.
abbrev idle : LeastActive.Picker
idle = record {
  cnt = 0;
  filter = λ info address. true;
  connections = LeastActive.new_conn (1, at [] 0) ∷ [];
}

abbrev counted : LeastActive.Picker
counted = Turns.on_active (λ n. n + 1) 0 idle

abbrev alone : Turns.Turn → List (PickInfo × Turns.Turn)
alone turn = (anyone, turn) ∷ []

goes :
    (q r : LeastActive.Picker) (turn next : Turns.Turn)
    → Turns.Run (idle, []) (q, alone turn)
    → Turns.advance_turn anyone turn q ≡ (next, r)
    → Turns.Run (idle, []) (r, alone next)
goes q r turn next run e = Turns.step _ _ run (Turns.advances anyone turn next q r [] [] e)

one_pick : Turns.Run (idle, []) (counted, alone (Turns.picked 0))
unfolding Turns.advance_turn
one_pick =
    goes idle counted (Turns.counting 0) (Turns.picked 0)
      (goes idle idle (Turns.scanning 1 0 (some 0)) (Turns.counting 0)
        (goes idle idle Turns.first_turn (Turns.scanning 1 0 (some 0))
          (Turns.step _ _ Turns.stay (Turns.begins anyone idle [])) refl)
        refl)
      refl

active-Run_example : 1 % 2 ^ 32 ≡ calls_at 0 (alone (Turns.picked 0)) % 2 ^ 32
active-Run_example =
    active-Run idle counted (alone (Turns.picked 0)) 0
      (record (LeastActive.new_conn (1, at [] 0)) { active = 1 }) (refl, tt) one_pick refl
