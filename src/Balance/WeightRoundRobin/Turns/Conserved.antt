-- ===== src/Balance/WeightRoundRobin/Turns/Conserved.antt =====
-- loadbalance/roundrobin/weight_picker.go: the sum of the current weights, through picks that run at
-- the same time.
use emicro.Common.{
  ℕ, ◌+◌, ◌%◌, ◌^◌, ◌≡◌, refl, ◌∙◌, ap, List, [], length, arith, All, All-middle, All-replace,
  sum_by, sum_by-between,
}
use emicro.Balance.Types.{PickInfo}
use emicro.Balance.WeightRoundRobin.{WeightPicker}
use emicro.Balance.WeightRoundRobin.Loop.{sum_current}
use emicro.Balance.WeightRoundRobin.Turns.{Turn, Shared, Step, begins, advances, Run, stay, step}
use emicro.Balance.WeightRoundRobin.Turns.Debts.{owed, IsSound, Keeps, advance_turn-Keeps}

abbrev pub owes : PickInfo × Turn → ℕ
owes t = owed t.1

-- What all the picks together still have to give back.
abbrev pub debts : List (PickInfo × Turn) → ℕ
debts turns = sum_by owes turns

abbrev AllSound : WeightPicker → List (PickInfo × Turn) → Type 0
AllSound p turns = All (λ t. IsSound (length p.connections) t.1) turns

record Conserves (first : WeightPicker) (s : Shared) : Type 0 where
  same : length s.0.connections ≡ length first.connections
  sound : AllSound first s.1
  sums : sum_current s.0.connections % 2 ^ 32 ≡ (sum_current first.connections + debts s.1) % 2 ^ 32

step-Conserves :
    (first : WeightPicker) (s t : Shared) → Step s t → Conserves first s → Conserves first t
step-Conserves first s t (begins info p turns) h = record {
  same = h.same;
  sound = (refl, h.sound);
  sums = h.sums ∙ ap (λ (n : ℕ). (sum_current first.connections + n) % 2 ^ 32) (omega arith);
}
step-Conserves first s t (advances info err turn next p q a b e takes) h =
    let turn_sound =
      All-middle (λ t. IsSound (length first.connections) t.1) a b (info, turn) h.sound in
    let keeps : Keeps turn p (next, q) =
      rw e at (advance_turn-Keeps info err turn p (rw (h.same) turn_sound)) in
    record {
      same = keeps.1 ∙ h.same;
      sound =
          All-replace (λ t. IsSound (length first.connections) t.1) a b (info, turn) (info, next)
            (rw (h.same) at keeps.2) h.sound;
      sums = omega (
        arith,
        keeps.0,
        h.sums,
        sum_by-between owes a b (info, turn),
        sum_by-between owes a b (info, next),
      );
    }

Run-Conserves :
    (first : WeightPicker) (s t : Shared) → Run s t → Conserves first s → Conserves first t
Run-Conserves first s t stay h = h
Run-Conserves first s u (step t _ r e) h = step-Conserves first t u e (Run-Conserves first s t r h)

-- Through any number of picks and of their Dones whose critical sections interleave in any order, the
-- sum of the current weights is what it was before the first of them and what the picks that are under
-- way have added and not yet taken off again, modulo 2^32.
pub sum_current-Run :
    (p q : WeightPicker) (turns : List (PickInfo × Turn))
    → Run (p, []) (q, turns)
    → sum_current q.connections % 2 ^ 32 ≡ (sum_current p.connections + debts turns) % 2 ^ 32
sum_current-Run p q turns run =
    (Run-Conserves p (p, []) (q, turns) run
      (record { same = refl; sound = tt; sums = ap (λ (n : ℕ). n % 2 ^ 32) (omega arith) })).sums
