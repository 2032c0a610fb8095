-- ===== src/Balance/WeightRoundRobin/Turns/Debts.antt =====
-- loadbalance/roundrobin/weight_picker.go: what one step of a pick does to the current weights, and
-- what the pick still has to give back.
use emicro.Common.{
  ℕ, zero, suc, ◌+◌, ◌%◌, ◌^◌, ◌<◌, ◌≡◌, refl, ap, inl, inr, Bool, Bool-cases, Option, none, some,
  List, [], ◌∷◌, get_elem?, lt_of_get, get_elem?_lt, length, length-adjust, adjust, if◌then◌else◌,
  arith,
}
use emicro.Balance.Types.{PickInfo}
use emicro.Balance.WeightRoundRobin.{WeightConn, WeightPicker, passes, bump, heavier, reweigh}
use emicro.Balance.WeightRoundRobin.Loop.{sum_current}
use emicro.Balance.WeightRoundRobin.Choice.{sum_current-adjust}
use emicro.Balance.WeightRoundRobin.Turns.{
  Turn, visiting, comparing, settling, failed, picked, finished, advance_turn, after_loop,
  give_back, weight_at,
}

-- What a pick has added to the current weights and not taken off again.
abbrev pub owed : Turn → ℕ
owed (visiting place total max) = total
owed (comparing place total max) = total
owed (settling max total) = total
owed failed = 0
owed (picked max) = 0
owed finished = 0

-- Nothing is added before there is a maxWeightConn, which is one of the connections.
abbrev Backed : ℕ → ℕ → Option ℕ → Type 0
Backed n total none = total ≡ 0
Backed n total (some max) = (max < n) × (total < 2 ^ 32)

abbrev MaxIn : ℕ → Option ℕ → Type 0
MaxIn n none = Unit
MaxIn n (some max) = max < n

abbrev pub IsSound : ℕ → Turn → Type 0
IsSound n (visiting place total max) = Backed n total max
IsSound n (comparing place total max) = (place < n) × (total < 2 ^ 32) × MaxIn n max
IsSound n (settling max total) = (max < n) × (total < 2 ^ 32)
IsSound n failed = Unit
IsSound n (picked max) = Unit
IsSound n finished = Unit

Backed-MaxIn : (n total : ℕ) (max : Option ℕ) → Backed n total max → MaxIn n max
Backed-MaxIn n total none h = tt
Backed-MaxIn n total (some max) (below, small) = below

-- A step leaves the sum of the current weights less what its pick owes, modulo 2^32, and the number
-- of connections.
abbrev pub Keeps : Turn → WeightPicker → Turn × WeightPicker → Type 0
Keeps turn p (next, q) =
    ((sum_current q.connections + owed turn) % 2 ^ 32
      ≡ (sum_current p.connections + owed next) % 2 ^ 32)
    × (length q.connections ≡ length p.connections)
    × IsSound (length p.connections) next

visiting-Keeps :
    (info : PickInfo) (err : Bool) (place total : ℕ) (max : Option ℕ) (p : WeightPicker)
    → Backed (length p.connections) total max
    → Keeps (visiting place total max) p (advance_turn info err (visiting place total max) p)
unfolding advance_turn
visiting-Keeps info err place total max p h = go (get_elem? p.connections place) refl
  where
    ends :
        (max : Option ℕ)
        → Backed (length p.connections) total max
        → Keeps (visiting place total max) p (after_loop total max, p)
    ends none none_added = (rw none_added refl, refl, tt)
    ends (some m) (below, small) = (refl, refl, (below, small))

    go :
        (x : Option WeightConn)
        → get_elem? p.connections place ≡ x
        → Keeps (visiting place total max) p (advance_turn info err (visiting place total max) p)
    go none e = rw (e, advance_turn) (ends max h)
    go (some con) e =
        rw (e, advance_turn)
          (elim (Bool-cases (passes p info con)) [
            | inr out ↦ rw out (refl, refl, h)
            | inl here ↦ rw here (
              omega (arith, sum_current-adjust bump place p.connections con e),
              length-adjust bump place p.connections,
              (lt_of_get p.connections place con e, omega arith, Backed-MaxIn _ total max h),
            )
          ])

comparing-Keeps :
    (info : PickInfo) (err : Bool) (place total : ℕ) (max : Option ℕ) (p : WeightPicker)
    → IsSound (length p.connections) (comparing place total max)
    → Keeps (comparing place total max) p (advance_turn info err (comparing place total max) p)
unfolding advance_turn
comparing-Keeps info err place total max p (below, small, inside) =
    let (con, e) = get_elem?_lt p.connections place below in
    rw (e, advance_turn) (refl, refl, larger con max inside)
  where
    larger :
        (con : WeightConn) (max : Option ℕ)
        → MaxIn (length p.connections) max
        → Backed
            (length p.connections)
            total
            (if heavier (weight_at p.connections max) con.current_weight then some place else max)
    larger con none h = (below, small)
    larger con (some m) h =
        elim (Bool-cases (heavier (weight_at p.connections (some m)) con.current_weight)) [
          | inl more ↦ rw more (below, small)
          | inr less ↦ rw less (h, small)
        ]

settling-Keeps :
    (info : PickInfo) (err : Bool) (max total : ℕ) (p : WeightPicker)
    → IsSound (length p.connections) (settling max total)
    → Keeps (settling max total) p (advance_turn info err (settling max total) p)
unfolding advance_turn
settling-Keeps info err max total p (below, small) =
    let (con, e) = get_elem?_lt p.connections max below in
    (
      omega (arith, sum_current-adjust (give_back total) max p.connections con e),
      length-adjust (give_back total) max p.connections,
      tt,
    )

-- Done changes no current weight.
reweigh-current :
    (err : Bool) (con : WeightConn) → (reweigh err con).current_weight ≡ con.current_weight
unfolding reweigh
reweigh-current err con = ground arith

sum_current-reweigh :
    (err : Bool) (i : ℕ) (conns : List WeightConn)
    → sum_current (adjust (reweigh err) i conns) ≡ sum_current conns
unfolding sum_current
sum_current-reweigh err i [] = refl
sum_current-reweigh err zero (con ∷ rest) = rw (reweigh-current err con)
sum_current-reweigh err (suc i) (con ∷ rest) =
    ap (λ n. con.current_weight + n) (sum_current-reweigh err i rest)

pub advance_turn-Keeps :
    (info : PickInfo) (err : Bool) (turn : Turn) (p : WeightPicker)
    → IsSound (length p.connections) turn
    → Keeps turn p (advance_turn info err turn p)
unfolding advance_turn
advance_turn-Keeps info err (visiting place total max) p h =
    visiting-Keeps info err place total max p h
advance_turn-Keeps info err (comparing place total max) p h =
    comparing-Keeps info err place total max p h
advance_turn-Keeps info err (settling max total) p h = settling-Keeps info err max total p h
advance_turn-Keeps info err failed p h = (refl, refl, tt)
advance_turn-Keeps info err (picked max) p h = (
  rw (sum_current-reweigh err max p.connections) refl,
  length-adjust (reweigh err) max p.connections,
  tt,
)
advance_turn-Keeps info err finished p h = (refl, refl, tt)
