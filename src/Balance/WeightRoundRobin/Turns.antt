-- ===== src/Balance/WeightRoundRobin/Turns.antt =====
-- loadbalance/roundrobin/weight_picker.go: Pick and Done as the sections that hold one connection's
-- mutex, for picks that run at the same time.
pub mod Tracks
pub mod Alone
pub mod Debts
pub mod Conserved
use emicro.Common.{
  ℕ, zero, suc, Bool, true, false, Option, none, some, List, [], ◌∷◌, ◌++◌, ◌≡◌, ◌≢◌, get_elem?,
  adjust, All, if◌then◌else◌,
}
use emicro.Common.Words.{add32, sub32}
use emicro.Balance.Types.{PickInfo}
use emicro.Balance.WeightRoundRobin.{WeightConn, WeightPicker, passes, bump, heavier, reweigh}

-- How far a Pick has come, with its totalWeight and the place of its maxWeightConn: at the place of
-- the loop; inside the loop's critical section, where the weights are added and maxWeightConn is to be
-- compared; after the loop; returned, with its Done to come; and after Done.
pub data Turn : Type 0 where
  visiting : (place total : ℕ) (max : Option ℕ) → Turn
  comparing : (place total : ℕ) (max : Option ℕ) → Turn
  settling : (max total : ℕ) → Turn
  failed : Turn
  picked : (max : ℕ) → Turn
  finished : Turn

abbrev pub on_conn : (WeightConn → WeightConn) → ℕ → WeightPicker → WeightPicker
on_conn f place p = record p { connections = adjust f place p.connections }

abbrev pub give_back : ℕ → WeightConn → WeightConn
give_back total con = record con { current_weight = sub32 con.current_weight total }

-- The current weight of maxWeightConn, as it is when it is compared; its mutex is not held.
abbrev pub weight_at : List WeightConn → Option ℕ → Option ℕ
weight_at conns none = none
weight_at conns (some max) = elim (get_elem? conns max) [
  | none ↦ none
  | some con ↦ some con.current_weight
]

-- After the loop.
abbrev pub after_loop : ℕ → Option ℕ → Turn
after_loop total none = failed
after_loop total (some max) = settling max total

-- The next step of a pick; `err` says whether the Done that it ends with has an error. On no
-- connections the loop is over at once, and returns what the early return does.
unfoldable pub advance_turn : PickInfo → Bool → Turn → WeightPicker → Turn × WeightPicker
advance_turn info err (visiting place total max) p = elim (get_elem? p.connections place) [
  | none ↦ (after_loop total max, p)
  | some con ↦
      if passes p info con
      then (comparing place (add32 total con.efficient_weight) max, on_conn bump place p)
      else (visiting (suc place) total max, p)
]
-- The connection at the place is there, as it was before.
advance_turn info err (comparing place total max) p = elim (get_elem? p.connections place) [
  | none ↦ (failed, p)
  | some con ↦ (
    visiting (suc place) total
        (if heavier (weight_at p.connections max) con.current_weight then some place else max),
    p,
  )
]
advance_turn info err (settling max total) p = (picked max, on_conn (give_back total) max p)
advance_turn info err (picked max) p = (finished, on_conn (reweigh err) max p)
advance_turn info err failed p = (failed, p)
advance_turn info err finished p = (finished, p)

abbrev pub is_returned : Turn → Bool
is_returned (visiting place total max) = false
is_returned (comparing place total max) = false
is_returned (settling max total) = false
is_returned failed = true
is_returned (picked max) = true
is_returned finished = true

-- At most some number of steps of one pick up to its return, with none of another between.
unfoldable pub run_turn : ℕ → PickInfo → Turn → WeightPicker → Turn × WeightPicker
run_turn zero info turn p = (turn, p)
run_turn (suc n) info turn p = elim (is_returned turn) [
  | true ↦ (turn, p)
  | false ↦ (let next = advance_turn info false turn p in run_turn n info next.0 next.1)
]

-- The place whose mutex the pick holds between two steps, and the place whose mutex the next step
-- takes.
abbrev pub holds : Turn → Option ℕ
holds (comparing place total max) = some place
holds _ = none

abbrev pub takes : PickInfo → Turn → WeightPicker → Option ℕ
takes info (visiting place total max) p = elim (get_elem? p.connections place) [
  | none ↦ none
  | some con ↦ if passes p info con then some place else none
]
takes info (settling max total) p = some max
takes info (picked max) p = some max
takes info _ p = none

-- The picker, and the picks that were begun.
abbrev pub Shared : Type 0
Shared = WeightPicker × List (PickInfo × Turn)

-- Picks begin at any time, and any pick goes on whose next mutex no other pick holds.
pub data Step : Shared → Shared → Type 0 where
  begins :
      (info : PickInfo) (p : WeightPicker) (turns : List (PickInfo × Turn))
      → Step (p, turns) (p, (info, visiting 0 0 none) ∷ turns)
  advances :
      (info : PickInfo) (err : Bool) (turn next : Turn) (p q : WeightPicker)
      (a b : List (PickInfo × Turn))
      → advance_turn info err turn p ≡ (next, q)
      → ((place : ℕ) → takes info turn p ≡ some place → All (λ t. holds t.1 ≢ some place) (a ++ b))
      → Step (p, a ++ ((info, turn) ∷ b)) (q, a ++ ((info, next) ∷ b))

pub data Run (s : Shared) : Shared → Type 0 where
  stay : Run s s
  step : (t u : Shared) → Run s t → Step t u → Run s u
