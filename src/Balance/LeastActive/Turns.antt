-- ===== src/Balance/LeastActive/Turns.antt =====
-- loadbalance/leastactive/picker.go: Pick and Done as their atomic operations, for picks that run at
-- the same time.
pub mod Counts
mod Alone
use emicro.Common.{
  ℕ, suc, ◌^◌, ◌-◌, Bool, Option, none, some, List, [], ◌∷◌, ◌++◌, ◌≡◌, get_elem?, ltb,
  if◌then◌else◌,
}
use emicro.Common.Words.{add32, sub32}
use emicro.Balance.Types.{PickInfo}
use emicro.Balance.LeastActive.{Conn, Picker, set_active}

-- How far a Pick has come: at a place of the loop, with leastActive and the place of res; after the
-- loop; returned, with its Done to come; and after Done.
pub data Turn : Type 0 where
  scanning : (place least : ℕ) (res : Option ℕ) → Turn
  counting : (res : ℕ) → Turn
  failed : Turn
  picked : (res : ℕ) → Turn
  finished : Turn

abbrev pub on_active : (ℕ → ℕ) → ℕ → Picker → Picker
on_active f place p = record p { connections = set_active f place p.connections }

abbrev pub after_loop : Option ℕ → Turn
after_loop none = failed
after_loop (some res) = counting res

-- `leastActive` starts at math.MaxUint32, with no connection.
abbrev pub first_turn : Turn
first_turn = scanning 0 (2 ^ 32 - 1) none

-- The next step of a pick, with at most one atomic operation.
unfoldable pub advance_turn : PickInfo → Turn → Picker → Turn × Picker
advance_turn info (scanning place least res) p = elim (get_elem? p.connections place) [
  | none ↦ (after_loop res, p)
  | some con ↦ (
    if p.filter info con.address
        then (if ltb con.active least
            then scanning (suc place) con.active (some place)
            else scanning (suc place) least res)
        else scanning (suc place) least res,
    p,
  )
]
advance_turn info (counting res) p = (picked res, on_active (λ n. add32 n 1) res p)
advance_turn info (picked res) p = (finished, on_active (λ n. sub32 n 1) res p)
advance_turn info failed p = (failed, p)
advance_turn info finished p = (finished, p)

-- The picker, and the picks that were begun.
abbrev pub Shared : Type 0
Shared = Picker × List (PickInfo × Turn)

pub data Step : Shared → Shared → Type 0 where
  begins :
      (info : PickInfo) (p : Picker) (turns : List (PickInfo × Turn))
      → Step (p, turns) (p, (info, first_turn) ∷ turns)
  advances :
      (info : PickInfo) (turn next : Turn) (p q : Picker) (a b : List (PickInfo × Turn))
      → advance_turn info turn p ≡ (next, q)
      → Step (p, a ++ ((info, turn) ∷ b)) (q, a ++ ((info, next) ∷ b))

pub data Run (s : Shared) : Shared → Type 0 where
  stay : Run s s
  step : (t u : Shared) → Run s t → Step t u → Run s u
