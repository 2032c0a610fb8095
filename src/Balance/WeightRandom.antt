-- ===== src/Balance/WeightRandom.antt =====
-- loadbalance/random/weight_picker.go
pub mod Choice
pub mod Order
use emicro.Common.{
  ℕ, ◌+◌, ◌-◌, Bool, Option, none, some, List, [], ◌∷◌, leb, ◌==◌, if◌then◌else◌, length, Outcome,
  ok, panic, ◌>>=◌,
}
use emicro.Common.Words.{add32}
use emicro.Common.Maps.{Bytes, bytes_of, lookup}
use emicro.Balance.Types.{Value, u32, Address, PickInfo, Filter, or_all}

pub record WeightConn : Type 0 where
  pub name : Bytes
  pub weight : ℕ
  pub sub_conn : ℕ
  pub address : Address

pub record WeightPicker : Type 0 where
  pub connections : List WeightConn
  pub filter : Filter

-- The type assertion on the attribute panics where it is missing or no uint32.
unfoldable pub new_conns : List (ℕ × Address) → Outcome (List WeightConn)
new_conns [] = ok []
new_conns ((con, address) ∷ rest) = do
  weight ← elim (lookup (bytes_of "weight") address.attributes) [ some (u32 w) ↦ ok w | _ ↦ panic ]
  connections ← new_conns rest
  ok (record { name = []; weight = weight; sub_conn = con; address = address } ∷ connections)

unfoldable pub build : Option Filter → List (ℕ × Address) → Outcome WeightPicker
unfolding new_conns
build filter ready = do
  connections ← new_conns ready
  ok (record { connections = connections; filter = or_all filter })

-- totalWeight += con.weight, over the connections that pass
unfoldable pub total_weight : (WeightConn → Bool) → ℕ → List WeightConn → ℕ
total_weight pass total [] = total
total_weight pass total (con ∷ rest) =
    total_weight pass (if pass con then add32 total con.weight else total) rest

-- val -= con.weight until it is 0 or less; while the loop goes on it stays above 0.
unfoldable pub choose : (WeightConn → Bool) → ℕ → List WeightConn → Option WeightConn
choose pass val [] = none
choose pass val (con ∷ rest) =
    let skipped = choose pass val rest in
    let next = choose pass (val - con.weight) rest in
    if pass con then (if leb val con.weight then some con else next) else skipped

abbrev pub passes : WeightPicker → PickInfo → WeightConn → Bool
passes p info con = p.filter info con.address

-- `random n` is what rand.Intn(n) returns.
unfoldable pub pick : (ℕ → ℕ) → WeightPicker → PickInfo → Option WeightConn
unfolding total_weight choose
pick random p info =
    if length p.connections == 0
    then none
    else choose (passes p info) (random (total_weight (passes p info) 0 p.connections + 1))
        p.connections
