-- ===== src/Balance/WeightRoundRobin.antt =====
-- loadbalance/roundrobin/weight_picker.go
pub mod Loop
pub mod Choice
pub mod Weights
pub mod Turns
use emicro.Common.{
  ℕ, suc, ◌-◌, ◌^◌, Bool, true, false, not, ◌&&◌, Option, none, some, List, [], ◌∷◌, ltb, ◌==◌,
  if◌then◌else◌, length, adjust, Outcome, ok, panic, ◌>>=◌,
}
use emicro.Common.Words.{add32, sub32}
use emicro.Common.Maps.{Bytes, bytes_of, lookup}
use emicro.Balance.Best.{key_of}
use emicro.Balance.Types.{Value, u32, Address, PickInfo, Filter, or_all}

pub record WeightConn : Type 0 where
  pub name : Bytes
  pub weight : ℕ
  pub current_weight : ℕ
  pub efficient_weight : ℕ
  pub available : Bool
  pub sub_conn : ℕ
  pub address : Address

pub record WeightPicker : Type 0 where
  pub connections : List WeightConn
  pub filter : Filter

-- The type assertion on the attribute panics where it is missing or no uint32.
abbrev pub weight_of : Address → Outcome ℕ
weight_of address = elim (lookup (bytes_of "weight") address.attributes) [
  | some (u32 w) ↦ ok w
  | _ ↦ panic
]

unfoldable pub new_conns : List (ℕ × Address) → Outcome (List WeightConn)
new_conns [] = ok []
new_conns ((con, address) ∷ rest) = do
  weight ← weight_of address
  connections ← new_conns rest
  ok (
      record {
        name = address.addr;
        weight = weight;
        current_weight = weight;
        efficient_weight = weight;
        available = false;
        sub_conn = con;
        address = address;
      }
      ∷ connections)

unfoldable pub build : Option Filter → List (ℕ × Address) → Outcome WeightPicker
unfolding new_conns
build filter ready = do
  connections ← new_conns ready
  ok (record { connections = connections; filter = or_all filter })

abbrev pub passes : WeightPicker → PickInfo → WeightConn → Bool
passes p info con = p.filter info con.address

-- con.currentWeight += con.efficientWeight
abbrev pub bump : WeightConn → WeightConn
bump con = record con { current_weight = add32 con.current_weight con.efficient_weight }

-- maxWeightConn == nil || maxWeightConn.currentWeight < con.currentWeight
abbrev pub heavier : Option ℕ → ℕ → Bool
heavier none current = true
heavier (some max) current = ltb max current

-- The loop of Pick: the connections after it, totalWeight, and maxWeightConn with its current weight,
-- known by its place.
unfoldable pub visit :
    (WeightConn → Bool)
    → List WeightConn
    → ℕ
    → ℕ
    → Option (ℕ × ℕ)
    → List WeightConn × ℕ × Option (ℕ × ℕ)
visit pass [] i total max = ([], total, max)
visit pass (con ∷ rest) i total max =
    let skipped = visit pass rest (suc i) total max in
    let bumped = bump con in
    let visited = visit pass rest (suc i) (add32 total con.efficient_weight) (
      if heavier (key_of max) bumped.current_weight
      then some (i, bumped.current_weight)
      else max) in
    if pass con
    then (bumped ∷ visited.0, visited.1, visited.2)
    else (con ∷ skipped.0, skipped.1, skipped.2)

-- The rest of Pick: maxWeightConn.currentWeight -= totalWeight.
unfoldable pub settle :
    WeightPicker → List WeightConn × ℕ × Option (ℕ × ℕ) → Option ℕ × WeightPicker
settle p (conns, total, none) = (none, record p { connections = conns })
settle p (conns, total, some (max, _)) = (
  some max,
  record p {
    connections =
        adjust (λ c. record c { current_weight = sub32 c.current_weight total }) max conns;
  },
)

-- The place of the picked connection, which the result's Done remembers, and the picker.
unfoldable pub pick : WeightPicker → PickInfo → Option ℕ × WeightPicker
unfolding settle
pick p info =
    if length p.connections == 0
    then (none, p)
    else settle p (visit (passes p info) p.connections 0 0 none)

-- Done of the result, on its connection; `failed` says that info.Err is not nil.
unfoldable pub reweigh : Bool → WeightConn → WeightConn
reweigh failed con =
    if failed && (con.weight == 0)
    then con
    else if not failed && (con.efficient_weight == 2 ^ 32 - 1)
    then con
    else if failed
    then record con { efficient_weight = sub32 con.efficient_weight 1 }
    else record con { efficient_weight = add32 con.efficient_weight 1 }

unfoldable pub pick_done : WeightPicker → ℕ → Bool → WeightPicker
unfolding reweigh
pick_done p max failed = record p { connections = adjust (reweigh failed) max p.connections }
