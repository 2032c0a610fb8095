-- ===== src/Balance/Random.antt =====
-- loadbalance/random/picker.go
pub mod Choice
use emicro.Common.{ℕ, Option, none, List, map, ◌==◌, if◌then◌else◌, length, get_elem?, select}
use emicro.Balance.Types.{Address, PickInfo, Filter, or_all}

pub record Conn : Type 0 where
  pub sub_conn : ℕ
  pub address : Address

-- The source's field `length` is never written nor read.
pub record Picker : Type 0 where
  pub connections : List Conn
  pub filter : Filter

abbrev pub new_conn : ℕ × Address → Conn
new_conn (con, address) = record { sub_conn = con; address = address }

unfoldable pub build : Option Filter → List (ℕ × Address) → Picker
build filter ready = record { connections = map new_conn ready; filter = or_all filter }

abbrev pub candidates : Picker → PickInfo → List Conn
candidates p info = select (λ con. p.filter info con.address) p.connections

-- `random n` is what rand.Intn(n) returns.
unfoldable pub pick : (ℕ → ℕ) → Picker → PickInfo → Option Conn
pick random p info =
    let n = length (candidates p info) in
    if length p.connections == 0
    then none
    else if n == 0
    then none
    else get_elem? (candidates p info) (random n)
