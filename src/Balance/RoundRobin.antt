-- ===== src/Balance/RoundRobin.antt =====
-- loadbalance/roundrobin/picker.go
pub mod Fairness
use emicro.Common.{
  ℕ, ◌%◌, Option, none, some, List, [], ◌∷◌, map, ◌==◌, if◌then◌else◌, length, get_elem?, select,
}
use emicro.Common.Words.{add64}
use emicro.Common.Maps.{Bytes}
use emicro.Balance.Types.{Address, PickInfo, Filter, or_all}

pub record Conn : Type 0 where
  pub name : Bytes
  pub sub_conn : ℕ
  pub address : Address

pub record Picker : Type 0 where
  pub cnt : ℕ
  pub connections : List Conn
  pub filter : Filter

abbrev pub new_conn : ℕ × Address → Conn
new_conn (con, address) = record { sub_conn = con; address = address; name = address.addr }

-- `ready` is info.ReadySCs, in the order in which the range visits it.
unfoldable pub build : Option Filter → List (ℕ × Address) → Picker
build filter ready = record { cnt = 0; connections = map new_conn ready; filter = or_all filter }

abbrev pub candidates : Picker → PickInfo → List Conn
candidates p info = select (λ con. p.filter info con.address) p.connections

-- The mutex is held for the whole call, so calls follow one another.
unfoldable pub pick : Picker → PickInfo → Option Conn × Picker
pick p info =
    let n = length (candidates p info) in
    if n == 0
    then (none, p)
    else (get_elem? (candidates p info) (p.cnt % n), record p { cnt = add64 p.cnt 1 })
