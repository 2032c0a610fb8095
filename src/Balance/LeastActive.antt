-- ===== src/Balance/LeastActive.antt =====
-- loadbalance/leastactive/picker.go
pub mod Choice
pub mod Turns
use emicro.Common.{
  ℕ, ◌+◌, ◌-◌, ◌*◌, ◌^◌, Bool, Option, none, some, List, [], ◌∷◌, map, ltb, ◌==◌, if◌then◌else◌,
  length, get_elem?, adjust,
}
use emicro.Common.Words.{add32, sub32}
use emicro.Common.Maps.{Bytes}
use emicro.Balance.Types.{Address, PickInfo, Filter, or_all}
use emicro.Balance.Best.{best_from}

pub record Conn : Type 0 where
  pub name : Bytes
  pub active : ℕ
  pub sub_conn : ℕ
  pub address : Address

-- `cnt` is never read.
pub record Picker : Type 0 where
  pub cnt : ℕ
  pub filter : Filter
  pub connections : List Conn

abbrev pub new_conn : ℕ × Address → Conn
new_conn (con, address) = record { name = []; active = 0; sub_conn = con; address = address }

unfoldable pub build : Option Filter → List (ℕ × Address) → Picker
build filter ready = record { cnt = 0; filter = or_all filter; connections = map new_conn ready }

-- `leastActive` starts at math.MaxUint32, with no connection.
abbrev pub less_active : Option ℕ → ℕ → Bool
less_active none active = ltb active (2 ^ 32 - 1)
less_active (some least) active = ltb active least

abbrev pub set_active : (ℕ → ℕ) → ℕ → List Conn → List Conn
set_active f i cs = adjust (λ c. record c { active = f c.active }) i cs

-- The place of the picked connection, which the result's Done remembers, and the picker.
unfoldable pub pick : Picker → PickInfo → Option ℕ × Picker
pick p info =
    if length p.connections == 0
    then (none, p)
    else (elim (best_from less_active (λ con. p.filter info con.address) (λ con. con.active)
        p.connections 0 none) [
          | none ↦ (none, p)
          | some (res, _) ↦
              (some res, record p { connections = set_active (λ n. add32 n 1) res p.connections })
        ])

-- Done of the result. The source adds the constant -1 to a uint32; that is one less, modulo 2^32.
unfoldable pub pick_done : Picker → ℕ → Picker
pick_done p res = record p { connections = set_active (λ n. sub32 n 1) res p.connections }
