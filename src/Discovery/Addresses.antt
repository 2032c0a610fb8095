-- ===== src/Discovery/Addresses.antt =====
-- What the pickers make of the addresses that the resolver builds.
use emicro.Common.{ℕ, ◌≡◌, refl, ap, Option, some, List, [], ◌∷◌, map, Returns, Returns-ok}
use emicro.Common.Maps.{Bytes, bytes_eq, lookup}
use emicro.Balance.Types.{str, Address, PickInfo, Filter, group_key, group_filter}
use emicro.Balance.WeightRoundRobin
use emicro.Balance.WeightRoundRobin.{WeightConn, WeightPicker, new_conns}
use emicro.Discovery.Etcd.{ServiceInstance}
use emicro.Discovery.Resolver.{new_address}

-- The connections to instances, as gRPC hands them to a picker's builder.
abbrev pub ready_of : List (ℕ × ServiceInstance) → List (ℕ × Address)
ready_of pairs = map (λ p. (p.0, new_address p.1)) pairs

-- A connection with its weight, as the picker has it and as the registry does.
abbrev pub weight_of_conn : WeightConn → ℕ × ℕ
weight_of_conn c = (c.sub_conn, c.weight)

abbrev pub weight_of_instance : ℕ × ServiceInstance → ℕ × ℕ
weight_of_instance p = (p.0, p.1.weight)

new_conns-ready_of :
    (pairs : List (ℕ × ServiceInstance))
    → Returns
        (λ conns. map weight_of_conn conns ≡ map weight_of_instance pairs)
        (new_conns (ready_of pairs))
unfolding new_conns
new_conns-ready_of [] = refl
new_conns-ready_of ((con, ins) ∷ pairs) =
    let (conns, built, weights) =
      Returns-ok (λ conns. map weight_of_conn conns ≡ map weight_of_instance pairs)
        (new_conns (ready_of pairs)) (new_conns-ready_of pairs) in
    rw built (ap (◌∷◌ (con, ins.weight)) weights)

-- On addresses that the resolver has built, the weighted round robin is built with no panic, and
-- each connection has the weight of its instance.
pub build-ready_of :
    (filter : Option Filter) (pairs : List (ℕ × ServiceInstance))
    → Returns
        (λ p. map weight_of_conn p.connections ≡ map weight_of_instance pairs)
        (WeightRoundRobin.build filter (ready_of pairs))
unfolding WeightRoundRobin.build
build-ready_of filter pairs =
    let (conns, built, weights) =
      Returns-ok (λ conns. map weight_of_conn conns ≡ map weight_of_instance pairs)
        (new_conns (ready_of pairs)) (new_conns-ready_of pairs) in
    rw built weights

-- For a request that names a group, the group filter lets the address of an instance pass exactly
-- where the instance is of that group.
pub group_filter-new_address :
    (info : PickInfo) (group : Bytes) (ins : ServiceInstance)
    → lookup group_key info.ctx ≡ some (str group)
    → group_filter info (new_address ins) ≡ bytes_eq group ins.group
unfolding group_filter
group_filter-new_address info group ins e = rw (e, group_filter) refl
