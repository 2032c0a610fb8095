-- ===== src/Discovery/Rotation.antt =====
-- resolver.go with loadbalance/filters.go and loadbalance/roundrobin/picker.go: the requests of a group,
-- from the instances that the registry lists to the connections that are picked.
use mathlib.Core.List.{append-nil}
use native.Mathlib.Nat.{mod-eq_of_lt}
use emicro.Common.{
  ℕ, ◌^◌, ◌<◌, ◌%◌, ◌≡◌, refl, ap, sym, ◌∙◌, Bool-cases, inl, inr, some, List, [], ◌∷◌, ◌++◌, map,
  length, length-map, map-map, select, take, drop, arith,
}
use emicro.Common.Maps.{Bytes, bytes_eq, lookup}
use emicro.Balance.Types.{str, PickInfo, group_key, group_filter}
use emicro.Balance.RoundRobin.{Conn, new_conn, build, candidates}
use emicro.Balance.RoundRobin.Fairness.{picks, picks_once}
use emicro.Discovery.Etcd.{ServiceInstance}
use emicro.Discovery.Resolver.{new_address}
use emicro.Discovery.Addresses.{ready_of, group_filter-new_address}

-- The connections to the instances of a group.
abbrev pub of_group : Bytes → List (ℕ × ServiceInstance) → List (ℕ × ServiceInstance)
of_group group pairs = select (λ p. bytes_eq group p.1.group) pairs

-- The connection of a picker to an instance.
abbrev pub conn_to : ℕ × ServiceInstance → Conn
conn_to p = new_conn (p.0, new_address p.1)

candidates-of_group :
    (info : PickInfo) (group : Bytes) (pairs : List (ℕ × ServiceInstance))
    → lookup group_key info.ctx ≡ some (str group)
    → select (λ con. group_filter info con.address) (map new_conn (ready_of pairs))
      ≡ map conn_to (of_group group pairs)
candidates-of_group info group [] e = refl
candidates-of_group info group (p ∷ pairs) e = elim (Bool-cases (bytes_eq group p.1.group)) [
  | inl same ↦
      rw (group_filter-new_address info group p.1 e, same)
        (ap (◌∷◌ (conn_to p)) (candidates-of_group info group pairs e))
  | inr other ↦
      rw (group_filter-new_address info group p.1 e, other) (candidates-of_group info group pairs e)
]

-- A turn that starts at the front.
from_front : {A : Type 0} (xs : List A) (n : ℕ) → 0 < n → drop (0 % n) xs ++ take (0 % n) xs ≡ xs
from_front xs n pos = rw (mod-eq_of_lt pos) (append-nil xs)

-- On connections to the instances that the resolver has reported, with the group filter, the round robin
-- gives as many requests of one group as the group has instances, at least one, to each instance of
-- the group once, in the order of the connections, and to no other; they are fewer than 2^64.
pub picks-of_group :
    (info : PickInfo) (group : Bytes) (pairs : List (ℕ × ServiceInstance))
    → lookup group_key info.ctx ≡ some (str group)
    → 0 < length (of_group group pairs)
    → length (of_group group pairs) < 2 ^ 64
    → picks (length (of_group group pairs)) (build (some group_filter) (ready_of pairs)) info
      ≡ map (λ p. some (conn_to p)) (of_group group pairs)
unfolding build
picks-of_group info group pairs e some_left room =
    let p = build (some group_filter) (ready_of pairs) in
    let cs : candidates p info ≡ map conn_to (of_group group pairs) =
      candidates-of_group info group pairs e in
    let n : length (candidates p info) ≡ length (of_group group pairs) =
      ap length cs ∙ length-map (of_group group pairs) conn_to in
    ap (λ k. picks k p info) (sym n)
    ∙ picks_once p info (omega arith) (omega arith)
    ∙ ap (map some) (from_front (candidates p info) (length (candidates p info)) (omega arith) ∙ cs)
    ∙ map-map conn_to some (of_group group pairs)
