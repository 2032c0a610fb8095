-- ===== src/Discovery/Tests.antt =====
-- A store of keys and values with one instance, listed and handed to the pickers.
use emicro.Common.{
  ℕ, ◌≡◌, refl, sym, ap, true, false, none, some, List, [], ◌∷◌, get_elem?, select, Returns, Option,
  if◌then◌else◌, arith,
}
use emicro.Common.Maps.{Bytes, bytes_of, bytes_eq, bytes_eq_self, insert, lookup-insert}
use emicro.Rpc.Codec.{returned, failed}
use emicro.Discovery.Service.{GrpcServer, start, close}
use emicro.Discovery.Lifecycle.{registered_of, unregistered_of, close-start}
use emicro.Discovery.Resolver.{new_address, resolve, build_resolver}
use emicro.Discovery.Updates.{
  Answer, last_state, last_listed, last_state-build_resolver, resolve-register,
}
use emicro.Balance.Types.{str, Address, PickInfo, group_key, group_filter}
use emicro.Balance.RoundRobin
use emicro.Balance.RoundRobin.Fairness.{picks}
use emicro.Discovery.Addresses.{ready_of}
use emicro.Discovery.Rotation.{conn_to, picks-of_group}
use emicro.Discovery.Etcd.{ServiceInstance, Client, Json, register, list_services, instance_key}
use emicro.Discovery.Listing.{is_prefix, Stores}

abbrev store : Client (List (Bytes × Bytes))
store = record {
  put = λ k v w. (returned tt, insert k v w);
  delete = λ k w. (returned tt, select (λ kv. if bytes_eq kv.0 k then false else true) w);
  get = λ p w. returned (select (λ kv. is_prefix p kv.0) w);
}

store-Stores : Stores store
store-Stores = record {
  view = λ w. w;
  put_view = λ k v w done. rw (lookup-insert k k v w, bytes_eq_self k) refl;
  get_view = λ p w kvs got. ap (λ r. elim r [ returned kvs' ↦ kvs' | failed e ↦ [] ]) (sym got);
}

abbrev admin : ServiceInstance
admin = record {
  name = bytes_of "user-admin";
  address = bytes_of "h:1";
  weight = 5;
  group = bytes_of "a";
}

-- Instances are known by their address.
abbrev json : Json
json = record {
  marshal = λ ins. returned ins.address;
  unmarshal = λ bs.
      returned
        (record { name = bytes_of "user-admin"; address = bs; weight = 5; group = bytes_of "a" });
}

abbrev server : GrpcServer
server = record {
  name = bytes_of "user";
  weight = 3;
  group = bytes_of "a";
  has_registry = true;
  register_timeout = 1;
  service_instance = record { name = []; address = []; weight = 0; group = [] };
}

close-start_example :
    (registered_of (start server (bytes_of ":0") (returned (bytes_of "h:1")) none none).0
      ≡ some (record {
        name = bytes_of "user";
        group = bytes_of "a";
        weight = 3;
        address = bytes_of "h:1";
      }))
    × Returns
        (λ r.
          unregistered_of r.0
          ≡ registered_of (start server (bytes_of ":0") (returned (bytes_of "h:1")) none none).0)
        (close (start server (bytes_of ":0") (returned (bytes_of "h:1")) none none).2 none)
close-start_example = close-start server (bytes_of ":0") (bytes_of "h:1") none none none refl

abbrev accepts : List Address → Option Bytes
accepts addresses = none

-- The instance of user-admin is told to a connection to user.
resolve-register_example :
    (addresses : List Address) × (last_state (
        resolve
          (list_services store json (bytes_of "user") (register store json admin []).1)
          accepts)
      ≡ some addresses)
    × (i : ℕ) × (get_elem? addresses i ≡ some (new_address admin))
unfolding register
resolve-register_example =
    resolve-register store json store-Stores admin (bytes_of "user") (bytes_of "-admin")
      (bytes_of "h:1") [] ((instance_key admin, bytes_of "h:1") ∷ []) accepts refl refl refl refl
      refl ((admin, refl), tt)

-- A listing that fails after one that succeeded.
abbrev answers : List Answer
answers = (failed (bytes_of "timeout"), accepts) ∷ []

last_state-build_resolver_example :
    last_state (build_resolver (returned (admin ∷ []), accepts) (returned tt) answers)
    ≡ last_listed ((returned (admin ∷ []), accepts) ∷ answers)
last_state-build_resolver_example =
    last_state-build_resolver (returned (admin ∷ []), accepts) answers

abbrev in_group : Bytes → Bytes → ServiceInstance
in_group address group = record {
  name = bytes_of "user";
  address = address;
  weight = 1;
  group = group;
}

-- Three instances, the first and the last of them of one group.
abbrev three : List (ℕ × ServiceInstance)
three =
    (0, in_group (bytes_of "h:1") (bytes_of "b"))
    ∷ (1, in_group (bytes_of "h:2") (bytes_of "a"))
    ∷ (2, in_group (bytes_of "h:3") (bytes_of "b"))
    ∷ []

abbrev asks_b : PickInfo
asks_b = record { ctx = (group_key, str (bytes_of "b")) ∷ [] }

picks-of_group_example :
    picks 2 (RoundRobin.build (some group_filter) (ready_of three)) asks_b
    ≡ some (conn_to (0, in_group (bytes_of "h:1") (bytes_of "b")))
      ∷ some (conn_to (2, in_group (bytes_of "h:3") (bytes_of "b")))
      ∷ []
picks-of_group_example = picks-of_group asks_b (bytes_of "b") three refl (omega arith) (omega arith)
