-- ===== src/Discovery/Service.antt =====
-- server.go: the gRPC server that registers itself, as the calls that it makes on the network, the
-- registry and gRPC, in their order.
use emicro.Common.{
  ℕ, ◌*◌, ◌^◌, Bool, true, false, Option, none, some, List, [], ◌∷◌, Outcome, ok, panic,
  if◌then◌else◌,
}
use emicro.Common.Maps.{Bytes}
use emicro.Rpc.Codec.{Result, returned, failed}
use emicro.Discovery.Etcd.{ServiceInstance}

-- `has_registry` is that the registry is not nil.
pub record GrpcServer : Type 0 where
  pub name : Bytes
  pub weight : ℕ
  pub group : Bytes
  pub has_registry : Bool
  pub register_timeout : ℕ
  pub service_instance : ServiceInstance

abbrev pub ServerOption : Type 0
ServerOption = GrpcServer → GrpcServer

abbrev pub server_with_weight : ℕ → ServerOption
server_with_weight weight server = record server { weight = weight }

abbrev pub server_with_group : Bytes → ServerOption
server_with_group group server = record server { group = group }

abbrev pub server_with_registry : ServerOption
server_with_registry server = record server { has_registry = true }

abbrev pub server_with_timeout : ℕ → ServerOption
server_with_timeout timeout server = record server { register_timeout = timeout }

abbrev pub no_instance : ServiceInstance
no_instance = record { name = []; address = []; weight = 0; group = [] }

-- for _, opt := range opts { opt(res) }
abbrev pub apply_options : List ServerOption → GrpcServer → GrpcServer
apply_options [] res = res
apply_options (opt ∷ opts) res = apply_options opts (opt res)

unfoldable pub new_grpc_server : Bytes → List ServerOption → GrpcServer
new_grpc_server name opts = apply_options opts (record {
  name = name;
  weight = 0;
  group = [];
  has_registry = false;
  register_timeout = 10 * 10 ^ 9;
  service_instance = no_instance;
})

pub data Action : Type 0 where
  listen : Bytes → Action
  register_instance : ServiceInstance → Action
  serve : Action
  unregister_instance : ServiceInstance → Action
  graceful_stop : Action

-- `listened` is the listener's address, or the error of net.Listen; `registered` and `ended` are the
-- errors of Register and Serve, if any. The result: the calls, the error, and the server.
unfoldable pub start :
    GrpcServer
    → Bytes
    → Result Bytes
    → Option Bytes
    → Option Bytes
    → List Action × Option Bytes × GrpcServer
start s addr (failed err) registered ended = (listen addr ∷ [], some err, s)
start s addr (returned address) registered ended =
    let ins : ServiceInstance = record {
      name = s.name;
      group = s.group;
      weight = s.weight;
      address = address;
    } in
    let s' = record s { service_instance = ins } in
    if s.has_registry
    then (elim registered [
      | some err ↦ (listen addr ∷ register_instance ins ∷ [], some err, s')
      | none ↦ (listen addr ∷ register_instance ins ∷ serve ∷ [], ended, s')
    ])
    else (listen addr ∷ serve ∷ [], ended, s)

-- Close calls a method of the registry, which panics where that is nil.
unfoldable pub close : GrpcServer → Option Bytes → Outcome (List Action × Option Bytes)
close s unregistered =
    if s.has_registry
    then (elim unregistered [
      | some err ↦ ok (unregister_instance s.service_instance ∷ [], some err)
      | none ↦ ok (unregister_instance s.service_instance ∷ graceful_stop ∷ [], none)
    ])
    else panic
