-- ===== src/Discovery/Resolver.antt =====
-- resolver.go: what the resolver tells gRPC of a service's instances.
use emicro.Common.{ℕ, Option, none, some, List, [], ◌∷◌, ◌++◌, map}
use emicro.Common.Maps.{Bytes, bytes_of}
use emicro.Balance.Types.{str, u32, Address, group_key}
use emicro.Rpc.Codec.{Result, returned, failed}
use emicro.Discovery.Etcd.{ServiceInstance}

abbrev pub new_address : ServiceInstance → Address
new_address ins = record {
  addr = ins.address;
  server_name = ins.name;
  attributes = (bytes_of "weight", u32 ins.weight) ∷ (group_key, str ins.group) ∷ [];
}

-- What resolve calls on the connection: UpdateState or ReportError.
pub data Report : Type 0 where
  update_state : List Address → Report
  report_error : Bytes → Report

-- `list` is ListServices, `update` the error of UpdateState, if any.
unfoldable pub resolve : Result (List ServiceInstance) → (List Address → Option Bytes) → List Report
resolve (failed e) update = report_error e ∷ []
resolve (returned instances) update =
    let address = map new_address instances in
    elim (update address) [
      | none ↦ update_state address ∷ []
      | some e ↦ update_state address ∷ report_error e ∷ []
    ]

-- What the loop of watch receives: an event of the registry, with the answers that resolve gets.
unfoldable pub watch :
    Result (Unit {0})
    → List (Result (List ServiceInstance) × (List Address → Option Bytes))
    → List Report
unfolding resolve
watch (failed e) events = report_error e ∷ []
watch (returned subscribed) [] = []
watch (returned subscribed) ((list, update) ∷ events) =
    resolve list update ++ watch (returned subscribed) events

-- Build: it resolves, and watches in a goroutine.
unfoldable pub build_resolver :
    Result (List ServiceInstance) × (List Address → Option Bytes)
    → Result (Unit {0})
    → List (Result (List ServiceInstance) × (List Address → Option Bytes))
    → List Report
build_resolver (list, update) subscription events = resolve list update ++ watch subscription events

-- ResolveNow
abbrev pub resolve_now : Result (List ServiceInstance) × (List Address → Option Bytes) → List Report
resolve_now (list, update) = resolve list update

-- The builder that Dial hands to gRPC, which keeps the registry and the timeout for its resolvers.
pub record GrpcResolverBuilder (R : Type 0) : Type 0 where
  pub registry : R
  pub timeout : ℕ

abbrev pub new_resolver_builder : {R : Type 0} → R → ℕ → GrpcResolverBuilder R
new_resolver_builder registry timeout = record { registry = registry; timeout = timeout }

-- What is left of the resolver for Close: its channel, if one was made.
pub record GrpcResolver : Type 0 where
  pub close : Option ℕ

-- The resolver that Build makes: the field close is not set.
abbrev pub new_resolver : GrpcResolver
new_resolver = record { close = none }

-- A send on a nil channel waits for ever.
pub data Closing : Type 0 where
  waits : Closing
  sends : ℕ → Closing

abbrev pub close_resolver : GrpcResolver → Closing
close_resolver r = elim (r.close) [ none ↦ waits | some channel ↦ sends channel ]

-- The scheme that Dial's target names.
abbrev pub scheme : Bytes
scheme = bytes_of "registry"
