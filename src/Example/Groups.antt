-- ===== src/Example/Groups.antt =====
-- example/group and example/broadcast: servers that register themselves under one name, and the client
-- that calls one of them after the other.
mod Tests
use emicro.Common.{
  ℕ, zero, suc, ◌+◌, ◌*◌, ◌^◌, ◌%◌, ◌==◌, Option, none, some, List, [], ◌∷◌, ◌++◌, if◌then◌else◌,
  Outcome, ok, panic, ◌>>=◌,
}
use emicro.Common.Maps.{Bytes, bytes_of}
use emicro.Rpc.Codec.{Result, returned, failed}
use emicro.Discovery.Service.{
  GrpcServer, server_with_group, server_with_registry, server_with_weight, server_with_timeout,
  new_grpc_server, Action, start, close,
}
use emicro.Discovery.Dial.{
  client_with_insecure, client_with_registry, client_with_picker_builder, new_dial_client,
  DialOption, dial,
}
use emicro.Example.{or_panic}

abbrev pub user_service_name : Bytes
user_service_name = bytes_of "user-service"

abbrev pub three_seconds : ℕ
three_seconds = 3 * 10 ^ 9

-- A server of example/group.
unfoldable pub group_server : GrpcServer
group_server =
    new_grpc_server user_service_name
      (server_with_registry ∷ server_with_timeout three_seconds ∷ [])

-- The server number `idx` of example/broadcast; `i` is what the loop's variable holds by then.
unfoldable pub broadcast_server : ℕ → ℕ → GrpcServer
broadcast_server idx i =
    let group = if idx % 2 == 0 then bytes_of "b" else bytes_of "a" in
    new_grpc_server user_service_name
      (server_with_group group ∷ server_with_registry ∷ server_with_weight ((1 + i) % 2 ^ 32) ∷ [])

-- What the goroutine of a server does: Start, with its error as the result, and the deferred Close. The
-- arguments are what the calls give, as those of `start` and `close`.
unfoldable pub run_server :
    GrpcServer
    → Bytes
    → Result Bytes
    → Option Bytes
    → Option Bytes
    → Option Bytes
    → Outcome (List Action × Option Bytes)
unfolding start close
run_server server addr listened registered ended unregistered = do
  let (acts, err, server') = start server addr listened registered ended
  closed ← close server' unregistered
  ok (acts ++ closed.0, err)

-- GetById of the servers: the id of the request, and a status.
abbrev pub get_by_user_id : ℕ → ℕ × ℕ
get_by_user_id id = (id, 123)

module _ {R W : Type 0} (call : W → Result R × W) (marshal : R → Result Bytes) where
  -- The loop of the client: `call` is GetById, and `marshal` json.Marshal of the user.
  unfoldable pub call_times : ℕ → W → Outcome (List Bytes × W)
  call_times zero w = ok ([], w)
  call_times (suc n) w = do
    let (answer, w) = call w
    resp ← or_panic answer
    bs ← or_panic (marshal resp)
    (lines, w) ← call_times n w
    ok (bs ∷ lines, w)

-- What Dial is given.
unfoldable pub group_target : Bytes × List DialOption
unfolding dial new_dial_client
group_target =
    let (client, _) =
      new_dial_client
        (client_with_insecure
          ∷ client_with_registry three_seconds
          ∷ client_with_picker_builder (bytes_of "ROUND_ROBIN")
          ∷ [])
        [] in
    dial client user_service_name []

-- main of the client of example/group, on what New, NewRegistry and DialContext give.
unfoldable pub group_client :
    {E S C R W : Type 0}
    → Result E
    → (E → Result S)
    → (Bytes × List DialOption → Result C)
    → (C → W → Result R × W)
    → (R → Result Bytes)
    → W
    → Outcome (List Bytes × W)
unfolding call_times group_target
group_client etcd_client registry dialled get_by_id marshal w = do
  client ← or_panic etcd_client
  sess ← or_panic (registry client)
  conn ← or_panic (dialled group_target)
  call_times (get_by_id conn) marshal 10 w
