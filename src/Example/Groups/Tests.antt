-- ===== src/Example/Groups/Tests.antt =====
-- Runs of the servers of example/broadcast and of the client of example/group.
use emicro.Common.{ℕ, ◌+◌, ◌≡◌, refl, none, some, [], ◌∷◌, ltb, if◌then◌else◌, ok, panic, ◌>>=◌}
use emicro.Common.Maps.{Bytes, bytes_of}
use emicro.Rpc.Codec.{Result, returned, failed}
use emicro.Discovery.Etcd.{ServiceInstance}
use emicro.Discovery.Service.{
  listen, register_instance, serve, unregister_instance, graceful_stop, start, close,
  new_grpc_server,
}
use emicro.Discovery.Dial.{with_resolvers, with_insecure}
use emicro.Example.Groups.{
  broadcast_server, run_server, group_target, group_client, call_times, three_seconds,
}

-- All three goroutines run behind the loop, which has left 3 in its variable: the weights are the same.
abbrev registered : Bytes → Bytes → ServiceInstance
registered address group = record {
  name = bytes_of "user-service";
  address = address;
  weight = 4;
  group = group;
}

last_server :
    run_server
      (broadcast_server 2 3)
      (bytes_of ":8083")
      (returned (bytes_of "h:8083"))
      none
      (some (bytes_of "stopped"))
      none
    ≡ ok (
      listen (bytes_of ":8083")
          ∷ register_instance (registered (bytes_of "h:8083") (bytes_of "b"))
          ∷ serve
          ∷ unregister_instance (registered (bytes_of "h:8083") (bytes_of "b"))
          ∷ graceful_stop
          ∷ [],
      some (bytes_of "stopped"),
    )
unfolding run_server broadcast_server new_grpc_server start close
last_server = refl

target :
    group_target
    ≡ (bytes_of "registry:///user-service", with_resolvers three_seconds ∷ with_insecure ∷ [])
unfolding group_target
target = refl

-- Answers for as many calls as `limit`.
abbrev answering : ℕ → ℕ → Result ℕ × ℕ
answering limit w = (if ltb w limit then returned 12 else failed (bytes_of "EOF"), w + 1)

ten_calls :
    (do
      r ←
          group_client {E = ℕ} {S = ℕ} {C = ℕ}
            (returned 0)
            (λ e. returned 0)
            (λ target. returned 0)
            (λ c. answering 10)
            (λ user. returned (user ∷ []))
            0
      ok (r.1))
    ≡ ok 10
unfolding group_client call_times
ten_calls = refl

ninth_fails :
    group_client {E = ℕ} {S = ℕ} {C = ℕ}
      (returned 0)
      (λ e. returned 0)
      (λ target. returned 0)
      (λ c. answering 8)
      (λ user. returned (user ∷ []))
      0
    ≡ panic
unfolding group_client call_times
ninth_fails = refl
