-- ===== src/Cluster/Interceptor/Tests.antt =====
-- The interceptors of broadcastall and fastest on services of one or two instances.
use emicro.Common.{◌≡◌, ◌≢◌, ◌⊎◌, refl, true, false, none, some, List, [], ◌∷◌, All}
use emicro.Common.Maps.{Bytes, bytes_of}
use emicro.Rpc.Codec.{Result, returned, failed}
use emicro.Discovery.Etcd.{ServiceInstance}
use emicro.Cluster.Responses.{Asking, offer}
use emicro.Cluster.Channel.{broadcastall, fastest, dropped, answer, drop, close, all_finished}
use emicro.Cluster.Interceptor.{
  ClusterBuilder, new_cluster_builder, Ctx, using_broad_cast_channel, Call, started_call, passes,
  unlisted, asks, build_unary_client_interceptor, err_after, goes, returns, CallRun, at_start,
  then_step,
}
use emicro.Cluster.Interceptor.Errors.{IsAnswered, result-fastest}

abbrev at : Bytes → ServiceInstance
at address = record { name = bytes_of "user"; address = address; weight = 1; group = [] }

abbrev refusing : Asking Bytes
refusing = record { dial = λ ins. none; invoke = λ ins. (some (bytes_of "refused"), ins.address) }

abbrev one : List ServiceInstance
one = at (bytes_of "a") ∷ []

-- The caller was not at its receive when the goroutine sent.
abbrev after : Call Bytes
after = record {
  channel = record {
    goroutines = record { instance_ = at (bytes_of "a"); phase = dropped } ∷ [];
    received = [];
    ctx_done = false;
    closed = true;
  };
  err = some (bytes_of "refused");
  result = some (some (bytes_of "refused"));
}

refused : CallRun fastest refusing [] (started_call one) after
unfolding err_after offer
refused =
    then_step _ _
      (then_step _ _
        (then_step _ _ (then_step _ _ at_start (goes _ _ (answer _ 0 (at (bytes_of "a")) refl)))
          (goes _ _ (drop _ 0 (at (bytes_of "a")) _ refl refl refl)))
        (goes _ _ (close _ refl refl)))
      (returns _ refl refl)

result-fastest_example :
    (all_finished after.channel.goroutines ≡ true)
    × (IsAnswered refusing one (some (bytes_of "refused"))
        ⊎ ((some (bytes_of "refused") ≡ none) × All (λ ins. refusing.dial ins ≢ none) one))
result-fastest_example =
    result-fastest refusing [] one after (some (bytes_of "refused")) refused refl

abbrev builder : Result (List ServiceInstance) → ClusterBuilder Bytes
builder listed = new_cluster_builder (λ service. listed) (bytes_of "user") []

abbrev marked : Ctx
marked = using_broad_cast_channel fastest []

-- The mark of one package is none for the other.
asked :
    build_unary_client_interceptor {V = Bytes} fastest (builder (returned one)) marked none
    ≡ asks (started_call one)
unfolding build_unary_client_interceptor
asked = refl

passed :
    build_unary_client_interceptor {V = Bytes} broadcastall (builder (returned one)) marked none
    ≡ passes none
unfolding build_unary_client_interceptor
passed = refl

not_listed :
    build_unary_client_interceptor {V = Bytes} fastest
      (builder (failed (bytes_of "down")))
      marked
      none
    ≡ unlisted (bytes_of "down")
unfolding build_unary_client_interceptor
not_listed = refl
