-- ===== src/Cluster/Interceptor.antt =====
-- cluster/broadcastall/cluster.go and cluster/fastest/cluster.go: their builders, their contexts, and
-- the interceptors beside the goroutines that they start.
pub mod Errors
mod Tests
use emicro.Common.{◌≡◌, Bool, true, false, Option, none, some, List, [], ◌∷◌, ◌++◌, if◌then◌else◌}
use emicro.Common.Maps.{Bytes, bytes_of}
use emicro.Rpc.Codec.{Result, returned, failed}
use emicro.Discovery.Etcd.{ServiceInstance}
use emicro.Cluster.Responses.{KeyValue, absent, a_channel, is_broad_cast, Resp, Asking}
use emicro.Cluster.Channel.{
  Cluster, broadcastall, fastest, Channel, started, Step, answer, receive, drop, expire, close,
}

-- `registry` is ListServices of the registry.
pub record ClusterBuilder (D : Type 0) : Type 0 where
  pub service : Bytes
  pub registry : Bytes → Result (List ServiceInstance)
  pub dial_options : List D

abbrev pub new_cluster_builder :
    {D : Type 0} → (Bytes → Result (List ServiceInstance)) → Bytes → List D → ClusterBuilder D
new_cluster_builder r service dial_options = record {
  service = service;
  registry = r;
  dial_options = dial_options;
}

-- The values of a context under the keys of the two packages, which are of different types; the last
-- one is at the front.
abbrev pub Ctx : Type 0
Ctx = List (Cluster × KeyValue)

abbrev pub same_key : Cluster → Cluster → Bool
same_key broadcastall broadcastall = true
same_key broadcastall fastest = false
same_key fastest broadcastall = false
same_key fastest fastest = true

abbrev pub value : Cluster → Ctx → KeyValue
value cluster [] = absent
value cluster ((owner, v) ∷ ctx) =
    let rest = value cluster ctx in if same_key owner cluster then v else rest

abbrev pub using_broad_cast_channel : Cluster → Ctx → Ctx
using_broad_cast_channel cluster ctx = (cluster, a_channel) ∷ ctx

-- A call: the goroutines with their channel, the variable err that they share with the interceptor,
-- and what the interceptor has returned, if it has.
pub record Call (V : Type 0) : Type 0 where
  pub channel : Channel V
  pub err : Option Bytes
  pub result : Option (Option Bytes)

abbrev pub started_call : {V : Type 0} → List ServiceInstance → Call V
started_call instances = record { channel = started instances; err = none; result = none }

-- How an interceptor begins: with the call of the invoker on the connection that is there, and its
-- error; with the error of ListServices; or with its goroutines.
pub data Entry (V : Type 0) : Type 0 where
  passes : Option Bytes → Entry V
  unlisted : Bytes → Entry V
  asks : Call V → Entry V

unfoldable pub build_unary_client_interceptor :
    {V D : Type 0} → Cluster → ClusterBuilder D → Ctx → Option Bytes → Entry V
build_unary_client_interceptor cluster b ctx invoked =
    if is_broad_cast (value cluster ctx)
    then (elim (b.registry b.service) [
      | failed err ↦ unlisted err
      | returned instances ↦ asks (started_call instances)
    ])
    else passes invoked

-- After an error of ListServices: the response that the caller must receive first, what is returned,
-- and whether the channel is closed.
abbrev pub after_listing : {V : Type 0} → Cluster → Bytes → Option (Resp V) × Option Bytes × Bool
after_listing broadcastall err = (some (record { val = none; err = some err }), none, false)
after_listing fastest err = (none, some err, true)

-- "响应没有人接收, %w"
abbrev pub no_receiver : Bytes → Bytes
no_receiver ctx_err =
    229
    ∷ 147
    ∷ 141
    ∷ 229
    ∷ 186
    ∷ 148
    ∷ 230
    ∷ 178
    ∷ 161
    ∷ 230
    ∷ 156
    ∷ 137
    ∷ 228
    ∷ 186
    ∷ 186
    ∷ 230
    ∷ 142
    ∷ 165
    ∷ 230
    ∷ 148
    ∷ 182
    ∷ (bytes_of ", " ++ ctx_err)

-- broadcastall returns at once, fastest behind wg.Wait: its deferred close comes before its caller goes
-- on, and nothing writes err any more.
abbrev pub may_return : Cluster → Bool → Bool
may_return broadcastall closed = true
may_return fastest closed = closed

module _ {V : Type 0} (cluster : Cluster) (asking : Asking V) (ctx_err : Bytes) where
  -- The variable err after a step: a goroutine whose Dial succeeds writes the error of its invoker, and
  -- in broadcastall one that gives its send up the end of the context.
  unfoldable pub err_after :
      {c d : Channel V} → Step cluster asking c d → Option Bytes → Option Bytes
  err_after (answer c i ins at) err = elim (asking.dial ins) [
    | none ↦ (asking.invoke ins).0
    | some er ↦ err
  ]
  err_after (receive c i ins r at) err = err
  err_after (drop c i ins r at dialled may) err = elim cluster [
    | broadcastall ↦ some (no_receiver ctx_err)
    | fastest ↦ err
  ]
  err_after (expire c) err = err
  err_after (close c finished unclosed) err = err

  pub data CallStep : Call V → Call V → Type 0 where
    goes :
        (s : Call V) (d : Channel V) (h : Step cluster asking s.channel d)
        → CallStep s (record s { channel = d; err = err_after h s.err })
    returns :
        (s : Call V)
        → may_return cluster s.channel.closed ≡ true
        → s.result ≡ none
        → CallStep s (record s { result = some s.err })

  pub data CallRun (s : Call V) : Call V → Type 0 where
    at_start : CallRun s s
    then_step : (t u : Call V) → CallRun s t → CallStep t u → CallRun s u
