-- ===== src/Cluster/Responses.antt =====
-- cluster/broadcastall/cluster.go and cluster/fastest/cluster.go: each instance is asked with a reply
-- of its own, and the responses go to a channel of the caller's.
use emicro.Common.{Bool, true, false, Option, none, some, List, [], ◌∷◌, map, if◌then◌else◌}
use emicro.Common.Maps.{Bytes}
use emicro.Rpc.Codec.{Result, returned, failed}
use emicro.Discovery.Etcd.{ServiceInstance}

-- `err` is `none` for nil, and so is `val`.
pub record Resp (V : Type 0) : Type 0 where
  pub val : Option V
  pub err : Option Bytes

-- A call to one instance: the error of grpc.Dial, and the error of the invoker with what it has
-- put into the reply.
pub record Asking (V : Type 0) : Type 0 where
  pub dial : ServiceInstance → Option Bytes
  pub invoke : ServiceInstance → Option Bytes × V

-- What a goroutine offers to the channel. The error is `er`, the one of grpc.Dial; the invoker's is
-- kept for the result of the interceptor only.
unfoldable pub offer : {V : Type 0} → Asking V → ServiceInstance → Resp V
offer asking ins = elim (asking.dial ins) [
  | some er ↦ record { val = none; err = some er }
  | none ↦ record { val = some ((asking.invoke ins).1); err = none }
]

-- The value of the key in the context; `a_channel` carries the caller's channel.
pub data KeyValue : Type 0 where
  absent : KeyValue
  a_channel : KeyValue
  other : KeyValue

abbrev pub is_broad_cast : KeyValue → Bool
is_broad_cast absent = false
is_broad_cast a_channel = true
is_broad_cast other = false

-- The responses on the channel of broadcastall, for a caller that receives them all before it ends
-- its context. `ends` is the order in which the goroutines send. An error of ListServices is sent as
-- a response; the channel then stays open. Without the key nothing is sent: the invoker is called on
-- the connection that is there.
unfoldable pub broadcast_all :
    {V : Type 0}
    → Asking V
    → KeyValue
    → Result (List ServiceInstance)
    → (List ServiceInstance → List ServiceInstance)
    → List (Resp V)
unfolding offer
broadcast_all asking key listed ends =
    if is_broad_cast key
    then (elim listed [
      | failed err ↦ record { val = none; err = some err } ∷ []
      | returned instances ↦ map (offer asking) (ends instances)
    ])
    else []

-- What a goroutine of the cluster of the fastest leaves: an error of grpc.Dial is sent and waits
-- for the caller; a reply is sent where the caller waits at that time, and else dropped.
unfoldable pub offer_fastest : {V : Type 0} → Asking V → Bool → ServiceInstance → Option (Resp V)
offer_fastest asking waiting ins = elim (asking.dial ins) [
  | some er ↦ some (record { val = none; err = some er })
  | none ↦
      if waiting then some (record { val = some ((asking.invoke ins).1); err = none }) else none
]
