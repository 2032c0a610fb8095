-- ===== src/Cluster/Channel/Tests.antt =====
-- Two instances asked through broadcastall: the second answers first.
use mathlib.Core.List.{Permᴰ}
use emicro.Common.{refl, true, false, none, some, List, [], ◌∷◌, map}
use emicro.Common.Maps.{Bytes, bytes_of}
use emicro.Discovery.Etcd.{ServiceInstance}
use emicro.Cluster.Responses.{Resp, Asking, offer}
use emicro.Cluster.Channel.{
  broadcastall, sent, Channel, started, answer, receive, close, Run, stay, step,
}
use emicro.Cluster.Channel.Delivery.{received-Permᴰ}

abbrev at : Bytes → ServiceInstance
at address = record { name = bytes_of "user"; address = address; weight = 1; group = [] }

-- Every instance is reached and refuses the call.
abbrev refusing : Asking Bytes
refusing = record { dial = λ ins. none; invoke = λ ins. (some (bytes_of "refused"), ins.address) }

abbrev two : List ServiceInstance
two = at (bytes_of "a") ∷ at (bytes_of "b") ∷ []

abbrev reply : Bytes → Resp Bytes
reply address = record { val = some address; err = none }

abbrev after : Channel Bytes
after = record {
  goroutines =
      record { instance_ = at (bytes_of "a"); phase = sent (reply (bytes_of "a")) }
      ∷ record { instance_ = at (bytes_of "b"); phase = sent (reply (bytes_of "b")) }
      ∷ [];
  received = reply (bytes_of "a") ∷ reply (bytes_of "b") ∷ [];
  ctx_done = false;
  closed = true;
}

both_received : Run broadcastall refusing (started two) after
unfolding offer
both_received =
    step _ _
      (step _ _
        (step _ _
          (step _ _ (step _ _ stay (answer _ 0 (at (bytes_of "a")) refl))
            (answer _ 1 (at (bytes_of "b")) refl))
          (receive _ 1 (at (bytes_of "b")) (reply (bytes_of "b")) refl))
        (receive _ 0 (at (bytes_of "a")) (reply (bytes_of "a")) refl))
      (close _ refl refl)

received-Permᴰ_example :
    Permᴰ (reply (bytes_of "a") ∷ reply (bytes_of "b") ∷ []) (map (offer refusing) two)
received-Permᴰ_example = received-Permᴰ refusing two after both_received refl refl
