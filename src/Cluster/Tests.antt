-- ===== src/Cluster/Tests.antt =====
-- A broadcast to two instances.
use mathlib.Core.List.{Permᴰ}
use emicro.Common.{◌≡◌, ◌↔◌, refl, none, some, List, [], ◌∷◌, All, if◌then◌else◌}
use emicro.Common.Maps.{Bytes, bytes_of, bytes_eq}
use emicro.Rpc.Codec.{returned}
use emicro.Discovery.Etcd.{ServiceInstance}
use emicro.Cluster.Broadcast.{Calling, broadcast, using_broad_cast, broadcast-none_iff}

abbrev at : Bytes → ServiceInstance
at address = record { name = bytes_of "user"; address = address; weight = 1; group = [] }

abbrev one_down : Calling
one_down = record {
  dial = λ ins. none;
  invoke = λ ins. if bytes_eq ins.address (bytes_of "b") then some (bytes_of "refused") else none;
}

abbrev backwards : List ServiceInstance → List ServiceInstance
backwards (x ∷ y ∷ rest) = y ∷ x ∷ rest
backwards xs = xs

broadcast-none_iff_example :
    (broadcast one_down using_broad_cast none
        (returned (at (bytes_of "a") ∷ at (bytes_of "b") ∷ []))
        backwards
      ≡ none)
    ↔ All
        (λ ins. (one_down.dial ins ≡ none) × (one_down.invoke ins ≡ none))
        (at (bytes_of "a") ∷ at (bytes_of "b") ∷ [])
broadcast-none_iff_example =
    broadcast-none_iff one_down none (at (bytes_of "a") ∷ at (bytes_of "b") ∷ []) backwards
      (Permᴰ.swap refl refl)
