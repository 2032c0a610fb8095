-- ===== src/Discovery/Etcd.antt =====
-- registry/types.go and registry/etcd/registry.go: instances as keys and values of etcd.
use emicro.Common.{ℕ, List, [], ◌∷◌, ◌++◌}
use emicro.Common.Maps.{Bytes, bytes_of}
use emicro.Rpc.Codec.{Result, returned, failed}

pub record ServiceInstance : Type 0 where
  pub name : Bytes
  pub address : Bytes
  pub weight : ℕ
  pub group : Bytes

-- An etcd client in the state `W`: Put, Delete, and Get of all keys with a prefix. The lease of the
-- session is part of the state.
pub record Client (W : Type 0) : Type 0 where
  pub put : Bytes → Bytes → W → Result (Unit {0}) × W
  pub delete : Bytes → W → Result (Unit {0}) × W
  pub get : Bytes → W → Result (List (Bytes × Bytes))

-- encoding/json on instances
pub record Json : Type 0 where
  pub marshal : ServiceInstance → Result Bytes
  pub unmarshal : Bytes → Result ServiceInstance

abbrev pub instance_key : ServiceInstance → Bytes
instance_key ins = bytes_of "/emicro/" ++ (ins.name ++ (bytes_of "/" ++ ins.address))

abbrev pub service_key : Bytes → Bytes
service_key service_name = bytes_of "/emicro/" ++ service_name

-- The loop of ListServices: the first value that is no instance ends it with an error.
unfoldable pub instances : Json → List (Bytes × Bytes) → Result (List ServiceInstance)
instances json [] = returned []
instances json ((key, value) ∷ kvs) = elim (json.unmarshal value) [
  | failed e ↦ failed e
  | returned si ↦ elim (instances json kvs) [
    | failed e ↦ failed e
    | returned res ↦ returned (si ∷ res)
  ]
]

module _ {W : Type 0} (client : Client W) (json : Json) where
  unfoldable pub register : ServiceInstance → W → Result (Unit {0}) × W
  register ins w = elim (json.marshal ins) [
    | failed e ↦ (failed e, w)
    | returned val ↦ client.put (instance_key ins) val w
  ]

  unfoldable pub unregister : ServiceInstance → W → Result (Unit {0}) × W
  unregister ins w = client.delete (instance_key ins) w

  unfoldable pub list_services : Bytes → W → Result (List ServiceInstance)
  unfolding instances
  list_services service_name w = elim (client.get (service_key service_name) w) [
    | failed e ↦ failed e
    | returned kvs ↦ instances json kvs
  ]
