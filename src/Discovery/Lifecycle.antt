-- ===== src/Discovery/Lifecycle.antt =====
-- server.go: what Start registers and Close unregisters.
use emicro.Common.{◌≡◌, refl, true, Option, none, some, List, [], ◌∷◌, Returns}
use emicro.Common.Maps.{Bytes}
use emicro.Rpc.Codec.{returned}
use emicro.Discovery.Etcd.{ServiceInstance}
use emicro.Discovery.Service.{
  GrpcServer, Action, listen, register_instance, serve, unregister_instance, graceful_stop, start,
  close,
}

-- The instance that is registered among the calls, or unregistered.
abbrev pub registered_of : List Action → Option ServiceInstance
registered_of [] = none
registered_of (register_instance ins ∷ acts) = some ins
registered_of (listen addr ∷ acts) = registered_of acts
registered_of (serve ∷ acts) = registered_of acts
registered_of (unregister_instance ins ∷ acts) = registered_of acts
registered_of (graceful_stop ∷ acts) = registered_of acts

abbrev pub unregistered_of : List Action → Option ServiceInstance
unregistered_of [] = none
unregistered_of (unregister_instance ins ∷ acts) = some ins
unregistered_of (listen addr ∷ acts) = unregistered_of acts
unregistered_of (serve ∷ acts) = unregistered_of acts
unregistered_of (register_instance ins ∷ acts) = unregistered_of acts
unregistered_of (graceful_stop ∷ acts) = unregistered_of acts

-- Where a server that listens on an address has a registry, Start registers its name, group and weight
-- with that address, and the Close that follows asks for exactly this instance to be unregistered,
-- whatever Register, Serve and Unregister end with.
pub close-start :
    (s : GrpcServer) (addr address : Bytes) (registered ended unregistered : Option Bytes)
    → s.has_registry ≡ true
    → (registered_of (start s addr (returned address) registered ended).0
        ≡ some (record { name = s.name; group = s.group; weight = s.weight; address = address }))
      × Returns
          (λ r.
            unregistered_of r.0
            ≡ registered_of (start s addr (returned address) registered ended).0)
          (close (start s addr (returned address) registered ended).2 unregistered)
unfolding start close
close-start s addr address (some e) ended (some u) has = rw (has, start, close) (refl, refl)
close-start s addr address (some e) ended none has = rw (has, start, close) (refl, refl)
close-start s addr address none ended (some u) has = rw (has, start, close) (refl, refl)
close-start s addr address none ended none has = rw (has, start, close) (refl, refl)
