-- ===== src/Rpc/Server/Registry.antt =====
-- What RegisterService changes for the requests that come after it.
use emicro.Common.{ℕ, ◌≡◌, ◌∙◌, refl, false, Option, some, List, [], ◌∷◌, panic}
use emicro.Common.Maps.{
  Bytes, bytes_of, bytes_eq, bytes_eq_self, lookup, insert, lookup-insert, Absent,
}
use emicro.Message.Request.{Request}
use emicro.Rpc.Stub.{Method, Stub, stub_invoke}
use emicro.Rpc.Server.{Service, Server, add_methods, name_method, register_service, invoke}

module _ {V S : Type 0} where
  lookup-add_methods :
      (k : Bytes) (ms acc : List (Bytes × Method V S))
      → Absent k ms
      → lookup k (add_methods ms acc) ≡ lookup k acc
  lookup-add_methods k [] acc h = refl
  lookup-add_methods k ((name, method) ∷ rest) acc h =
      lookup-add_methods k rest (insert name method acc) h.1
      ∙ (lookup-insert name k method acc ∙ rw (h.0) refl)

  -- The requests to other services are answered as before.
  pub invoke-register_other :
      (service : Service V S) (srv : Server V S) (deadline : Option ℕ) (req : Request) (s : S)
      → bytes_eq service.name req.service_name ≡ false
      → invoke (register_service service srv) deadline req s ≡ invoke srv deadline req s
  unfolding invoke register_service
  invoke-register_other service srv deadline req s other =
      rw
        (
          lookup-insert service.name req.service_name
              (record { methods = add_methods (name_method ∷ service.methods) [] }) srv.services,
          other,
          invoke,
        )
        refl

  -- A service has a method Name, which takes no request: a request for it panics, whatever its
  -- data are, where Name is not declared a second time.
  pub invoke_name-panics :
      (service : Service V S) (srv : Server V S) (deadline : Option ℕ) (req : Request) (s : S)
      → req.service_name ≡ service.name
      → req.method_name ≡ bytes_of "Name"
      → Absent (bytes_of "Name") service.methods
      → invoke (register_service service srv) deadline req s ≡ panic
  unfolding invoke register_service stub_invoke
  invoke_name-panics service srv deadline req s named name once =
      rw (found, no_input, invoke, stub_invoke) refl
    where
      stub : Stub V S
      stub = record { methods = add_methods (name_method ∷ service.methods) [] }

      found : lookup req.service_name (insert service.name stub srv.services) ≡ some stub
      found =
          rw
            (
              named,
              lookup-insert service.name service.name stub srv.services,
              bytes_eq_self service.name,
            )
            refl

      no_input : lookup req.method_name stub.methods ≡ some (name_method.1)
      no_input =
          rw name (lookup-add_methods (bytes_of "Name") service.methods (name_method ∷ []) once)
