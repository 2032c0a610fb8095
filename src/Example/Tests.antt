-- ===== src/Example/Tests.antt =====
-- Runs of the example's server and client.
use emicro.Common.{ℕ, ◌+◌, ◌≡◌, refl, [], ◌∷◌, map, ok, panic, Ends-ok, ◌>>=◌}
use emicro.Common.Maps.{bytes_of}
use emicro.Rpc.Codec.{returned, failed, Serializer}
use emicro.Rpc.Server
use emicro.Rpc.Server.{Server}
use emicro.Rpc.Client.{Proxy}
use emicro.Example.{Value, nil_resp, server_main, client_main}
use emicro.Example.Panics.{client_main-panics}

-- A serializer that knows one value.
abbrev one_value : ℕ → Serializer Value
one_value code = record {
  code = code;
  encode = λ v. returned [];
  decode = λ bs v. returned nil_resp;
}

abbrev down : Proxy ℕ
down ctx req w = ok (failed (bytes_of "EOF"), w + 1)

client_main-panics_example : client_main (one_value 1) down {C = ℕ} (returned 5) 0 ≡ panic
client_main-panics_example =
    client_main-panics (one_value 1) down (returned 5) 0 (λ ctx req w. Ends-ok _)

-- The names under which the server has its services.
server_names :
    (do srv ← server_main {S = ℕ} (one_value 1) (one_value 2) 30; ok (map (λ s. s.0) srv.services))
    ≡ ok (bytes_of "user" ∷ bytes_of "user-service-proto" ∷ [])
unfolding server_main Server.register_service Server.must_register
server_names = refl
