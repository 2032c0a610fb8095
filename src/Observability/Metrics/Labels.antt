-- ===== src/Observability/Metrics/Labels.antt =====
-- observability/metrics/prometheus: what the interceptors write for one call.
use emicro.Common.{◌≡◌, refl, Option, none, some, List, [], ◌∷◌, ok, panic}
use emicro.Common.Maps.{Bytes}
use emicro.Observability.Metrics.{
  Builder, Written, req_add, req_sub, err_add, observed, server_vecs, client_vecs, client_intercept,
  server_intercept,
}

-- What the client writes for a call.
abbrev pub client_writes : Bytes → Option Bytes → List Written
client_writes method none =
    req_add (method ∷ []) ∷ req_sub (method ∷ []) ∷ observed (method ∷ []) ∷ []
client_writes method (some e) =
    req_add (method ∷ [])
    ∷ err_add (method ∷ [])
    ∷ req_sub (method ∷ [])
    ∷ observed (method ∷ [])
    ∷ []

-- The client's interceptor returns the error of its invoker; it counts the call as active and no
-- longer active once each, counts an error exactly where there is one, and observes one duration.
pub client_intercept-writes :
    (b : Builder) (ip method : Bytes) (err : Option Bytes)
    → client_intercept (client_vecs b ip) method err
      ≡ record { written = client_writes method err; result = ok err }
unfolding client_intercept
client_intercept-writes b ip method none = refl
client_intercept-writes b ip method (some e) = refl

abbrev pub server_writes : Bytes → Option (Bytes × Bytes) → List Written
server_writes method none = req_add (method ∷ []) ∷ req_sub (method ∷ []) ∷ []
server_writes method (some e) = req_add (method ∷ []) ∷ []

-- The server's interceptor panics for every call, with or without an error of the handler: it gives
-- three or four values to vectors of one label. After a handler's error the call even stays counted
-- as active.
pub server_intercept-panic :
    (b : Builder) (ip method : Bytes) (err : Option (Bytes × Bytes))
    → server_intercept (server_vecs b ip) method err
      ≡ record { written = server_writes method err; result = panic }
unfolding server_intercept
server_intercept-panic b ip method none = refl
server_intercept-panic b ip method (some e) = refl
