-- ===== src/Observability/Tracing.antt =====
-- observability/opentelemetry: the two interceptors, as what they do to the span and to the context.
-- The tracer and the propagator are parameters.
pub mod Spans
use emicro.Common.{ℕ, Option, none, some, List, [], ◌∷◌, ◌++◌}
use emicro.Common.Maps.{Bytes, bytes_of}
use emicro.Rpc.Codec.{Result, returned, failed}

abbrev pub Metadata : Type 0
Metadata = List (Bytes × List Bytes)

-- A context: the metadata that came in, those that go out, and the current span.
pub record Ctx (S : Type 0) : Type 0 where
  pub incoming : Option Metadata
  pub outgoing : Option Metadata
  pub span : Option S

-- trace.Tracer's Start: a new span under the current one. propagation.TextMapPropagator through a
-- HeaderCarrier: Inject of the current span into metadata, and Extract of the remote span in them, if
-- there is one.
pub record Otel (S : Type 0) : Type 0 where
  pub start : Option S → Bytes → S
  pub inject : Option S → Metadata → Metadata
  pub extract : Metadata → Option S

pub data SpanCall : Type 0 where
  set_address : Bytes → SpanCall
  set_grpc_status : SpanCall
  status_ok : SpanCall
  status_error : Bytes → SpanCall
  record_error : Bytes → SpanCall
  end_span : SpanCall

module _ {S : Type 0} (otel : Otel S) where
  -- tracer.Start: the context with the new span.
  abbrev pub start_span : Bytes → Ctx S → Ctx S
  start_span name ctx = record ctx { span = some (otel.start ctx.span name) }

  abbrev pub md_of : Ctx S → Metadata
  md_of ctx = elim (ctx.incoming) [ none ↦ [] | some md ↦ md ]

  abbrev pub inject : Ctx S → Ctx S
  inject ctx = record ctx { outgoing = some (otel.inject ctx.span (md_of ctx)) }

  abbrev pub extract : Ctx S → Ctx S
  extract ctx = elim (otel.extract (md_of ctx)) [
    | none ↦ ctx
    | some remote ↦ record ctx { span = some remote }
  ]

  -- The context that the invoker gets.
  unfoldable pub client_ctx : Bytes → Ctx S → Ctx S
  client_ctx method ctx = inject (start_span method ctx)

  -- The context that the handler gets.
  unfoldable pub server_ctx : Bytes → Ctx S → Ctx S
  server_ctx method ctx = extract (start_span method ctx)

-- The calls on the client's span after the invoker has returned: the deferred functions, the last one
-- first.
abbrev pub client_span_calls : Option Bytes → List SpanCall
client_span_calls none = status_ok ∷ end_span ∷ end_span ∷ []
client_span_calls (some e) =
    set_grpc_status
    ∷ status_error (bytes_of "client failed")
    ∷ record_error e
    ∷ end_span
    ∷ end_span
    ∷ []

-- The calls on the server's span.
abbrev pub server_span_calls : Bytes → Option Bytes → List SpanCall
server_span_calls address none = set_address address ∷ end_span ∷ []
server_span_calls address (some e) =
    set_address address ∷ status_error (bytes_of "server failed") ∷ record_error e ∷ end_span ∷ []

abbrev pub instrumentation_name : Bytes
instrumentation_name = bytes_of "emicro/observability/opentelemetry"

-- The server's tracer, or the one of the global provider by this name.
abbrev pub tracer_or : {S : Type 0} → Option (Otel S) → (Bytes → Otel S) → Otel S
tracer_or none provider = provider instrumentation_name
tracer_or (some tracer) provider = tracer

-- The attributes that the client's span starts with.
abbrev pub client_attrs : List (Bytes × Bytes)
client_attrs =
    (bytes_of "rpc.system", bytes_of "grpc")
    ∷ (bytes_of "rpc.grpc.kind", bytes_of "unary")
    ∷ (bytes_of "rpc.component", bytes_of "client")
    ∷ []

-- The address of the host, and the port in decimal where there is one.
abbrev pub address_of : Bytes → Option Bytes → Bytes
address_of ip none = ip
address_of ip (some port) = ip ++ (bytes_of ":" ++ port)

-- The two builders; `port` is in decimal, and `none` for 0.
pub record ClientInterceptorBuilder (S : Type 0) : Type 0 where
  pub port : Option Bytes
  pub tracer : Otel S

abbrev pub new_client_interceptor_builder :
    {S : Type 0} → Option Bytes → Otel S → ClientInterceptorBuilder S
new_client_interceptor_builder port tracer = record { port = port; tracer = tracer }

pub record ServerInterceptorBuilder (S : Type 0) : Type 0 where
  pub port : Option Bytes
  pub tracer : Option (Otel S)

abbrev pub new_server_interceptor_builder :
    {S : Type 0} → Option Bytes → Option (Otel S) → ServerInterceptorBuilder S
new_server_interceptor_builder port tracer = record { port = port; tracer = tracer }

-- GetOutboundIP, on the local address of the connection that net.Dial gives.
abbrev pub get_outbound_ip : Result Bytes → Bytes
get_outbound_ip (failed e) = []
get_outbound_ip (returned ip) = ip

-- A call through an interceptor: the attributes of its span, the calls on it, and what is returned.
pub record Traced (A : Type 0) : Type 0 where
  pub attributes : List (Bytes × Bytes)
  pub calls : List SpanCall
  pub result : A

module _ {S W : Type 0} where
  -- The client's interceptor does not look at its address; the invoker runs in the state `w`.
  unfoldable pub intercept_client :
      ClientInterceptorBuilder S
      → Bytes
      → (Ctx S → Bytes → W → Option Bytes × W)
      → Ctx S
      → W
      → Traced (Option Bytes) × W
  unfolding client_ctx
  intercept_client b method invoker ctx w =
      let (err, w') = invoker (client_ctx b.tracer method ctx) method w in
      (record { attributes = client_attrs; calls = client_span_calls err; result = err }, w')

  -- The server's; `host` is the answer of net.Dial at the time of the building.
  unfoldable pub intercept_server :
      {V : Type 0}
      → ServerInterceptorBuilder S
      → (Bytes → Otel S)
      → Result Bytes
      → Bytes
      → (Ctx S → W → (V × Option Bytes) × W)
      → Ctx S
      → W
      → Traced (V × Option Bytes) × W
  unfolding server_ctx
  intercept_server b provider host full_method handler ctx w =
      let (resp, w') = handler (server_ctx (tracer_or b.tracer provider) full_method ctx) w in
      (
        record {
          attributes = [];
          calls = server_span_calls (address_of (get_outbound_ip host) b.port) resp.1;
          result = resp;
        },
        w',
      )
