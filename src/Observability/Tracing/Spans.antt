-- ===== src/Observability/Tracing/Spans.antt =====
-- observability/opentelemetry: what the client's interceptor makes of the metadata of its context.
use emicro.Common.{◌≡◌, refl, Option, some}
use emicro.Common.Maps.{Bytes}
use emicro.Observability.Tracing.{Metadata, Ctx, Otel, md_of, client_ctx}

-- What the caller had put into the metadata that go out does not go out: the invoker's metadata are
-- those that came in, with the span.
pub client_ctx-outgoing :
    {S : Type 0} (otel : Otel S) (method : Bytes) (ctx : Ctx S) (mine : Option Metadata)
    → (client_ctx otel method (record ctx { outgoing = mine })).outgoing
      ≡ some (otel.inject (some (otel.start ctx.span method)) (md_of otel ctx))
unfolding client_ctx
client_ctx-outgoing otel method ctx mine = refl
