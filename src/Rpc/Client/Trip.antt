-- ===== src/Rpc/Client/Trip.antt =====
-- A call from the client's fn to the server's method and back.
use emicro.Common.{ℕ, ◌+◌, ◌^◌, ◌<◌, false, Option, none, some, [], length, ok, ◌>>=◌}
use emicro.Common.Maps.{Bytes}
use emicro.Message.Wire.{splitter}
use emicro.Message.Wire.Laws.{Free}
use emicro.Message.Request
use emicro.Message.Request.{Request, encode_req, calculate_header_length, calculate_body_length}
use emicro.Message.Response
use emicro.Message.Response.{Response, decode_resp}
use emicro.Rpc.Codec.{returned, failed, oneway_error}
use emicro.Rpc.Server.{Server, handle_msg}
use emicro.Rpc.Server.Conn.{received}
use emicro.Rpc.Server.Transport.{Calls}
use emicro.Rpc.Client.{Context, Proxy}

-- A connection with nothing between the client and one round of the server's loop.
abbrev pub joined : {V S : Type 0} → (Bytes → Option ℕ) → Server V S → Proxy S
joined parse_int srv ctx req s = do
  bs ← encode_req req
  (out, s') ← handle_msg parse_int srv bs s
  elim out [
    | none ↦ ok (failed oneway_error, s')
    | some bs' ↦ decode_resp bs' >>= λ resp. ok (returned resp, s')
  ]

-- The request of a two-way call with no deadline, before its lengths are calculated.
abbrev pub plain : ℕ → ℕ → Bytes → Bytes → ℕ → Request
plain compresser serializer service_name method_name message_id = record {
  head_length = 0;
  body_length = 0;
  message_id = message_id;
  version = 0;
  compresser = compresser;
  serializer = serializer;
  service_name = service_name;
  method_name = method_name;
  meta = none;
  payload = [];
}

abbrev pub two_way_ctx : Context
two_way_ctx = record { one_way = false; deadline = none }

-- The names of a service and a method that a request can carry.
pub record AreNames (service_name method_name : Bytes) : Type 0 where
  pub service : Free splitter service_name
  pub method : Free splitter method_name
  pub room : 17 + length service_name + length method_name < 2 ^ 32

module _ {V S : Type 0} (parse_int : Bytes → Option ℕ) (srv : Server V S) where
  unfoldable received_calls : (req : Request) → Calls srv req → Calls srv (received req)
  unfolding calculate_header_length calculate_body_length
  received_calls req h = record {
    stub = h.stub;
    method = h.method;
    input = h.input;
    serializer = h.serializer;
    compresser = h.compresser;
    has_stub = h.has_stub;
    has_method = h.has_method;
    has_input = h.has_input;
    has_serializer = h.has_serializer;
    has_compresser = h.has_compresser;
  }
