-- ===== src/Rpc/Tests.antt =====
-- A service with one method, on a server, for the runs of server and client.
mod Serving
mod Calling
mod Setup
use emicro.Common.{
  ℕ, suc, ◌+◌, ◌-◌, ◌≡◌, ◌≢◌, ◌↔◌, ap, refl, inr, false, Option, none, some, [], ◌∷◌, length,
  Outcome, ok, panic, Returns, arith,
}
use emicro.Common.Maps.{Bytes, bytes_of, lookup}
use emicro.Message.Request
use emicro.Message.Request.{Request, Pairs, decode_req, encode_req}
use emicro.Message.Request.Layout.{layout, encode_req-layout}
use emicro.Message.Response.{Response}
use emicro.Rpc.Codec.{Result, returned, failed, Serializer, json_serializer, do_nothing}
use emicro.Rpc.Stub
use emicro.Rpc.Stub.{Results, two, nil, Method, Stub, reply}
use emicro.Rpc.Server
use emicro.Rpc.Server.{Service, Server, new_server, register_service, invoke, handle_conn, message}
use emicro.Rpc.Server.Replies.{Replies, Ready, Callable, invoke-Returns}
use emicro.Rpc.Server.Conn.{Sent, Answers, received, handle_conn-Answers}
use emicro.Rpc.Server.Registry.{invoke-register_other, invoke_name-panics}
use emicro.Rpc.Server.Transport.{Calls, invoke-transport, invoke_undecoded}
use emicro.Rpc.Client
use emicro.Rpc.Client.{Context, build_request}
use emicro.Rpc.Client.Meta.{build_request-panic, call_same}
use emicro.Rpc.Client.Trip.{joined, two_way_ctx, plain}
use emicro.Rpc.Transfer.{Net, do_invoke}
use emicro.Rpc.Transfer.Lending.{Lends, do_invoke_lends}

-- Values are bytes, written as they are; empty data are not decoded.
abbrev pub read_bytes : Bytes → Bytes → Result Bytes
read_bytes [] into = failed (bytes_of "EOF")
read_bytes (b ∷ bs) into = returned (b ∷ bs)

abbrev pub strict : Serializer Bytes
strict = json_serializer (λ v. returned v) read_bytes

abbrev pub plain_json : Serializer Bytes
plain_json = json_serializer (λ v. returned v) (λ bs into. returned bs)

-- The state counts the calls.
abbrev pub get : Method Bytes ℕ
get = record { input = some []; call = λ deadline v s. ok (two (104 ∷ v) nil, s + 1) }

abbrev pub user : Service Bytes ℕ
user = record { name = bytes_of "user"; methods = (bytes_of "Get", get) ∷ [] }

unfoldable pub server : Serializer Bytes → Server Bytes ℕ
unfolding register_service
server serializer = register_service user (new_server serializer)

abbrev pub get_request : Request
get_request = record {
  head_length = 0;
  body_length = 0;
  message_id = 7;
  version = 0;
  compresser = 0;
  serializer = 1;
  service_name = bytes_of "user";
  method_name = bytes_of "Get";
  meta = none;
  payload = 105 ∷ [];
}

abbrev pub one_way_request : Request
one_way_request = record get_request {
  message_id = 8;
  meta = some ((bytes_of "one-way", bytes_of "true") ∷ []);
}

abbrev pub user_stub : Stub Bytes ℕ
user_stub = record { methods = Server.add_methods (Server.name_method ∷ user.methods) [] }

pub get-Callable : Callable get
get-Callable = record { input = []; has_input = refl; usual = λ deadline v s. tt }

abbrev pub or_get : Option (Method Bytes ℕ) → Method Bytes ℕ
or_get none = get
or_get (some method) = method

abbrev pub or_user : Option (Stub Bytes ℕ) → Stub Bytes ℕ
or_user none = user_stub
or_user (some stub) = stub

pub found-Callable :
    (stub : Stub Bytes ℕ) (method : Method Bytes ℕ)
    → some user_stub ≡ some stub
    → lookup (bytes_of "Get") stub.methods ≡ some method
    → Callable method
found-Callable stub method e e' =
    let same : user_stub ≡ stub = ap or_user e in
    let same' : get ≡ method = ap or_get (rw (← same) at e') in rw (← same') get-Callable

pub ready :
    (id : ℕ) (meta : Option Pairs)
    → Ready (server plain_json) (record get_request { message_id = id; meta = meta })
unfolding server register_service
ready id meta = record {
  serializer = plain_json;
  compresser = do_nothing;
  has_serializer = refl;
  has_compresser = refl;
  methods = found-Callable;
}

unfoldable pub calls_get :
    (decode : Bytes → Bytes → Result Bytes) (req : Request)
    → req.compresser ≡ 0
    → req.serializer ≡ 1
    → req.service_name ≡ bytes_of "user"
    → req.method_name ≡ bytes_of "Get"
    → Calls (server (json_serializer (λ v. returned v) decode)) req
unfolding server register_service
calls_get decode req e₁ e₂ e₃ e₄ = record {
  stub = user_stub;
  method = get;
  input = [];
  serializer = json_serializer (λ v. returned v) decode;
  compresser = do_nothing;
  has_stub = rw e₃ refl;
  has_method = rw e₄ refl;
  has_input = refl;
  has_serializer = rw e₂ refl;
  has_compresser = rw e₁ refl;
}
