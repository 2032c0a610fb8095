-- ===== src/Rpc/Tests/Serving.antt =====
-- Runs of the server.
use emicro.Common.{
  ℕ, ◌+◌, ◌≡◌, ap, refl, Option, none, some, [], ◌∷◌, length, Outcome, ok, Returns, arith,
}
use emicro.Common.Maps.{bytes_of}
use emicro.Message.Request
use emicro.Message.Request.{Request, Pairs, decode_req, encode_req}
use emicro.Message.Request.Layout.{layout, encode_req-layout}
use emicro.Message.Response.{Response}
use emicro.Rpc.Stub
use emicro.Rpc.Stub.{Results, two, nil, Method, Stub, reply}
use emicro.Rpc.Server.{register_service, invoke, handle_conn, message}
use emicro.Rpc.Server.Replies.{Replies, invoke-Returns}
use emicro.Rpc.Server.Conn.{Sent, Answers, received, handle_conn-Answers}
use emicro.Rpc.Tests.{plain_json, server, get_request, one_way_request, ready}

invoke-Returns_example :
    Returns (λ r. Replies get_request r.0) (invoke (server plain_json) none get_request 0)
invoke-Returns_example = invoke-Returns (server plain_json) none get_request 0 (ready 7 none)

abbrev size_of : Outcome (Response × ℕ) → ℕ
size_of (ok (resp, s)) = 15 + length resp.error + length resp.payload
size_of _ = 0

size-invoke :
    (id : ℕ) (meta : Option Pairs) (deadline : Option ℕ) (s : ℕ)
    → size_of (
        invoke
          (server plain_json)
          deadline
          (received (record get_request { message_id = id; meta = meta }))
          s)
      ≡ 17
unfolding server register_service invoke Stub.stub_invoke Stub.call_method Stub.finish Stub.answer
    Request.calculate_header_length Request.calculate_body_length
size-invoke id meta deadline s = refl

get_request-Sent : Sent (server plain_json) get_request (layout (Request.sized get_request))
get_request-Sent = record {
  clean = record {
    service = assumption (refl, tt);
    method = assumption (refl, tt);
    pairs = tt;
    distinct = tt;
    id = omega arith;
  };
  room = omega arith;
  encoded = encode_req-layout get_request (omega arith);
  ready = ready 7 none;
  short = λ deadline s s' resp e. omega (arith, size-invoke 7 none deadline s, ap size_of e);
}

abbrev one_way_meta : Option Pairs
one_way_meta = some ((bytes_of "one-way", bytes_of "true") ∷ [])

one_way_request-Sent :
    Sent (server plain_json) one_way_request (layout (Request.sized one_way_request))
one_way_request-Sent = record {
  clean = record {
    service = assumption (refl, tt);
    method = assumption (refl, tt);
    pairs = assumption (refl, tt);
    distinct = assumption (refl, tt);
    id = omega arith;
  };
  room = omega arith;
  encoded = encode_req-layout one_way_request (omega arith);
  ready = ready 8 one_way_meta;
  short =
      λ deadline s s' resp e. omega (arith, size-invoke 8 one_way_meta deadline s, ap size_of e);
}

handle_conn-Answers_example :
    Returns
      (λ r. Answers (one_way_request ∷ get_request ∷ []) r.0)
      (handle_conn
        (λ text. none)
        (server plain_json)
        (ok (message (layout (Request.sized one_way_request)))
          ∷ ok (message (layout (Request.sized get_request)))
          ∷ [])
        0)
handle_conn-Answers_example =
    handle_conn-Answers (λ text. none) (server plain_json) (one_way_request ∷ get_request ∷ [])
      (layout (Request.sized one_way_request) ∷ layout (Request.sized get_request) ∷ []) 0
      (one_way_request-Sent, (get_request-Sent, tt))
