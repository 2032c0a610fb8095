-- ===== src/Rpc/Server/Conn.antt =====
-- The loop of handleConn on the messages of a client.
use emicro.Common.{
  ℕ, ◌+◌, ◌^◌, ◌<◌, ◌≡◌, refl, Option, none, some, List, [], ◌∷◌, map, length, ok, bind-ok, Returns,
  Returns-ok,
}
use emicro.Common.Maps.{Bytes, bytes_of}
use emicro.Message.Request
use emicro.Message.Request.{
  Request, Pairs, entries, encode_req, decode_req, calculate_header_length, calculate_body_length,
}
use emicro.Message.Request.Layout.{header_size}
use emicro.Message.Request.Roundtrip.{IsClean, decode-encode_req}
use emicro.Message.Response
use emicro.Message.Response.{Response, encode_resp, decode_resp}
use emicro.Message.Response.Roundtrip.{decode-encode_resp}
use emicro.Rpc.Server.{Server, meta_value, invoke, write_back, handle_msg, message, handle_conn}
use emicro.Rpc.Server.Replies.{Replies, Ready, invoke-Returns}

-- The request as the server decodes it: with no meta data.
abbrev pub received : Request → Request
received req = record (Request.sized req) { meta = none }

-- A message that encodes a request which the format can carry and the server is ready for, with
-- responses short enough for their length words.
pub record Sent {V S : Type 0} (srv : Server V S) (req : Request) (bs : Bytes) : Type 0 where
  pub clean : IsClean req
  pub room : header_size req + length req.payload < 2 ^ 32
  pub encoded : encode_req (Request.sized req) ≡ ok bs
  pub ready : Ready srv req
  pub short :
      (deadline : Option ℕ) (s s' : S) (resp : Response)
      → invoke srv deadline (received req) s ≡ ok (resp, s')
      → 15 + length resp.error + length resp.payload < 2 ^ 32

abbrev pub AllSent : {V S : Type 0} → Server V S → List Request → List Bytes → Type 0
AllSent srv [] [] = Unit
AllSent srv [] (bs ∷ frames) = ⊥
AllSent srv (req ∷ reqs) [] = ⊥
AllSent srv (req ∷ reqs) (bs ∷ frames) = Sent srv req bs × AllSent srv reqs frames

-- The bytes of a response to the request.
pub record Answer (req : Request) (bs : Bytes) : Type 0 where
  pub resp : Response
  pub decoded : decode_resp bs ≡ ok resp
  pub replies : Replies req resp

abbrev pub Answers : List Request → List Bytes → Type 0
Answers [] [] = Unit
Answers [] (bs ∷ written) = ⊥
Answers (req ∷ reqs) [] = ⊥
Answers (req ∷ reqs) (bs ∷ written) = Answer req bs × Answers reqs written

-- What one round leaves for a request.
abbrev pub Round : Request → Option Bytes → Type 0
Round req out = (bs : Bytes) × (out ≡ some bs) × Answer req bs

Answer-sized :
    (req : Request) (resp : Response) (bs : Bytes)
    → decode_resp bs ≡ ok (Response.sized resp)
    → Replies req resp
    → Answer req bs
unfolding Response.calculate_header_length Response.calculate_body_length
Answer-sized req resp bs decoded replies = record {
  resp = Response.sized resp;
  decoded = decoded;
  replies = record {
    id = replies.id;
    version = replies.version;
    compresser = replies.compresser;
    serializer = replies.serializer;
    one_of = replies.one_of;
  };
}

-- A request with no meta data is no one-way request to the server: it is answered.
write_back_lem :
    (req req' : Request) (resp : Response)
    → req'.meta ≡ none
    → req.message_id < 2 ^ 32
    → Replies req resp
    → 15 + length resp.error + length resp.payload < 2 ^ 32
    → Returns (λ out. Round req out) (write_back req' resp)
unfolding write_back
write_back_lem req req' resp no_meta id replies short =
    let (bs, encoded, decoded) =
      bind-ok (encode_resp (Response.sized resp)) decode_resp (Response.sized resp)
        (decode-encode_resp resp (rw (replies.id) id) short) in
    rw (no_meta, encoded, write_back, Returns) (bs, refl, Answer-sized req resp bs decoded replies)

module _ {V S : Type 0} (parse_int : Bytes → Option ℕ) (srv : Server V S) where
  Ready-received : (req : Request) → Ready srv req → Ready srv (received req)
  unfolding calculate_header_length calculate_body_length
  Ready-received req h = record {
    serializer = h.serializer;
    compresser = h.compresser;
    has_serializer = h.has_serializer;
    has_compresser = h.has_compresser;
    methods = h.methods;
  }

  Replies-received :
      (req : Request) (resp : Response) → Replies (received req) resp → Replies req resp
  unfolding calculate_header_length calculate_body_length
  Replies-received req resp h = record {
    id = h.id;
    version = h.version;
    compresser = h.compresser;
    serializer = h.serializer;
    one_of = h.one_of;
  }

  handle_msg_lem :
      (req : Request) (bs : Bytes) (s : S)
      → Sent srv req bs
      → Returns (λ r. Round req r.0) (handle_msg parse_int srv bs s)
  unfolding handle_msg
  handle_msg_lem req bs s sent =
      let decoded : decode_req bs ≡ ok (received req) =
        rw sent.encoded at (decode-encode_req req sent.clean sent.room) in
      let deadline = parse_int (meta_value (bytes_of "deadline") (received req)) in
      let (r, invoked, replies) =
        Returns-ok (λ r. Replies (received req) r.0) (invoke srv deadline (received req) s)
          (invoke-Returns srv deadline (received req) s (Ready-received req sent.ready)) in
      let (out, wrote, round) =
        Returns-ok (λ out. Round req out) (write_back (received req) r.0)
          (write_back_lem req (received req) r.0 refl sent.clean.id
            (Replies-received req r.0 replies) (sent.short deadline s r.1 r.0 invoked)) in
      rw (decoded, invoked, wrote, handle_msg) round

  -- On a connection that brings messages which encode requests that the format can carry and the
  -- server is ready for, one after the other, the loop returns to its wait, having written a
  -- response to each request, in their order, also to the one-way ones: the requests that it decodes
  -- have no meta data. The outcomes of ReadMsg, which is not written yet and panics, are an argument.
  pub handle_conn-Answers :
      (reqs : List Request) (frames : List Bytes) (s : S)
      → AllSent srv reqs frames
      → Returns
          (λ r. Answers reqs r.0)
          (handle_conn parse_int srv (map (λ bs. ok (message bs)) frames) s)
  unfolding handle_conn
  handle_conn-Answers [] [] s sent = tt
  handle_conn-Answers [] (bs ∷ frames) s sent = absurd sent
  handle_conn-Answers (req ∷ reqs) [] s sent = absurd sent
  handle_conn-Answers (req ∷ reqs) (bs ∷ frames) s sent =
      let (r, handled, (answer, wrote, answers)) =
        Returns-ok (λ r. Round req r.0) (handle_msg parse_int srv bs s)
          (handle_msg_lem req bs s sent.0) in
      let (r', rest, answers') =
        Returns-ok (λ r. Answers reqs r.0)
          (handle_conn parse_int srv (map (λ bs. ok (message bs)) frames) r.1)
          (handle_conn-Answers reqs frames r.1 sent.1) in
      rw (handled, rest, wrote) (answers, answers')
