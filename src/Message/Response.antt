-- ===== src/Message/Response.antt =====
-- rpc/message/response.go: responses, EncodeResp, DecodeResp and the two length calculations.
pub mod Roundtrip
use emicro.Common.{
  ℕ, ◌+◌, ◌%◌, ◌++◌, leb, length, take, drop, replicate, Outcome, ok, must, ◌>>=◌, ◌>>◌,
}
use emicro.Common.Words.{add32, u32_mod}
use emicro.Common.Maps.{Bytes}
use emicro.Message.Wire.{slice, get_u32, get_byte, Cursor, copy_in, advance, put_fixed}

-- `error` and `payload` are the source's Error and Data; a nil slice is the empty one.
pub record Response : Type 0 where
  pub head_length : ℕ
  pub body_length : ℕ
  pub message_id : ℕ
  pub version : ℕ
  pub compresser : ℕ
  pub serializer : ℕ
  pub error : Bytes
  pub payload : Bytes

unfoldable pub encode_resp : Response → Outcome Bytes
encode_resp resp = do
  bs ←
      put_fixed resp.head_length resp.body_length resp.message_id resp.version resp.compresser
        resp.serializer (replicate (add32 resp.head_length resp.body_length) 0)
  must (leb 15 (length bs))
  c₁ ←
      advance (length resp.error)
        (copy_in resp.error (record { done = take 15 bs; cur = drop 15 bs }))
  let c₂ = copy_in resp.payload c₁
  ok (c₂.done ++ c₂.cur)

unfoldable pub decode_resp : Bytes → Outcome Response
decode_resp bs = do
  head_length ← get_u32 0 bs
  body_length ← get_u32 4 bs
  message_id ← get_u32 8 bs
  version ← get_byte 12 bs
  compresser ← get_byte 13 bs
  serializer ← get_byte 14 bs
  error ← slice 15 head_length bs
  payload ← slice head_length (length bs) bs
  ok (record {
    head_length = head_length;
    body_length = body_length;
    message_id = message_id;
    version = version;
    compresser = compresser;
    serializer = serializer;
    error = error;
    payload = payload;
  })

unfoldable pub calculate_header_length : Response → Response
calculate_header_length resp = record resp { head_length = add32 15 (length resp.error % u32_mod) }

unfoldable pub calculate_body_length : Response → Response
calculate_body_length resp = record resp { body_length = length resp.payload % u32_mod }

-- The two calculations, in the order in which the server makes them before it answers.
abbrev pub sized : Response → Response
sized resp = calculate_body_length (calculate_header_length resp)
