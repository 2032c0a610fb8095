-- ===== src/Message/Response/Roundtrip.antt =====
-- DecodeResp after EncodeResp, as server and client put them together.
use mathlib.Core.List.{append_assoc, append-nil}
use emicro.Common.{
  ℕ, ◌+◌, ◌^◌, ◌<◌, ◌≡◌, refl, [], ◌++◌, length, take, replicate, length-append, le→leb, ok, ◌>>=◌,
  arith,
}
use emicro.Common.Words.{add32}
use emicro.Common.Maps.{Bytes}
use emicro.Message.Wire.{slice, get_u32, get_byte}
use emicro.Message.Wire.Laws.{
  fixed_bytes, overlay-replicate, advance_lem, put_fixed_lem, read_fixed_lem, slice_lem,
}
use emicro.Message.Response.{
  Response, encode_resp, decode_resp, calculate_header_length, calculate_body_length, sized,
}

abbrev fixed_of : Response → Bytes
fixed_of resp =
    fixed_bytes resp.head_length resp.body_length resp.message_id resp.version resp.compresser
      resp.serializer

abbrev pub layout : Response → Bytes
layout resp = fixed_of resp ++ (resp.error ++ resp.payload)

-- The lengths that a response carries are those of its parts, and a uint32 holds their sum.
record IsSized (resp : Response) : Type 0 where
  head : resp.head_length ≡ 15 + length resp.error
  body : resp.body_length ≡ length resp.payload
  fits : 15 + length resp.error + length resp.payload < 2 ^ 32

encode_resp-sized : (resp : Response) → IsSized resp → encode_resp resp ≡ ok (layout resp)
unfolding encode_resp
encode_resp-sized resp h =
    rw
      (put_fixed_lem resp.head_length resp.body_length resp.message_id resp.version resp.compresser
        resp.serializer (add32 resp.head_length resp.body_length) room (omega arith))
      (rw (le→leb 15 (length (fixed_of resp ++ replicate room 0)) (omega arith)) (
        rw (overlay-replicate resp.error room (length resp.payload) refl) (
          rw (advance_lem resp.error (replicate (length resp.payload) 0) (take 15 (fixed_of resp)))
            (rw (overlay-replicate resp.payload (length resp.payload) 0 (omega arith))
              (simp (append_assoc, append-nil))))))
  where
    room : ℕ
    room = length resp.error + length resp.payload

decode_resp-layout :
    (resp : Response)
    → IsSized resp
    → resp.message_id < 2 ^ 32
    → decode_resp (layout resp) ≡ ok resp
unfolding decode_resp
decode_resp-layout resp sizes id =
    rw (fixed.0, fixed.1, fixed.2, fixed.3, fixed.4, fixed.5)
      (rw (slice_lem (fixed_of resp) resp.error resp.payload 15 resp.head_length refl sizes.head)
        (rw payload_part))
  where
    rest : Bytes
    rest = resp.error ++ resp.payload

    fixed :
        (get_u32 0 (layout resp) ≡ ok resp.head_length)
        × (get_u32 4 (layout resp) ≡ ok resp.body_length)
        × (get_u32 8 (layout resp) ≡ ok resp.message_id)
        × (get_byte 12 (layout resp) ≡ ok resp.version)
        × (get_byte 13 (layout resp) ≡ ok resp.compresser)
        × (get_byte 14 (layout resp) ≡ ok resp.serializer)
    fixed =
        read_fixed_lem resp.head_length resp.body_length resp.message_id resp.version
          resp.compresser resp.serializer rest (omega arith) (omega arith) id

    pre : Bytes
    pre = fixed_of resp ++ resp.error

    payload_part : slice resp.head_length (length (layout resp)) (layout resp) ≡ ok resp.payload
    payload_part = rw (append-nil resp.payload) at (
        slice_lem pre resp.payload [] resp.head_length (length (pre ++ resp.payload))
          (omega (arith, sizes.head)) (length-append pre resp.payload))

-- Whatever bytes its error and its data hold, a response with its lengths calculated comes back
-- from EncodeResp and DecodeResp as it was, where a uint32 holds the two lengths together and
-- the id is a uint32.
pub decode-encode_resp :
    (resp : Response)
    → resp.message_id < 2 ^ 32
    → 15 + length resp.error + length resp.payload < 2 ^ 32
    → (encode_resp (sized resp) >>= decode_resp) ≡ ok (sized resp)
unfolding calculate_header_length calculate_body_length
decode-encode_resp resp id fits =
    rw (encode_resp-sized (sized resp) sizes) (decode_resp-layout (sized resp) sizes id)
  where
    sizes : IsSized (sized resp)
    sizes = record { head = omega arith; body = omega arith; fits = fits }
