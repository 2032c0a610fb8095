-- ===== src/Message/Tests.antt =====
-- Runs of rpc/message on concrete messages.
use emicro.Common.{
  ◌<◌, ◌≡◌, ◌≢◌, ◌↔◌, refl, none, some, [], ◌∷◌, length, ok, panic, Ends, Returns, ◌>>=◌, arith,
}
use emicro.Common.Maps.{bytes_of}
use emicro.Message.Wire.{slice, get_u32, get_byte}
use emicro.Message.Request
use emicro.Message.Request.{Request, encode_req, decode_req, write_pairs, decode_pairs, decode_meta}
use emicro.Message.Request.Roundtrip.{IsClean, decode-encode_req}
use emicro.Message.Request.Errors.{encode_req-bounds, decode_req-Ends}
use emicro.Message.Response
use emicro.Message.Response.{Response, encode_resp, decode_resp}
use emicro.Message.Response.Roundtrip.{decode-encode_resp}

abbrev get_by_id : Request
get_by_id = record {
  head_length = 0;
  body_length = 0;
  message_id = 7;
  version = 1;
  compresser = 0;
  serializer = 1;
  service_name = bytes_of "user";
  method_name = bytes_of "Get";
  meta = some ((bytes_of "one-way", bytes_of "true") ∷ (bytes_of "k", bytes_of "a\rb") ∷ []);
  payload = 1 ∷ 10 ∷ 2 ∷ [];
}

get_by_id-IsClean : IsClean get_by_id
get_by_id-IsClean = record {
  service = assumption (refl, tt);
  method = assumption (refl, tt);
  pairs = assumption (refl, tt);
  distinct = assumption (refl, tt);
  id = omega arith;
}

decode-encode_req_example :
    (encode_req (Request.sized get_by_id) >>= decode_req)
    ≡ ok (record (Request.sized get_by_id) { meta = none })
unfolding Request.calculate_header_length Request.calculate_body_length
decode-encode_req_example = decode-encode_req get_by_id get_by_id-IsClean (omega arith)

-- Without the calculations both lengths are 0, and there is no room for a header.
encode_req-bounds_example :
    ((encode_req get_by_id ≡ panic) ↔ (0 < 43))
    × ((encode_req get_by_id ≢ panic) → Returns (λ bs. length bs ≡ 0) (encode_req get_by_id))
encode_req-bounds_example = encode_req-bounds get_by_id

decode_req-Ends_example : Ends (decode_req (1 ∷ 2 ∷ 3 ∷ []))
decode_req-Ends_example = decode_req-Ends (1 ∷ 2 ∷ 3 ∷ [])

abbrev failure : Response
failure = record {
  head_length = 0;
  body_length = 0;
  message_id = 7;
  version = 1;
  compresser = 0;
  serializer = 1;
  error = bytes_of "no\nroom";
  payload = 3 ∷ 4 ∷ [];
}

decode-encode_resp_example :
    (encode_resp (Response.sized failure) >>= decode_resp) ≡ ok (Response.sized failure)
decode-encode_resp_example = decode-encode_resp failure (omega arith) (omega arith)

-- A meta pair with no pair splitter, and a header length below 15: DecodeReq panics.
decode_short_header :
    decode_req (0 ∷ 0 ∷ 0 ∷ 14 ∷ 0 ∷ 0 ∷ 0 ∷ 0 ∷ 0 ∷ 0 ∷ 0 ∷ 1 ∷ 0 ∷ 0 ∷ 0 ∷ 97 ∷ 10 ∷ []) ≡ panic
unfolding decode_req get_u32 get_byte slice
decode_short_header = refl
