-- ===== src/Message/Request.antt =====
-- rpc/message/request.go: requests, EncodeReq, DecodeReq and the two length calculations.
pub mod Layout
pub mod Roundtrip
pub mod Errors
use emicro.Common.{
  ℕ, zero, suc, ◌+◌, ◌%◌, ◌^◌, ◌||◌, Bool, true, false, Option, none, some, List, [], ◌∷◌, ◌++◌,
  ltb, leb, ◌==◌, if◌then◌else◌, length, take, drop, replicate, Outcome, ok, no_fuel, must, ◌>>=◌,
  ◌>>◌,
}
use emicro.Common.Words.{add32, u32_mod}
use emicro.Common.Maps.{Bytes, insert}
use emicro.Message.Wire.{
  splitter, pair_splitter, slice, get_u32, get_byte, index_byte, cut, Cursor, copy_in, write_field,
  put_fixed,
}

abbrev pub Pairs : Type 0
Pairs = List (Bytes × Bytes)

-- `meta` is `none` for a nil map. A nil `Data` and an empty one are both the empty `payload`.
pub record Request : Type 0 where
  pub head_length : ℕ
  pub body_length : ℕ
  pub message_id : ℕ
  pub version : ℕ
  pub compresser : ℕ
  pub serializer : ℕ
  pub service_name : Bytes
  pub method_name : Bytes
  pub meta : Option Pairs
  pub payload : Bytes

-- What `range` visits: nothing for a nil map.
abbrev pub entries : Option Pairs → Pairs
entries none = []
entries (some m) = m

-- for key, value := range req.Meta { … } of EncodeReq
unfoldable pub write_pairs : Pairs → Cursor → Outcome Cursor
write_pairs [] c = ok c
write_pairs ((key, value) ∷ rest) c = do
  c₁ ← write_field key pair_splitter c
  c₂ ← write_field value splitter c₁
  write_pairs rest c₂

unfoldable pub encode_req : Request → Outcome Bytes
encode_req req = do
  bs ←
      put_fixed req.head_length req.body_length req.message_id req.version req.compresser
        req.serializer (replicate (add32 req.head_length req.body_length) 0)
  must (leb 15 (length bs))
  c₁ ← write_field req.service_name splitter (record { done = take 15 bs; cur = drop 15 bs })
  c₂ ← write_field req.method_name splitter c₁
  c₃ ← write_pairs (entries req.meta) c₂
  let c₄ = copy_in req.payload c₃
  ok (c₄.done ++ c₄.cur)

-- for index != -1 { … } of DecodeReq, on fuel
unfoldable pub decode_pairs : ℕ → Bytes → Pairs → Outcome Pairs
decode_pairs zero header meta = no_fuel
decode_pairs (suc fuel) header meta = elim (index_byte header splitter) [
  | none ↦ ok meta
  | some index ↦ do
    (key, value) ← cut (take index header) pair_splitter
    decode_pairs fuel (drop (suc index) header) (insert key value meta)
]

abbrev found : Option ℕ → Bool
found none = false
found (some _) = true

-- The map that is made of the rest of the header; [] where none is made. Each round of the loop takes at
-- least one byte off, so the header's length is fuel enough.
unfoldable pub decode_meta : Bytes → Outcome Pairs
decode_meta header =
    let decoded = decode_pairs (suc (length header)) header [] in
    if ltb 0 (length header) || found (index_byte header splitter) then decoded else ok []

-- The map of the meta data is a variable of its own, which ends with its block: the field Meta of the
-- request that is returned is never set.
unfoldable pub decode_req : Bytes → Outcome Request
decode_req bs = do
  head_length ← get_u32 0 bs
  body_length ← get_u32 4 bs
  message_id ← get_u32 8 bs
  version ← get_byte 12 bs
  compresser ← get_byte 13 bs
  serializer ← get_byte 14 bs
  header ← slice 15 head_length bs
  (service_name, header₁) ← cut header splitter
  (method_name, header₂) ← cut header₁ splitter
  _ ← decode_meta header₂
  payload ← if body_length == 0 then ok [] else slice head_length (length bs) bs
  ok (record {
    head_length = head_length;
    body_length = body_length;
    message_id = message_id;
    version = version;
    compresser = compresser;
    serializer = serializer;
    service_name = service_name;
    method_name = method_name;
    meta = none;
    payload = payload;
  })

-- for key, value := range req.Meta { … } of CalculateHeaderLength
unfoldable pub add_pairs : ℕ → Pairs → ℕ
add_pairs head_length [] = head_length
add_pairs head_length ((key, value) ∷ rest) =
    add_pairs (head_length + length key + 1 + length value + 1) rest

unfoldable pub calculate_header_length : Request → Request
calculate_header_length req = record req {
  head_length =
      add_pairs (15 + length req.service_name + 1 + length req.method_name + 1) (entries req.meta)
      % u32_mod;
}

unfoldable pub calculate_body_length : Request → Request
calculate_body_length req = record req { body_length = length req.payload % u32_mod }

-- The two calculations, in the order in which the client makes them before it sends.
abbrev pub sized : Request → Request
sized req = calculate_body_length (calculate_header_length req)
