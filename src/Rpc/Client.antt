-- ===== src/Rpc/Client.antt =====
-- rpc/client.go and rpc/context.go: the function fn that setFuncField hands to reflect.MakeFunc, and
-- the function that this puts into a service's field.
pub mod Meta
pub mod Trip
pub mod Ids
pub mod Results
use emicro.Common.{
  ℕ, ◌^◌, Bool, true, false, Option, none, some, List, [], ◌∷◌, ltb, ◌==◌, not, if◌then◌else◌,
  length, Outcome, ok, panic, no_fuel, ◌>>=◌,
}
use emicro.Common.Words.{add32}
use emicro.Common.Maps.{Bytes, bytes_of, insert}
use emicro.Message.Request
use emicro.Message.Request.{Request, Pairs, encode_req}
use emicro.Message.Response.{Response, decode_resp}
use emicro.Rpc.Codec.{
  Result, returned, failed, Compressor, Serializer, oneway_error, client_not_all_written,
  read_resp_fail_error, client_conn_deaded,
}

-- What the client reads of a context: the value of the key for one-way calls, and the deadline, as
-- strconv.FormatInt prints its milliseconds.
pub record Context : Type 0 where
  pub one_way : Bool
  pub deadline : Option Bytes

abbrev pub ctx_with_oneway : Context → Context
ctx_with_oneway ctx = record ctx { one_way = true }

abbrev pub is_oneway : Context → Bool
is_oneway ctx = ctx.one_way

-- meta[key] = value, which panics on a nil map.
abbrev pub assign : Bytes → Bytes → Option Pairs → Outcome (Option Pairs)
assign key value none = panic
assign key value (some meta) = ok (some (insert key value meta))

unfoldable pub build_meta : Context → Outcome (Option Pairs)
build_meta ctx =
    let meta = if is_oneway ctx then some ((bytes_of "one-way", bytes_of "true") ∷ []) else none in
    elim ctx.deadline [
      | none ↦ ok meta
      | some deadline ↦ assign (bytes_of "deadline") deadline meta
    ]

-- The request of a call; `message_id` is the counter after the call has added one.
unfoldable pub build_request : Context → ℕ → ℕ → Bytes → Bytes → ℕ → Outcome Request
unfolding build_meta
build_request ctx compresser serializer service_name method_name message_id = do
  meta ← build_meta ctx
  ok (
      Request.sized (record {
        head_length = 0;
        body_length = 0;
        message_id = message_id;
        version = 0;
        compresser = compresser;
        serializer = serializer;
        service_name = service_name;
        method_name = method_name;
        meta = meta;
        payload = [];
      }))

-- Proxy: a request's response, which is not nil, or an error; and the state of the network.
abbrev pub Proxy : Type 0 → Type 0
Proxy W = Context → Request → W → Outcome (Result Response × W)

-- What reflect.MakeFunc does with the results: it panics on the zero Value, which stands for no error in
-- what fn returns.
abbrev pub as_results :
    {V W : Type 0} → (V × Option Bytes) × ℕ × W → Outcome ((V × Option Bytes) × ℕ × W)
as_results ((out, none), message_id, w) = panic
as_results ((out, some e), message_id, w) = ok ((out, some e), message_id, w)

module _ {V : Type 0} (serializer : Serializer V) (compressor : Compressor) where
  -- `out` after the response, and the error: the one of the response, or the one met when its data
  -- are decoded.
  unfoldable pub read_response : Response → V → V × Option Bytes
  read_response resp out =
      let resp_err = if ltb 0 (length resp.error) then some resp.error else none in
      if ltb 0 (length resp.payload)
      then (elim (compressor.un_compress resp.payload) [
        | failed e ↦ (out, some e)
        | returned bytes ↦ elim (serializer.decode bytes out) [
          | failed e ↦ (out, some e)
          | returned v ↦ (v, resp_err)
        ]
      ])
      else (out, resp_err)

  -- From the encoded argument on: the request is built and sent, and its response is read.
  unfoldable pub send :
      {W : Type 0}
      → Bytes
      → Bytes
      → Proxy W
      → Context
      → V
      → ℕ
      → W
      → Outcome ((V × Option Bytes) × ℕ × W)
  unfolding build_request read_response
  send service_name method_name proxy ctx out message_id w = do
    let next = add32 message_id 1
    req ← build_request ctx compressor.code serializer.code service_name method_name next
    (result, w') ← proxy ctx req w
    elim result [
      | failed e ↦ ok ((out, some e), next, w')
      | returned resp ↦ ok (read_response resp out, next, w')
    ]

  -- fn: `arg` is args[1], `out` the zero value for the result, and the counter
  -- of message ids and the network are passed on.
  unfoldable pub call :
      {W : Type 0}
      → Bytes
      → Bytes
      → Proxy W
      → Context
      → V
      → V
      → ℕ
      → W
      → Outcome ((V × Option Bytes) × ℕ × W)
  unfolding send
  call service_name method_name proxy ctx arg out message_id w = elim (serializer.encode arg) [
    | failed e ↦ ok ((out, some e), message_id, w)
    | returned req_data ↦ elim (compressor.compress req_data) [
      | failed e ↦ ok ((out, some e), message_id, w)
      | returned req_packed ↦ send service_name method_name proxy ctx out message_id w
    ]
  ]

  -- The function of a field.
  unfoldable pub field_call :
      {W : Type 0}
      → Bytes
      → Bytes
      → Proxy W
      → Context
      → V
      → V
      → ℕ
      → W
      → Outcome ((V × Option Bytes) × ℕ × W)
  field_call service_name method_name proxy ctx arg out message_id w =
      call service_name method_name proxy ctx arg out message_id w >>= as_results
