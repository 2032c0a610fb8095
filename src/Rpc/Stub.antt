-- ===== src/Rpc/Stub.antt =====
-- The reflection stub of rpc/server.go: a service's method called with decoded data, and its results
-- encoded into the response.
use emicro.Common.{ℕ, Option, none, some, List, [], get_elem?, Outcome, ok, panic, ◌>>=◌}
use emicro.Common.Maps.{Bytes, lookup}
use emicro.Message.Request.{Request}
use emicro.Message.Response.{Response}
use emicro.Rpc.Codec.{returned, failed, Compressor, Serializer, not_found_service_method}

-- The second result of a method: a nil interface, an error, or a value that is no error.
pub data Second : Type 0 where
  nil : Second
  err : Bytes → Second
  no_error : Second

-- What method.Call returns.
pub data Results (V : Type 0) : Type 0 where
  no_results : Results V
  one : V → Results V
  two : V → Second → Results V

-- A method of a service: the zero value that its second parameter points to, `none` where it has
-- no such parameter and reflection panics; and its effect on the state `S` of the services, under
-- the deadline of the context.
pub record Method (V S : Type 0) : Type 0 where
  pub input : Option V
  pub call : Option ℕ → V → S → Outcome (Results V × S)

-- The stub's tables of serializers and compressors are the server's own slices, so they are kept
-- in the server only.
pub record Stub (V S : Type 0) : Type 0 where
  pub methods : List (Bytes × Method V S)

-- The fields of the response that are the request's.
abbrev pub reply : Request → Response
reply req = record {
  head_length = 0;
  body_length = 0;
  message_id = req.message_id;
  version = req.version;
  compresser = req.compresser;
  serializer = req.serializer;
  error = [];
  payload = [];
}

abbrev pub with_error : Request → Bytes → Response
with_error req text = record (reply req) { error = text }

-- A read of a table of interfaces: out of range, or a method call on a nil interface, it panics.
abbrev pub non_nil : {A : Type 0} → Option (Option A) → Outcome A
non_nil (some (some a)) = ok a
non_nil _ = panic

module _ {V : Type 0} where
  -- The end of Invoke: the result is serialized and compressed.
  unfoldable pub answer : Request → Serializer V → Compressor → V → Response
  answer req serializer compresser v = elim (serializer.encode v) [
    | failed e ↦ with_error req e
    | returned bs ↦ elim (compresser.compress bs) [
      | failed e ↦ with_error req e
      | returned resp_data ↦ record (reply req) { payload = resp_data }
    ]
  ]

  -- What Invoke makes of the results of the call.
  unfoldable pub finish : Request → Serializer V → Compressor → Results V → Outcome Response
  unfolding answer
  finish req serializer compresser no_results = panic
  finish req serializer compresser (one v) = ok (answer req serializer compresser v)
  finish req serializer compresser (two v nil) = ok (answer req serializer compresser v)
  finish req serializer compresser (two v (err e)) = ok (with_error req e)
  finish req serializer compresser (two v no_error) = panic

module _ {V S : Type 0} where
  -- From the decompressed data on: decode, call, answer.
  unfoldable pub call_method :
      Request
      → Serializer V
      → Compressor
      → Method V S
      → V
      → Option ℕ
      → Bytes
      → S
      → Outcome (Response × S)
  unfolding finish
  call_method req serializer compresser method input deadline req_data s =
      elim (serializer.decode req_data input) [
        | failed e ↦ ok (with_error req e, s)
        | returned arg ↦ do
          (res, s') ← method.call deadline arg s
          resp ← finish req serializer compresser res
          ok (resp, s')
      ]

  unfoldable pub stub_invoke :
      List (Option (Serializer V))
      → List (Option Compressor)
      → Stub V S
      → Option ℕ
      → Request
      → S
      → Outcome (Response × S)
  unfolding call_method
  stub_invoke serializers compressors stub deadline req s =
      elim (lookup req.method_name stub.methods) [
        | none ↦ ok (with_error req (not_found_service_method req.method_name), s)
        | some method ↦ do
          input ← non_nil (some method.input)
          compresser ← non_nil (get_elem? compressors req.compresser)
          elim (compresser.un_compress req.payload) [
            | failed e ↦ ok (with_error req e, s)
            | returned req_data ↦ do
              serializer ← non_nil (get_elem? serializers req.serializer)
              call_method req serializer compresser method input deadline req_data s
          ]
      ]
