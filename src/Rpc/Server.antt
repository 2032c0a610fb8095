-- ===== src/Rpc/Server.antt =====
-- rpc/server.go: the server's tables, its dispatch, and the loop on a connection.
pub mod Replies
pub mod Conn
pub mod Registry
pub mod Transport
use emicro.Common.{
  ℕ, ◌^◌, Bool, true, false, Option, none, some, List, [], ◌∷◌, set, replicate, Outcome, ok, panic,
  no_fuel, ◌>>=◌, ◌>>◌, if◌then◌else◌,
}
use emicro.Common.Maps.{Bytes, bytes_of, bytes_eq, lookup, insert}
use emicro.Message.Request.{Request, entries, decode_req}
use emicro.Message.Response
use emicro.Message.Response.{Response, encode_resp}
use emicro.Rpc.Codec.{Compressor, Serializer, do_nothing, invalid_service_name}
use emicro.Rpc.Stub.{Method, Stub, with_error, stub_invoke}

pub record Service (V S : Type 0) : Type 0 where
  pub name : Bytes
  pub methods : List (Bytes × Method V S)

pub record Server (V S : Type 0) : Type 0 where
  pub services : List (Bytes × Stub V S)
  pub serializers : List (Option (Serializer V))
  pub compressors : List (Option Compressor)

-- req.Meta[key] of a map that can be nil; a missing key gives the empty string.
abbrev pub meta_value : Bytes → Request → Bytes
meta_value key req = elim (lookup key (entries req.meta)) [ none ↦ [] | some value ↦ value ]

abbrev pub is_oneway_request : Request → Bool
is_oneway_request req = bytes_eq (meta_value (bytes_of "one-way") req) (bytes_of "true")

-- Nothing for a one-way request; otherwise the response with its lengths calculated.
unfoldable pub write_back : Request → Response → Outcome (Option Bytes)
write_back req resp =
    if is_oneway_request req
    then ok none
    else encode_resp (Response.sized resp) >>= λ encode. ok (some encode)

-- What ReadMsg returns: the bytes of a message, io.EOF, or another error.
pub data Read : Type 0 where
  message : Bytes → Read
  eof : Read
  read_failed : Read

-- ReadMsg of rpc/tcp/read.go, which is not written yet.
abbrev pub read_msg : Outcome Read
read_msg = panic

abbrev pub also : Option Bytes → List Bytes → List Bytes
also none written = written
also (some bs) written = bs ∷ written

module _ {V S : Type 0} where
  abbrev pub register_serializer : Serializer V → Server V S → Server V S
  register_serializer serializer s = record s {
    serializers = set s.serializers serializer.code (some serializer);
  }

  abbrev pub register_compressor : Compressor → Server V S → Server V S
  register_compressor compressor s = record s {
    compressors = set s.compressors compressor.code (some compressor);
  }

  abbrev pub new_server : Serializer V → Server V S
  new_server json = register_compressor do_nothing (
      register_serializer json (record {
        services = [];
        serializers = replicate 256 none;
        compressors = replicate 256 none;
      }))

  -- methods[methodTyp.Name] = val.Method(i), for each method that reflection finds
  abbrev pub add_methods :
      List (Bytes × Method V S) → List (Bytes × Method V S) → List (Bytes × Method V S)
  add_methods [] methods = methods
  add_methods ((name, method) ∷ rest) methods = add_methods rest (insert name method methods)

  -- The method Name of the interface Service, which has no parameter.
  abbrev pub name_method : Bytes × Method V S
  name_method = (bytes_of "Name", record { input = none; call = λ deadline v s. panic })

  unfoldable pub register_service : Service V S → Server V S → Server V S
  register_service service s = record s {
    services =
        insert service.name (record { methods = add_methods (name_method ∷ service.methods) [] })
          s.services;
  }

  -- MustRegister. The error of RegisterService, on which it would panic, is always nil.
  unfoldable pub must_register : Service V S → Server V S → Outcome (Server V S)
  unfolding register_service
  must_register service s = ok (register_service service s)

  unfoldable pub invoke : Server V S → Option ℕ → Request → S → Outcome (Response × S)
  unfolding stub_invoke
  invoke srv deadline req s = elim (lookup req.service_name srv.services) [
    | none ↦ ok (with_error req invalid_service_name, s)
    | some stub ↦ stub_invoke srv.serializers srv.compressors stub deadline req s
  ]

  -- One round of the loop on a message: what it writes, if anything. `parse_int` is strconv.ParseInt
  -- in base 10 on the deadline's milliseconds.
  unfoldable pub handle_msg :
      (Bytes → Option ℕ) → Server V S → Bytes → S → Outcome (Option Bytes × S)
  unfolding write_back
  handle_msg parse_int srv bs s = do
    req ← decode_req bs
    (resp, s') ← invoke srv (parse_int (meta_value (bytes_of "deadline") req)) req s
    out ← write_back req resp
    ok (out, s')

  -- The loop of handleConn on the outcomes of its calls of ReadMsg, one after the other: what is
  -- written, and the state. A write that fails is only logged. At the end of the list the loop waits.
  unfoldable pub handle_conn :
      (Bytes → Option ℕ) → Server V S → List (Outcome Read) → S → Outcome (List Bytes × S)
  unfolding handle_msg
  handle_conn parse_int srv [] s = ok ([], s)
  handle_conn parse_int srv (ok eof ∷ reads) s = handle_conn parse_int srv reads s
  handle_conn parse_int srv (ok read_failed ∷ reads) s = ok ([], s)
  handle_conn parse_int srv (ok (message bs) ∷ reads) s = do
    (out, s') ← handle_msg parse_int srv bs s
    (written, s'') ← handle_conn parse_int srv reads s'
    ok (also out written, s'')
  handle_conn parse_int srv (panic ∷ reads) s = panic
  handle_conn parse_int srv (no_fuel ∷ reads) s = no_fuel
