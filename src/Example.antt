-- ===== src/Example.antt =====
-- example/rpc: the server and the client of the example. The values that the two exchange are those
-- of its dto.go and of the generated messages; a nil pointer is `none`.
pub mod Panics
pub mod Groups
mod Tests
use emicro.Common.{
  ℕ, ◌+◌, Bool, true, false, Option, none, some, List, [], ◌∷◌, if◌then◌else◌, Outcome, ok, panic,
  ◌>>=◌, ◌>>◌,
}
use emicro.Common.Maps.{Bytes, bytes_of, bytes_eq}
use emicro.Rpc.Codec.{Result, returned, failed, Serializer, do_nothing}
use emicro.Rpc.Stub.{Method, two, nil, err}
use emicro.Rpc.Server.{Service, Server, new_server, must_register, register_serializer}
use emicro.Rpc.Client.{Context, Proxy, ctx_with_oneway, field_call}
use emicro.Rpc.Fields.{Field, RpcClient, Shape, pointer_to_struct, new_client, init_service}

pub record User : Type 0 where
  pub id : ℕ
  pub name : Bytes
  pub avatar : Bytes
  pub email : Bytes
  pub password : Bytes
  pub create_time : ℕ

pub data Value : Type 0 where
  find_by_user_id_req : (id : ℕ) → Value
  find_by_user_id_resp : Option User → Value
  nil_resp : Value
  get_by_id_req : (id : ℕ) → Value
  get_by_id_resp : (user_id : Option ℕ) → Value

-- The services of the server; `second` is time.Now().Second().
abbrev pub tom : ℕ → User
tom second = record {
  id = 12;
  name = bytes_of "Tom";
  avatar = bytes_of "http://my-avatar";
  email = bytes_of "xxx@xxx.com";
  password = bytes_of "123456";
  create_time = second;
}

abbrev pub get_by_id : {S : Type 0} → ℕ → Method Value S
get_by_id second = record {
  input = some (find_by_user_id_req 0);
  call = λ deadline v s. ok (two (find_by_user_id_resp (some (tom second))) nil, s);
}

abbrev pub always_error : {S : Type 0} → Method Value S
always_error = record {
  input = some (find_by_user_id_req 0);
  call = λ deadline v s. ok (two nil_resp (err (bytes_of "this is an error")), s);
}

abbrev pub get_by_id_proto : {S : Type 0} → Method Value S
get_by_id_proto = record {
  input = some (get_by_id_req 0);
  call = λ deadline v s. ok (two (get_by_id_resp (some 123)) nil, s);
}

abbrev pub user_service : {S : Type 0} → ℕ → Service Value S
user_service second = record {
  name = bytes_of "user";
  methods = (bytes_of "AlwaysError", always_error) ∷ (bytes_of "GetById", get_by_id second) ∷ [];
}

abbrev pub user_service_proto : {S : Type 0} → Service Value S
user_service_proto = record {
  name = bytes_of "user-service-proto";
  methods = (bytes_of "GetById", get_by_id_proto) ∷ [];
}

-- main of the server, up to Start.
unfoldable pub server_main :
    {S : Type 0} → Serializer Value → Serializer Value → ℕ → Outcome (Server Value S)
server_main json proto second = do
  svr ← must_register (user_service second) (new_server json)
  svr' ← must_register user_service_proto svr
  ok (register_serializer proto (register_serializer json svr'))

-- The services of the client: a function of a field is known by the method that it calls.
abbrev pub settable : Bytes → Field Bytes
settable name = record { name = name; can_set = true; is_func = true; value = none }

abbrev pub user_fields : Shape Bytes
user_fields =
    pointer_to_struct (settable (bytes_of "GetById") ∷ settable (bytes_of "AlwaysError") ∷ [])

abbrev pub proto_fields : Shape Bytes
proto_fields = pointer_to_struct (settable (bytes_of "GetById") ∷ [])

-- The fields after an InitService whose error is not looked at.
abbrev pub fields_after : Result (List (Field Bytes)) → Shape Bytes → List (Field Bytes)
fields_after (returned fields) srv = fields
fields_after (failed e) (pointer_to_struct fields) = fields
fields_after (failed e) _ = []

-- A field's function; a nil function panics when it is called.
abbrev pub function_of : Bytes → List (Field Bytes) → Outcome Bytes
function_of name [] = panic
function_of name (f ∷ fs) =
    let rest = function_of name fs in
    if bytes_eq f.name name
    then (elim (f.value) [ none ↦ panic | some method ↦ ok method ])
    else rest

-- if err != nil { panic(err) }
abbrev pub or_panic {ℓ} : {A : Type ℓ} → Result A → Outcome A
or_panic (returned a) = ok a
or_panic (failed e) = panic

abbrev pub panic_on : Option Bytes → Outcome (Unit {0})
panic_on none = ok tt
panic_on (some e) = panic

-- err.Error(), which panics on nil.
abbrev pub error_text : Option Bytes → Outcome Bytes
error_text none = panic
error_text (some e) = ok e

-- What is printed.
pub data Line : Type 0 where
  received : Value → Line
  received_error : Bytes → Line

abbrev pub background : Context
background = record { one_way = false; deadline = none }

module _ {W : Type 0} (json : Serializer Value) (proxy : Proxy W) where
  -- A call of a field's function of the service with a name.
  abbrev pub call_field :
      Bytes → Bytes → Context → Value → Value → ℕ → W → Outcome ((Value × Option Bytes) × ℕ × W)
  call_field service_name method ctx arg out message_id w =
      field_call json do_nothing service_name method proxy ctx arg out message_id w

  -- main of the client, on the pool of connections or the error that NewClient gets for it; the counter
  -- of message ids starts at 0. `make_func` of InitService keeps the method's name.
  unfoldable pub client_main : {C : Type 0} → Result C → W → Outcome (List Line × W)
  client_main pool w = do
    client ← or_panic (new_client json pool [])
    inited ← init_service (λ c method. method) client user_fields
    us ← or_panic inited
    get_by_id ← function_of (bytes_of "GetById") us
    (first, n, w) ←
        call_field (bytes_of "user") get_by_id background (find_by_user_id_req 12)
          (find_by_user_id_resp none) 0 w
    panic_on first.1
    (_, n, w) ←
        call_field (bytes_of "user") get_by_id (ctx_with_oneway background) (find_by_user_id_req 12)
          (find_by_user_id_resp none) n w
    always_error ← function_of (bytes_of "AlwaysError") us
    (failing, n, w) ←
        call_field (bytes_of "user") always_error background (find_by_user_id_req 12)
          (find_by_user_id_resp none) n w
    text ← error_text failing.1
    inited ← init_service (λ c method. method) client proto_fields
    get_by_id ← function_of (bytes_of "GetById") (fields_after inited proto_fields)
    (proto, n, w) ←
        call_field (bytes_of "user-service-proto") get_by_id background (get_by_id_req 0)
          (get_by_id_resp none) n w
    panic_on proto.1
    ok (received first.0 ∷ received_error text ∷ received proto.0 ∷ [], w)
