-- ===== src/Rpc/Server/Transport.antt =====
-- A value's way to a method and back, through compressors and serializers that keep it.
use emicro.Common.{◌⊎◌, inl, inr, ℕ, ◌≡◌, refl, Option, some, get_elem?, ok}
use emicro.Common.Maps.{Bytes, lookup}
use emicro.Message.Request.{Request}
use emicro.Rpc.Codec.{returned, failed, Compressor, Serializer}
use emicro.Rpc.Stub.{two, nil, Method, Stub, reply, answer, finish, call_method, stub_invoke}
use emicro.Rpc.Server.{Server, invoke}

-- The bytes come back.
pub record Carries (compressor : Compressor) (bytes : Bytes) (packed : Bytes) : Type 0 where
  pub packs : compressor.compress bytes ≡ returned packed
  pub unpacks : compressor.un_compress packed ≡ returned bytes

-- The value comes back, in place of the one that Decode is given.
pub record Writes {V : Type 0} (serializer : Serializer V) (v into : V) (bytes : Bytes)
    : Type 0 where
  pub encodes : serializer.encode v ≡ returned bytes
  pub decodes : serializer.decode bytes into ≡ returned v

-- The method of a request, found with its codes.
pub record Calls {V S : Type 0} (srv : Server V S) (req : Request) : Type 0 where
  pub stub : Stub V S
  pub method : Method V S
  pub input : V
  pub serializer : Serializer V
  pub compresser : Compressor
  pub has_stub : lookup req.service_name srv.services ≡ some stub
  pub has_method : lookup req.method_name stub.methods ≡ some method
  pub has_input : method.input ≡ some input
  pub has_serializer : get_elem? srv.serializers req.serializer ≡ some (some serializer)
  pub has_compresser : get_elem? srv.compressors req.compresser ≡ some (some compresser)

module _ {V S : Type 0} where
  -- Where the request's data decode to a value, the method is called with that value, once; when it
  -- returns a result and no error, the response's data are the encoded result, and there is no error.
  pub invoke-transport :
      (srv : Server V S) (deadline : Option ℕ) (req : Request) (s s' : S) (arg res : V)
      (arg_data res_data res_packed : Bytes) (calls : Calls srv req)
      → calls.compresser.un_compress req.payload ≡ returned arg_data
      → calls.serializer.decode arg_data calls.input ≡ returned arg
      → calls.method.call deadline arg s ≡ ok (two res nil, s')
      → calls.serializer.encode res ≡ returned res_data
      → calls.compresser.compress res_data ≡ returned res_packed
      → invoke srv deadline req s ≡ ok (record (reply req) { payload = res_packed }, s')
  unfolding invoke stub_invoke call_method finish answer
  invoke-transport srv deadline req s s' arg res arg_data res_data res_packed calls unpacked decoded
        called encoded packed =
      rw
        (
          calls.has_stub, calls.has_method, calls.has_input, calls.has_compresser, unpacked,
          calls.has_serializer, decoded, called, encoded, packed, invoke, stub_invoke, call_method,
          finish, answer,
        )
        refl

  -- Data that cannot be decompressed, or not decoded, call no method: the state is as it was, and
  -- the response has the error's text.
  pub invoke_undecoded :
      (srv : Server V S) (deadline : Option ℕ) (req : Request) (s : S) (e : Bytes)
      (calls : Calls srv req)
      → (calls.compresser.un_compress req.payload ≡ failed e)
        ⊎ ((bytes : Bytes) × (calls.compresser.un_compress req.payload ≡ returned bytes)
            × (calls.serializer.decode bytes calls.input ≡ failed e))
      → invoke srv deadline req s ≡ ok (record (reply req) { error = e }, s)
  unfolding invoke stub_invoke call_method
  invoke_undecoded srv deadline req s e calls (inl h) =
      rw
        (
          calls.has_stub, calls.has_method, calls.has_input, calls.has_compresser, h, invoke,
          stub_invoke,
        )
        refl
  invoke_undecoded srv deadline req s e calls (inr (bytes, h, h')) =
      rw
        (
          calls.has_stub, calls.has_method, calls.has_input, calls.has_compresser, h,
          calls.has_serializer, h', invoke, stub_invoke, call_method,
        )
        refl
