-- ===== src/Rpc/Server/Replies.antt =====
-- What Invoke returns, where the codes of the request are registered and the methods return.
use emicro.Common.{
  ℕ, ◌≡◌, ◌⊎◌, inl, inr, refl, Option, some, Option-cases, [], get_elem?, Returns, Returns-ok,
}
use emicro.Common.Maps.{Bytes, lookup}
use emicro.Message.Request.{Request}
use emicro.Message.Response.{Response}
use emicro.Rpc.Codec.{
  Result-cases, Compressor, Serializer, invalid_service_name, not_found_service_method,
}
use emicro.Rpc.Stub.{
  Results, no_results, one, two, nil, err, no_error, Method, Stub, with_error, answer, finish,
  call_method, stub_invoke,
}
use emicro.Rpc.Server.{Server, invoke}

-- The response takes the request's id and codes, and has no data beside an error.
pub record Replies (req : Request) (resp : Response) : Type 0 where
  pub id : resp.message_id ≡ req.message_id
  pub version : resp.version ≡ req.version
  pub compresser : resp.compresser ≡ req.compresser
  pub serializer : resp.serializer ≡ req.serializer
  pub one_of : (resp.error ≡ []) ⊎ (resp.payload ≡ [])

-- Results that Invoke reads with no panic: a value, alone, or with an error or nil.
abbrev pub IsUsual : {V : Type 0} → Results V → Type 0
IsUsual no_results = ⊥
IsUsual (one v) = Unit
IsUsual (two v nil) = Unit
IsUsual (two v (err e)) = Unit
IsUsual (two v no_error) = ⊥

-- A method with a parameter for the request, that returns usual results.
pub record Callable {V S : Type 0} (method : Method V S) : Type 0 where
  pub input : V
  pub has_input : method.input ≡ some input
  pub usual :
      (deadline : Option ℕ) (v : V) (s : S) → Returns (λ r. IsUsual r.0) (method.call deadline v s)

-- The codes of the request are registered, and its method, where there is one, can be called.
pub record Ready {V S : Type 0} (srv : Server V S) (req : Request) : Type 0 where
  pub serializer : Serializer V
  pub compresser : Compressor
  pub has_serializer : get_elem? srv.serializers req.serializer ≡ some (some serializer)
  pub has_compresser : get_elem? srv.compressors req.compresser ≡ some (some compresser)
  pub methods :
      (stub : Stub V S) (method : Method V S)
      → lookup req.service_name srv.services ≡ some stub
      → lookup req.method_name stub.methods ≡ some method
      → Callable method

with_error-Replies : (req : Request) (text : Bytes) → Replies req (with_error req text)
with_error-Replies req text = record {
  id = refl;
  version = refl;
  compresser = refl;
  serializer = refl;
  one_of = inr refl;
}

module _ {V : Type 0} where
  answer-Replies :
      (req : Request) (serializer : Serializer V) (compresser : Compressor) (v : V)
      → Replies req (answer req serializer compresser v)
  unfolding answer
  answer-Replies req serializer compresser v = elim (Result-cases (serializer.encode v)) [
    | inl (e, h) ↦ rw (h, answer) (with_error-Replies req e)
    | inr (bs, h) ↦ elim (Result-cases (compresser.compress bs)) [
      | inl (e, h') ↦ rw (h, h', answer) (with_error-Replies req e)
      | inr (resp_data, h') ↦
          rw (h, h', answer)
            (record {
              id = refl;
              version = refl;
              compresser = refl;
              serializer = refl;
              one_of = inl refl;
            })
    ]
  ]

  finish-Replies :
      (req : Request) (serializer : Serializer V) (compresser : Compressor) (res : Results V)
      → IsUsual res
      → Returns (λ resp. Replies req resp) (finish req serializer compresser res)
  unfolding finish
  finish-Replies req serializer compresser no_results h = absurd h
  finish-Replies req serializer compresser (one v) h = answer-Replies req serializer compresser v
  finish-Replies req serializer compresser (two v nil) h =
      answer-Replies req serializer compresser v
  finish-Replies req serializer compresser (two v (err e)) h = with_error-Replies req e
  finish-Replies req serializer compresser (two v no_error) h = absurd h

module _ {V S : Type 0} where
  call_method-Replies :
      (req : Request) (serializer : Serializer V) (compresser : Compressor) (method : Method V S)
      (callable : Callable method) (deadline : Option ℕ) (req_data : Bytes) (s : S)
      → Returns
          (λ r. Replies req r.0)
          (call_method req serializer compresser method callable.input deadline req_data s)
  unfolding call_method
  call_method-Replies req serializer compresser method callable deadline req_data s =
      elim (Result-cases (serializer.decode req_data callable.input)) [
        | inl (e, h) ↦ rw (h, call_method) (with_error-Replies req e)
        | inr (arg, h) ↦
            let (r, called, usual) =
              Returns-ok (λ r. IsUsual r.0) (method.call deadline arg s)
                (callable.usual deadline arg s) in
            let (resp, done, replies) =
              Returns-ok (λ resp. Replies req resp) (finish req serializer compresser r.0)
                (finish-Replies req serializer compresser r.0 usual) in
            rw (h, called, done, call_method) replies
      ]

  -- Where the codes of the request are registered and the services' methods take a request and
  -- return usual results, Invoke returns, whatever the data are: a response with the request's id
  -- and codes, and with no data beside an error.
  pub invoke-Returns :
      (srv : Server V S) (deadline : Option ℕ) (req : Request) (s : S)
      → Ready srv req
      → Returns (λ r. Replies req r.0) (invoke srv deadline req s)
  unfolding invoke stub_invoke
  invoke-Returns srv deadline req s ready =
      elim (Option-cases (lookup req.service_name srv.services)) [
        | inl no_service ↦ rw (no_service, invoke) (with_error-Replies req invalid_service_name)
        | inr (stub, at) ↦ elim (Option-cases (lookup req.method_name stub.methods)) [
          | inl no_method ↦
              rw (at, no_method, invoke, stub_invoke)
                (with_error-Replies req (not_found_service_method req.method_name))
          | inr (method, at') ↦
              let callable = ready.methods stub method at at' in
              elim (Result-cases (ready.compresser.un_compress req.payload)) [
                | inl (e, h) ↦
                    rw (at, at', callable.has_input, ready.has_compresser, h, invoke, stub_invoke)
                      (with_error-Replies req e)
                | inr (req_data, h) ↦
                    rw
                      (
                        at, at', callable.has_input, ready.has_compresser, h, ready.has_serializer,
                        invoke, stub_invoke,
                      )
                      (call_method-Replies req ready.serializer ready.compresser method callable
                        deadline req_data s)
              ]
        ]
      ]
