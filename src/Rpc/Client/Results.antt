-- ===== src/Rpc/Client/Results.antt =====
-- What a function that setFuncField made returns.
use emicro.Common.{
  ℕ, ◌≡◌, refl, ◌⊎◌, inl, inr, Option, none, some, Outcome, ok, panic, no_fuel, ◌>>=◌, Ends,
  Ends-ok, Ends-panic, Ends-bind,
}
use emicro.Common.Words.{add32}
use emicro.Common.Maps.{Bytes}
use emicro.Message.Request.{Request, Pairs}
use emicro.Message.Response.{Response}
use emicro.Rpc.Codec.{Result, returned, failed, Result-cases, Compressor, Serializer}
use emicro.Rpc.Client.{
  Context, Proxy, assign, build_meta, build_request, read_response, send, call, as_results,
  field_call,
}

Ends-assign : (key value : Bytes) (meta : Option Pairs) → Ends (assign key value meta)
Ends-assign key value none = Ends-panic
Ends-assign key value (some meta) = Ends-ok _

Ends-build_meta : (ctx : Context) → Ends (build_meta ctx)
unfolding build_meta
Ends-build_meta ctx = go ctx.deadline
  where
    go :
        (deadline : Option Bytes)
        → Ends (build_meta (record { one_way = ctx.one_way; deadline = deadline }))
    go none = Ends-ok _
    go (some d) = Ends-assign _ _ _

module _ {V W : Type 0} (serializer : Serializer V) (compressor : Compressor) where
  Ends-send :
      (service_name method_name : Bytes) (proxy : Proxy W) (ctx : Context) (out : V)
      (message_id : ℕ) (w : W)
      → ((req : Request) → Ends (proxy ctx req w))
      → Ends (send serializer compressor service_name method_name proxy ctx out message_id w)
  unfolding send build_request
  Ends-send service_name method_name proxy ctx out message_id w ends =
      Ends-bind _ _ (Ends-bind (build_meta ctx) _ (Ends-build_meta ctx) (λ meta. Ends-ok _))
        (λ req. Ends-bind _ _ (ends req) answered)
    where
      answered :
          (r : Result Response × W)
          → Ends {A = (V × Option Bytes) × ℕ × W} (elim (r.0) [
            | failed e ↦ ok ((out, some e), add32 message_id 1, r.1)
            | returned resp ↦
                ok (read_response serializer compressor resp out, add32 message_id 1, r.1)
          ])
      answered (failed e, w') = Ends-ok _
      answered (returned resp, w') = Ends-ok _

  -- A call ends where its proxy does.
  Ends-field_call :
      (service_name method_name : Bytes) (proxy : Proxy W) (ctx : Context) (arg out : V)
      (message_id : ℕ) (w : W)
      → ((req : Request) → Ends (proxy ctx req w))
      → Ends
          (field_call serializer compressor service_name method_name proxy ctx arg out message_id w)
  unfolding field_call call
  Ends-field_call service_name method_name proxy ctx arg out message_id w ends =
      Ends-bind _ _ ended made
    where
      made : (r : (V × Option Bytes) × ℕ × W) → Ends (as_results r)
      made ((out, none), n, w) = Ends-panic
      made ((out, some e), n, w) = Ends-ok _

      ended :
          Ends (call serializer compressor service_name method_name proxy ctx arg out message_id w)
      ended = elim (Result-cases (serializer.encode arg)) [
        | inl (e, failing) ↦ rw (failing, call) (Ends-ok _)
        | inr (bs, encoded) ↦ elim (Result-cases (compressor.compress bs)) [
          | inl (e, failing) ↦ rw (encoded, failing, call) (Ends-ok _)
          | inr (bs', packed) ↦
              rw (encoded, packed, call)
                (Ends-send service_name method_name proxy ctx out message_id w ends)
        ]
      ]

  -- A call that ends panics or returns an error.
  pub field_call-cases :
      (service_name method_name : Bytes) (proxy : Proxy W) (ctx : Context) (arg out : V)
      (message_id : ℕ) (w : W)
      → ((req : Request) → Ends (proxy ctx req w))
      → let done =
          field_call serializer compressor service_name method_name proxy ctx arg out message_id
            w in
        (done ≡ panic)
        ⊎ ((out' : V) × (e : Bytes) × (next : ℕ) × (w' : W) × (done
              ≡ ok ((out', some e), next, w')))
  unfolding field_call
  field_call-cases service_name method_name proxy ctx arg out message_id w ends =
      results (call serializer compressor service_name method_name proxy ctx arg out message_id w)
        (Ends-field_call service_name method_name proxy ctx arg out message_id w ends)
    where
      results :
          (m : Outcome ((V × Option Bytes) × ℕ × W))
          → Ends (m >>= as_results)
          → ((m >>= as_results) ≡ panic)
            ⊎ ((out' : V) × (e : Bytes) × (next : ℕ) × (w' : W) × ((m >>= as_results)
                  ≡ ok ((out', some e), next, w')))
      results (ok ((out', none), next, w')) h = inl refl
      results (ok ((out', some e), next, w')) h = inr (out', e, next, w', refl)
      results panic h = inl refl
      results no_fuel h = absurd (h.ends refl)
