-- ===== src/Example/Panics.antt =====
-- example/rpc: how far the client of the example comes.
use emicro.Common.{
  ℕ, ◌≡◌, refl, ◌⊎◌, inl, inr, Option, none, some, Outcome, ok, panic, ◌>>=◌, ◌>>◌, Ends,
}
use emicro.Common.Maps.{Bytes, bytes_of}
use emicro.Message.Request.{Request}
use emicro.Rpc.Codec.{Result, returned, failed, Serializer, do_nothing}
use emicro.Rpc.Client.{Context, Proxy}
use emicro.Rpc.Client.Results.{field_call-cases}
use emicro.Rpc.Fields.{new_client, init_service, set_func_field}
use emicro.Example.{
  Value, find_by_user_id_req, find_by_user_id_resp, background, client_main, call_field, panic_on,
}

-- A run that panics or returns an error does not come past the test for an error.
checked {ℓ} :
    {V W : Type 0} {B : Type ℓ} (m : Outcome ((V × Option Bytes) × ℕ × W))
    (k : (V × Option Bytes) × ℕ × W → Outcome B)
    → (m ≡ panic)
      ⊎ ((out : V) × (e : Bytes) × (next : ℕ) × (w : W) × (m ≡ ok ((out, some e), next, w)))
    → (m >>= λ done. panic_on done.0.1 >> k done) ≡ panic
checked m k (inl e) = rw e refl
checked m k (inr (out, e, next, w, same)) = rw same refl

module _ {W C : Type 0} (json : Serializer Value) (proxy : Proxy W) where
  -- The client of the example always panics, at its first call or before it, whatever the server answers
  -- and the serializer does, on any connection on which a call ends.
  pub client_main-panics :
      (pool : Result C) (w : W)
      → ((ctx : Context) (req : Request) (w : W) → Ends (proxy ctx req w))
      → client_main json proxy pool w ≡ panic
  unfolding client_main new_client init_service set_func_field
  client_main-panics (failed e) w ends = refl
  client_main-panics (returned pool) w ends =
      checked
        (call_field json proxy (bytes_of "user") (bytes_of "GetById") background
          (find_by_user_id_req 12) (find_by_user_id_resp none) 0 w)
        _
        (field_call-cases json do_nothing (bytes_of "user") (bytes_of "GetById") proxy background
          (find_by_user_id_req 12) (find_by_user_id_resp none) 0 w (λ req. ends background req w))
