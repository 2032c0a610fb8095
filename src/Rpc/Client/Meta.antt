-- ===== src/Rpc/Client/Meta.antt =====
-- What the client puts into a request, and what it leaves out.
use emicro.Common.{ℕ, ◌≡◌, ◌≢◌, ◌↔◌, refl, Bool, true, false, Option, none, some, panic}
use emicro.Common.Maps.{Bytes}
use emicro.Rpc.Codec.{returned, Compressor, Serializer}
use emicro.Rpc.Client.{Context, Proxy, build_meta, build_request, call}

-- The request of a call cannot be built, and the call panics, exactly where the context has a
-- deadline and is not one-way: the deadline is then assigned to a nil map.
pub build_request-panic :
    (ctx : Context) (compresser serializer : ℕ) (service_name method_name : Bytes) (message_id : ℕ)
    → (build_request ctx compresser serializer service_name method_name message_id ≡ panic)
      ↔ ((ctx.one_way ≡ false) × (ctx.deadline ≢ none))
unfolding build_request build_meta
build_request-panic ctx compresser serializer service_name method_name message_id =
    cases ctx.one_way ctx.deadline
  where
    cases :
        (one_way : Bool) (deadline : Option Bytes)
        → (build_request
              (record { one_way = one_way; deadline = deadline })
              compresser
              serializer
              service_name
              method_name
              message_id
            ≡ panic)
          ↔ ((one_way ≡ false) × (deadline ≢ none))
    cases true none = (λ e. cc, λ (e, _). cc)
    cases true (some d) = (λ e. cc, λ (e, _). cc)
    cases false none = (λ e. cc, λ (_, n). absurd (n refl))
    cases false (some d) = (λ e. (refl, λ e'. cc), λ _. refl)

module _ {V W : Type 0} (serializer : Serializer V) (compressor : Compressor) where
  -- Two arguments that are both encoded and compressed with no error lead to the same call: what
  -- is sent does not depend on the argument.
  pub call_same :
      (service_name method_name : Bytes) (proxy : Proxy W) (ctx : Context) (arg arg' out : V)
      (message_id : ℕ) (w : W) (data₁ data₂ packed₁ packed₂ : Bytes)
      → serializer.encode arg ≡ returned data₁
      → compressor.compress data₁ ≡ returned packed₁
      → serializer.encode arg' ≡ returned data₂
      → compressor.compress data₂ ≡ returned packed₂
      → call serializer compressor service_name method_name proxy ctx arg out message_id w
        ≡ call serializer compressor service_name method_name proxy ctx arg' out message_id w
  unfolding call
  call_same service_name method_name proxy ctx arg arg' out message_id w data₁ data₂ packed₁ packed₂
        e p e' p' =
      rw (e, p, e', p', call) refl
