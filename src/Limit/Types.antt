-- ===== src/Limit/Types.antt =====
-- ratelimit/types.go and ratelimit/method_limiter.go: interceptors, the two strategies for a request
-- that is over the limit, and the limiter of a single method.
use emicro.Common.{Bool, true, false, [], ◌∷◌, ◌++◌, if◌then◌else◌}
use emicro.Common.Maps.{Bytes, bytes_eq}
use emicro.Rpc.Codec.{Result, failed}

-- A context, known by whether it is marked as limited.
pub record Ctx : Type 0 where
  pub limited : Bool

-- A unary handler of gRPC: requests `Q` to results or errors.
abbrev pub Handler : (Q R : Type 0) → Type 0
Handler Q R = Ctx → Q → Result R

-- `Bytes` is the full name of the method that is called.
abbrev pub RejectStrategy : (Q R : Type 0) → Type 0
RejectStrategy Q R = Ctx → Q → Bytes → Handler Q R → Result R

-- An interceptor, with the state of its limiter.
abbrev pub Interceptor : (S Q R : Type 0) → Type 0
Interceptor S Q R = Ctx → Q → Bytes → Handler Q R → S → Result R × S

module _ {Q R : Type 0} where
  -- The text of the status error; its code is ResourceExhausted.
  abbrev pub default_rejection : RejectStrategy Q R
  default_rejection ctx req full_method handler = failed (
      (232 ∷ 167 ∷ 166 ∷ 229 ∷ 143 ∷ 145 ∷ 233 ∷ 153 ∷ 144 ∷ 230 ∷ 181 ∷ 129 ∷ 32 ∷ [])
      ++ full_method)

  abbrev pub mark_limited_rejection : RejectStrategy Q R
  mark_limited_rejection ctx req full_method handler = handler (record ctx { limited = true }) req

  -- The verdict of a limiter on a request: the handler is called, or the strategy.
  abbrev pub decide : RejectStrategy Q R → Bool → Ctx → Q → Bytes → Handler Q R → Result R
  decide on_reject true ctx req full_method handler = handler ctx req
  decide on_reject false ctx req full_method handler = on_reject ctx req full_method handler

  -- BuildServerInterceptor of a limiter for the method `name`.
  unfoldable pub method_limiter : {S : Type 0} → Bytes → Interceptor S Q R → Interceptor S Q R
  method_limiter name interceptor ctx req full_method handler s =
      if bytes_eq full_method name
      then interceptor ctx req full_method handler s
      else (handler ctx req, s)
