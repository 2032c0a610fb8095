-- ===== src/Limit/Redis.antt =====
-- ratelimit/redis_fix_window.go and ratelimit/redis_slide_window.go, with the scripts of ratelimit/lua
-- that they run. The commands of Redis are parameters, on the value of the limiter's key.
pub mod Burst
pub mod Quota
pub mod Window
use emicro.Common.{ℕ, ◌-◌, ◌/◌, ◌^◌, Bool, true, false, Option, none, some, ltb, leb, if◌then◌else◌}
use emicro.Common.Maps.{Bytes}
use emicro.Rpc.Codec.{Result, returned, failed}
use emicro.Limit.Types.{Ctx, Handler, RejectStrategy, Interceptor, decide}

-- GET as a number, SET of 1 with an expiry in milliseconds, and INCR.
pub record Counter (K : Type 0) : Type 0 where
  pub get : K → Option ℕ
  pub set_one : ℕ → K → K
  pub incr : K → K

-- lua/fix_window.lua: whether the request is limited, and the key's value.
unfoldable pub fix_window_script : {K : Type 0} → Counter K → ℕ → ℕ → K → Bool × K
fix_window_script redis interval limit k = elim (redis.get k) [
  | none ↦ if ltb limit 1 then (true, k) else (false, redis.set_one interval k)
  | some val ↦ if ltb val limit then (false, redis.incr k) else (true, k)
]

-- ZREMRANGEBYSCORE up to a score that is `window` before `now`, ZCOUNT of all members, ZADD of a
-- member with a score, and PEXPIRE.
pub record SortedSet (K : Type 0) : Type 0 where
  pub remove_until : (now window : ℕ) → K → K
  pub count : K → ℕ
  pub add : (score member : ℕ) → K → K
  pub expire : ℕ → K → K

-- lua/slide_window.lua
unfoldable pub slide_window_script :
    {K : Type 0} → SortedSet K → (threshold window now : ℕ) → K → Bool × K
slide_window_script redis threshold window now k =
    let moved = redis.remove_until now window k in
    if leb threshold (redis.count moved)
    then (true, moved)
    else (false, redis.expire window (redis.add now now moved))

pub record RedisFixWindow : Type 0 where
  pub max_rate : ℕ
  pub interval : ℕ

-- The interval is in milliseconds here, and a Duration in RedisFixWindow.
pub record RedisSlideWindow : Type 0 where
  pub max_rate : ℕ
  pub interval : ℕ

-- Eval on the script: `fails` is its error, if any, and the script has then not run.
abbrev pub eval : {K : Type 0} → Option Bytes → (K → Bool × K) → K → Result Bool × K
eval (some err) script k = (failed err, k)
eval none script k = let (limited, k') = script k in (returned limited, k')

-- Milliseconds() of a Duration in nanoseconds.
abbrev pub milliseconds : ℕ → ℕ
milliseconds duration = duration / 10 ^ 6

unfoldable pub fix_limit :
    {K : Type 0} → Counter K → RedisFixWindow → Option Bytes → K → Result Bool × K
unfolding fix_window_script
fix_limit redis l fails k =
    eval fails (fix_window_script redis (milliseconds l.interval) l.max_rate) k

-- `now` is the time in milliseconds.
unfoldable pub slide_limit :
    {K : Type 0} → SortedSet K → RedisSlideWindow → ℕ → Option Bytes → K → Result Bool × K
unfolding slide_window_script
slide_limit redis l now fails k = eval fails (slide_window_script redis l.max_rate l.interval now) k

-- What the two interceptors make of the answer.
abbrev pub answered :
    {K Q R : Type 0}
    → RejectStrategy Q R
    → Result Bool × K
    → Ctx
    → Q
    → Bytes
    → Handler Q R
    → Result R × K
answered on_reject (failed err, k) ctx req full_method handler = (failed err, k)
answered on_reject (returned true, k) ctx req full_method handler =
    (on_reject ctx req full_method handler, k)
answered on_reject (returned false, k) ctx req full_method handler = (handler ctx req, k)

unfoldable pub fix_intercept :
    {K Q R : Type 0}
    → RejectStrategy Q R
    → Counter K
    → RedisFixWindow
    → Option Bytes
    → Interceptor K Q R
unfolding fix_limit
fix_intercept on_reject redis l fails ctx req full_method handler k =
    answered on_reject (fix_limit redis l fails k) ctx req full_method handler

unfoldable pub intercept :
    {K Q R : Type 0}
    → RejectStrategy Q R
    → SortedSet K
    → RedisSlideWindow
    → ℕ
    → Option Bytes
    → Interceptor K Q R
unfolding slide_limit
intercept on_reject redis l now fails ctx req full_method handler k =
    answered on_reject (slide_limit redis l now fails k) ctx req full_method handler
