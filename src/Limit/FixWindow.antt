-- ===== src/Limit/FixWindow.antt =====
-- ratelimit/fix_window.go. The int64 values are numbers below 2^63, but for the counter, which is the
-- pattern of its 64 bits: it wraps to the negative ones.
pub mod Steps
pub mod Schedule
use emicro.Common.{
  ℕ, ◌+◌, ◌^◌, Bool, true, false, ◌&&◌, Option, none, some, List, [], ◌∷◌, ltb, ◌==◌, if◌then◌else◌,
}
use emicro.Common.Words.{add64}
use emicro.Common.Maps.{Bytes}
use emicro.Rpc.Codec.{Result}
use emicro.Limit.Types.{Ctx, Handler, RejectStrategy, Interceptor, default_rejection, decide}

pub record FixWindow : Type 0 where
  pub interval : ℕ
  pub max_rate : ℕ
  pub cnt : ℕ
  pub latest_window_start : ℕ

abbrev pub new_fix_window : ℕ → ℕ → FixWindow
new_fix_window interval max_rate = record {
  interval = interval;
  max_rate = max_rate;
  cnt = 0;
  latest_window_start = 0;
}

-- cnt > maxRate, for the 64 bits of cnt
abbrev pub over : ℕ → ℕ → Bool
over cnt max_rate = ltb max_rate cnt && ltb cnt (2 ^ 63)

-- Where a call stands: it has the time; it has loaded the window's start too; it has won the
-- CompareAndSwap; it is at AddInt64; it is decided, and `true` is that the handler runs.
pub data Call : Type 0 where
  begun : ℕ → Call
  loaded : ℕ → ℕ → Call
  won : Call
  counting : Call
  decided : Bool → Call

-- The next atomic operation of a call, with the tests up to the one after it.
unfoldable pub advance : Call → FixWindow → Call × FixWindow
advance (begun current) l = (
  if ltb (l.latest_window_start + l.interval) current
      then loaded current l.latest_window_start
      else counting,
  l,
)
advance (loaded current window_start) l =
    if l.latest_window_start == window_start
    then (won, record l { latest_window_start = current })
    else (counting, l)
advance won l = (counting, record l { cnt = 0 })
advance counting l =
    let cnt = add64 l.cnt 1 in
    (decided (if over cnt l.max_rate then false else true), record l { cnt = cnt })
advance (decided served) l = (decided served, l)

-- A request with no other one between its operations: whether the handler runs, and the limiter.
unfoldable pub allow : FixWindow → ℕ → Bool × FixWindow
allow l current =
    let l' =
      if ltb (l.latest_window_start + l.interval) current
      then record l { latest_window_start = current; cnt = 0 }
      else l in
    let cnt = add64 l'.cnt 1 in
    (if over cnt l'.max_rate then false else true, record l' { cnt = cnt })

-- The interceptor, at a time that is Nanosecond() of the current one: the part below a second.
unfoldable pub intercept : {Q R : Type 0} → RejectStrategy Q R → ℕ → Interceptor FixWindow Q R
unfolding allow
intercept on_reject current ctx req full_method handler l =
    let (served, l') = allow l current in (decide on_reject served ctx req full_method handler, l')
