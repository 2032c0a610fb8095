-- ===== src/Limit/SlideWindow.antt =====
-- ratelimit/slide_window.go. Times and the interval are in nanoseconds; the mutex is held from the
-- test on the queue to the verdict, so requests follow one another.
pub mod Window
use emicro.Common.{ℕ, ◌+◌, Bool, true, false, List, [], ◌∷◌, ◌++◌, ltb, if◌then◌else◌, length}
use emicro.Common.Maps.{Bytes}
use emicro.Rpc.Codec.{Result}
use emicro.Limit.Types.{Ctx, Handler, RejectStrategy, Interceptor, decide}

pub record SlideWindow : Type 0 where
  pub max_rate : ℕ
  pub queue : List ℕ
  pub interval : ℕ

abbrev pub new_slide_window : ℕ → ℕ → SlideWindow
new_slide_window rate interval = record { max_rate = rate; queue = []; interval = interval }

-- reqTime.Before(current.Add(-l.interval)), with no negative times
abbrev pub expired : ℕ → ℕ → ℕ → Bool
expired interval current req_time = ltb (req_time + interval) current

-- The loop that takes the expired times off the front of the queue.
unfoldable pub purge : ℕ → ℕ → List ℕ → List ℕ
purge interval current [] = []
purge interval current (req_time ∷ queue) =
    let rest = purge interval current queue in
    if expired interval current req_time then rest else req_time ∷ queue

-- Whether the handler runs, and the limiter.
unfoldable pub allow : SlideWindow → ℕ → Bool × SlideWindow
unfolding purge
allow l current =
    let queue = purge l.interval current l.queue in
    if ltb (length l.queue) l.max_rate
    then (true, record l { queue = l.queue ++ current ∷ [] })
    else if ltb l.max_rate (length queue)
    then (false, record l { queue = queue })
    else (true, record l { queue = queue ++ current ∷ [] })

unfoldable pub intercept : {Q R : Type 0} → RejectStrategy Q R → ℕ → Interceptor SlideWindow Q R
unfolding allow
intercept on_reject current ctx req full_method handler l =
    let (served, l') = allow l current in (decide on_reject served ctx req full_method handler, l')
