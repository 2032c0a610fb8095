-- ===== src/Internal/Xtime.antt =====
-- internal/utils/xtime/xtime.go, over package time: what it gives is an argument. Now, the time since
-- the start, is an argument of the balancers that call it.
use emicro.Common.{Outcome, ok, panic}
use emicro.Common.Maps.{Bytes, bytes_of}
use emicro.Rpc.Codec.{Result, returned, failed}

-- Duration, on what time.ParseDuration gives.
abbrev pub duration : {D : Type 0} → Result D → Outcome D
duration (returned dur) = ok dur
duration (failed err) = panic

abbrev pub ts : Bytes
ts = bytes_of "2006-01-02 15:04:05"

-- Format, by time.Time's own.
abbrev pub format : {T : Type 0} → (T → Bytes → Bytes) → Bytes → T → Bytes
format time_format layout t = time_format t layout

-- ParseInLocation, on the value of TZ, with time.LoadLocation and time.ParseInLocation.
abbrev pub parse_in_location :
    {T L : Type 0}
    → (Bytes → Result L)
    → (Bytes → Bytes → L → Result T)
    → Bytes
    → Bytes
    → Bytes
    → Result T
parse_in_location load parse tz layout value = elim (load tz) [
  | failed err ↦ failed err
  | returned loc ↦ parse layout value loc
]
