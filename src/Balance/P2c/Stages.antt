-- ===== src/Balance/P2c/Stages.antt =====
-- loadbalance/p2c/picker.go: Done as its atomic operations, one step each, for Dones that run at the
-- same time. The log takes the lock and is one step: of what it touches only the loads it prints can
-- change beside it.
pub mod Alone
pub mod Effect
pub mod Together
use emicro.Common.{ℕ, zero, suc, if◌then◌else◌, Option, List, [], adjust, Outcome, ok, ◌>>=◌}
use emicro.Common.Words.{sub64, lt_signed}
use emicro.Common.Maps.{Bytes}
use emicro.Internal.Codes.{Code}
use emicro.Internal.Xsync.{load_duration, compare_and_swap}
use emicro.Balance.P2c.{
  Floats, Conn, Picker, at_place, elapsed, weight, ewma, success_of, log_stats, log_interval,
}

-- How far a Done has come, with its local variables.
pub data Stage (F : Type 0) : Type 0 where
  begun : (start : ℕ) → Stage F
  counted : (start now : ℕ) (err : Option Code) → Stage F
  timed : (td latency now : ℕ) (err : Option Code) → Stage F
  latency_read : (w : F) (old latency now : ℕ) (err : Option Code) → Stage F
  latency_stored : (w : F) (now : ℕ) (err : Option Code) → Stage F
  success_read : (w : F) (old now : ℕ) (err : Option Code) → Stage F
  success_stored : (now : ℕ) → Stage F
  stamp_read : (now stamp : ℕ) → Stage F
  due : Stage F
  ended : (lines : List (Bytes × (ℕ × ℕ))) → Stage F

abbrev pub on_conn : {R : Type 0} → (Conn → Conn) → ℕ → Picker R → Picker R
on_conn f place p = record p { connections = adjust f place p.connections }

abbrev pub uncount : Conn → Conn
uncount c = record c { inflight = sub64 c.inflight 1 }

abbrev pub set_last : ℕ → Conn → Conn
set_last now c = record c { last = now }

abbrev pub set_latency : ℕ → Conn → Conn
set_latency n c = record c { latency = n }

abbrev pub set_success : ℕ → Conn → Conn
set_success n c = record c { success = n }

module _ {F : Type 0} (floats : Floats F) where
  -- The next atomic operation of a Done of the pick at `place`; `now` and `err` are what the first one
  -- is called with and reads.
  unfoldable pub advance_done :
      {R : Type 0} → ℕ → Option Code → ℕ → Stage F → Picker R → Outcome (Stage F × Picker R)
  advance_done now err place (begun start) p = ok (counted start now err, on_conn uncount place p)
  advance_done _ _ place (counted start now err) p = do
    c ← at_place p.connections place
    let td = elapsed floats now c.last
    ok (timed td (elapsed floats now start) now err, on_conn (set_last now) place p)
  advance_done _ _ place (timed td latency now err) p = do
    c ← at_place p.connections place
    ok (latency_read (weight floats c.latency td) c.latency latency now err, p)
  advance_done _ _ place (latency_read w old latency now err) p =
      ok (latency_stored w now err, on_conn (set_latency (ewma floats w old latency)) place p)
  advance_done _ _ place (latency_stored w now err) p = do
    c ← at_place p.connections place
    ok (success_read w c.success now err, p)
  advance_done _ _ place (success_read w old now err) p = ok (
    success_stored now,
    on_conn (set_success (ewma floats w old (success_of floats err))) place p,
  )
  advance_done _ _ place (success_stored now) p =
      let stamp = load_duration p.stamp in
      if lt_signed (sub64 now stamp) log_interval
      then ok (ended [], p)
      else ok (stamp_read now stamp, p)
  advance_done _ _ place (stamp_read now stamp) p =
      let swapped = compare_and_swap stamp now p.stamp in
      ok (if swapped.0 then due else ended [], record p { stamp = swapped.1 })
  advance_done _ _ place due p = do logged ← log_stats floats p; ok (ended logged.0, logged.1)
  advance_done _ _ place (ended lines) p = ok (ended lines, p)

  -- Some number of operations of one Done, with none of another between.
  unfoldable pub advance_times :
      {R : Type 0} → ℕ → ℕ → Option Code → ℕ → Stage F → Picker R → Outcome (Stage F × Picker R)
  advance_times zero now err place stage p = ok (stage, p)
  advance_times (suc n) now err place stage p = do
    next ← advance_done now err place stage p
    advance_times n now err place next.0 next.1
