-- ===== src/Balance/P2c.antt =====
-- loadbalance/p2c/picker.go. int64 and uint64 are words below 2^64; a float64 is what the section's
-- parameter says. A pick holds the picker's lock, so it is one step; so is a Done here;
-- Stages has it as the atomic operations it is made of.
pub mod Draws
pub mod Choice
pub mod Flights
pub mod Averages
pub mod Log
pub mod Stages
mod Tests
use emicro.Common.{
  ℕ, zero, suc, ◌+◌, ◌-◌, ◌*◌, ◌^◌, Bool, true, false, ◌&&◌, not, Option, none, some, List, [], ◌∷◌,
  map, ltb, leb, ◌==◌, if◌then◌else◌, length, get_elem?, adjust, Outcome, ok, panic, no_fuel, ◌>>=◌,
  ◌>>◌, must,
}
use emicro.Common.Words.{add64, sub64, mul64, lt_signed}
use emicro.Common.Maps.{Bytes}
use emicro.Internal.Codes.{Code, acceptable}
use emicro.Internal.Xsync.{AtomicDuration, new_atomic_duration, load_duration, compare_and_swap}
use emicro.Balance.Types.{Address, PickInfo, Filter, or_all}

abbrev pub init_success : ℕ
init_success = 1000

abbrev pub throttle_success : ℕ
throttle_success = 500

-- math.MaxInt32
abbrev pub penalty : ℕ
penalty = 2 ^ 31 - 1

abbrev pub second : ℕ
second = 10 ^ 9

abbrev pub force_pick : ℕ
force_pick = second

abbrev pub pick_times : ℕ
pick_times = 3

abbrev pub decay_time : ℕ
decay_time = second * 10

abbrev pub log_interval : ℕ
log_interval = 60 * second

-- What the code does with floats, and with package math.
pub record Floats (F : Type 0) : Type 0 where
  pub of_i64 : ℕ → F
  pub of_u64 : ℕ → F
  pub to_i64 : F → ℕ
  pub to_u64 : F → ℕ
  pub nought : F
  pub one : F
  pub plus : F → F → F
  pub minus : F → F → F
  pub times : F → F → F
  pub over : F → F → F
  pub sqrt : F → F
  pub exp : F → F

-- rand.Rand: Intn of a bound.
pub record Rand (R : Type 0) : Type 0 where
  pub intn : ℕ → R → ℕ × R

pub record Conn : Type 0 where
  pub sub_conn : ℕ
  pub address : Address
  pub latency : ℕ
  pub success : ℕ
  pub inflight : ℕ
  pub requests : ℕ
  pub last : ℕ
  pub pick_time : ℕ
  pub name : Bytes

-- `has_log` says whether logFunc is set; it is nil otherwise.
pub record Picker (R : Type 0) : Type 0 where
  pub connections : List Conn
  pub r : R
  pub stamp : AtomicDuration
  pub has_log : Bool
  pub filter : Filter

abbrev pub new_conn : ℕ × Address → Conn
new_conn (con, address) = record {
  sub_conn = con;
  address = address;
  latency = 0;
  success = init_success;
  inflight = 0;
  requests = 0;
  last = 0;
  pick_time = 0;
  name = address.addr;
}

abbrev pub healthy : Conn → Bool
healthy c = ltb throttle_success c.success

abbrev pub at_place : List Conn → ℕ → Outcome Conn
at_place cs i = elim (get_elem? cs i) [ none ↦ panic | some c ↦ ok c ]

-- The two places of one round of draws: the second draw is among the others.
abbrev pub draw_two : {R : Type 0} → Rand R → ℕ → R → (ℕ × ℕ) × R
draw_two rand n r =
    let (idx1, r1) = rand.intn n r in
    let (idx2, r2) = rand.intn (n - 1) r1 in ((idx1, if leb idx1 idx2 then idx2 + 1 else idx2), r2)

-- The loop of Pick over at most `pick_times` draws; `nodes` are node1 and node2.
unfoldable pub draw_nodes :
    {R : Type 0} → Rand R → ℕ → List Conn → R → Option (ℕ × ℕ) → Outcome (Option (ℕ × ℕ) × R)
draw_nodes rand zero cs r nodes = ok (nodes, r)
draw_nodes rand (suc i) cs r nodes = do
  let drawn = draw_two rand (length cs) r
  node1 ← at_place cs drawn.0.0
  node2 ← at_place cs drawn.0.1
  if healthy node1 && healthy node2
      then ok (some drawn.0, drawn.1)
      else draw_nodes rand i cs drawn.1 (some drawn.0)

-- The switch of Pick over the number of connections.
unfoldable pub candidates :
    {R : Type 0} → Rand R → List Conn → R → Outcome (Option (ℕ × Option ℕ) × R)
candidates rand [] r = ok (none, r)
candidates rand (con ∷ []) r = ok (some (0, none), r)
candidates rand (con1 ∷ con2 ∷ []) r = ok (some (0, some 1), r)
candidates rand cs r = do
  drawn ← draw_nodes rand pick_times cs r none
  elim (drawn.0) [ none ↦ panic | some (node1, node2) ↦ ok (some (node1, some node2), drawn.1) ]

unfoldable pub build : {R : Type 0} → Option Filter → List (ℕ × Address) → R → Picker R
build filter ready r = record {
  connections = map new_conn ready;
  r = r;
  stamp = new_atomic_duration;
  has_log = false;
  filter = or_all filter;
}

-- The time of the last pick, written or swapped in place.
abbrev pub set_pick_time : ℕ → Conn → Conn
set_pick_time t c = record c { pick_time = t }

abbrev pub begin_call : Conn → Conn
begin_call c = record c { inflight = add64 c.inflight 1; requests = add64 c.requests 1 }

abbrev pub reset_requests : Conn → Conn
reset_requests c = record c { requests = 0 }

module _ {F : Type 0} (floats : Floats F) where
  open floats use {of_i64, of_u64, to_i64, to_u64, nought, one, plus, minus, times, over, sqrt, exp}

  abbrev pub root : ℕ → ℕ
  root n = to_i64 (sqrt (of_u64 n))

  unfoldable pub load : Conn → ℕ
  load c =
      let load = mul64 (root (add64 c.latency 1)) (add64 c.inflight 1) in
      if load == 0 then penalty else load

  -- choose: the place that is picked, and the connections with its time of the pick. The swap in
  -- place compares with what was read under the same lock.
  unfoldable pub choose : ℕ → List Conn → ℕ → Option ℕ → Outcome (ℕ × List Conn)
  choose start cs c1 none = do _ ← at_place cs c1; ok (c1, adjust (set_pick_time start) c1 cs)
  choose start cs c1 (some c2) = do
    con1 ← at_place cs c1
    con2 ← at_place cs c2
    let heavy = lt_signed (load con2) (load con1)
    let light_place = if heavy then c2 else c1
    let heavy_place = if heavy then c1 else c2
    let pick = if heavy then con1.pick_time else con2.pick_time
    if lt_signed force_pick (sub64 start pick)
        then ok (heavy_place, adjust (set_pick_time start) heavy_place cs)
        else ok (light_place, adjust (set_pick_time start) light_place cs)

  -- The end of Pick, on the connections to choose between.
  abbrev pub pick_among :
      {R : Type 0} → ℕ → Picker R → Option (ℕ × Option ℕ) → R → Outcome (Option ℕ × Picker R)
  pick_among now p none r = ok (none, record p { r = r })
  pick_among now p (some (c1, c2)) r = do
    chosen ← choose now p.connections c1 c2
    ok (some chosen.0, record p { connections = adjust begin_call chosen.0 chosen.1; r = r })

  -- Pick, where `now` is the time that choose reads: the place picked, for which the result's Done
  -- stands, or the error.
  unfoldable pub pick : {R : Type 0} → Rand R → ℕ → Picker R → Outcome (Option ℕ × Picker R)
  pick rand now p = do nodes ← candidates rand p.connections p.r; pick_among now p nodes.0 nodes.1

  -- max(a - b, 0) of int64
  abbrev pub elapsed : ℕ → ℕ → ℕ
  elapsed a b = let d = sub64 a b in if lt_signed d 0 then 0 else d

  -- The weight of the old average after `td`.
  abbrev pub weight : ℕ → ℕ → F
  weight old_latency td =
      if old_latency == 0 then nought else exp (over (of_i64 (sub64 0 td)) (of_i64 decay_time))

  abbrev pub ewma : F → ℕ → ℕ → ℕ
  ewma w old new = to_u64 (plus (times (of_u64 old) w) (times (of_i64 new) (minus one w)))

  -- What a call counts for the success of its connection; `none` is a call with no error.
  abbrev pub success_of : Option Code → ℕ
  success_of none = init_success
  success_of (some code) = if not (acceptable code) then 0 else init_success

  -- The part of Done that changes the connection, for a call that began at `start`.
  unfoldable pub end_call : ℕ → ℕ → Option Code → Conn → Conn
  end_call start now err c =
      let w = weight c.latency (elapsed now c.last) in
      record c {
        inflight = sub64 c.inflight 1;
        last = now;
        latency = ewma w c.latency (elapsed now start);
        success = ewma w c.success (success_of err);
      }

  -- One line of the log: the address, the load and the requests since the last line.
  abbrev pub stats_of : Conn → Bytes × (ℕ × ℕ)
  stats_of c = (c.address.addr, (load c, c.requests))

  -- logStats: what is handed to logFunc, and the connections with their counts of requests reset.
  unfoldable pub log_stats : {R : Type 0} → Picker R → Outcome (List (Bytes × (ℕ × ℕ)) × Picker R)
  log_stats p = do
    must p.has_log
    ok (map stats_of p.connections, record p { connections = map reset_requests p.connections })

  -- Done of a pick at a place: the lines that are logged, and the picker.
  unfoldable pub done :
      {R : Type 0}
      → ℕ
      → ℕ
      → ℕ
      → Option Code
      → Picker R
      → Outcome (List (Bytes × (ℕ × ℕ)) × Picker R)
  done place start now err p =
      let q = record p { connections = adjust (end_call start now err) place p.connections } in
      let stamp = load_duration q.stamp in
      if lt_signed (sub64 now stamp) log_interval
      then ok ([], q)
      else (let swapped = compare_and_swap stamp now q.stamp in
          let after = record q { stamp = swapped.1 } in
          if swapped.0 then log_stats after else ok ([], after))
