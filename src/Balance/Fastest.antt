-- ===== src/Balance/Fastest.antt =====
-- loadbalance/fastest/picker.go. Durations are int64, as words of two's complement.
pub mod Choice
pub mod Refresh
mod Tests
use emicro.Common.{
  ℕ, zero, suc, ◌-◌, ◌*◌, ◌^◌, Bool, true, false, ◌||◌, Option, none, some, List, [], ◌∷◌, map, ltb,
  ◌==◌, if◌then◌else◌, length, get_elem?, Outcome, ok, panic, ◌>>=◌,
}
use emicro.Common.Words.{mul64, lt_signed}
use emicro.Common.Maps.{Bytes, bytes_of, bytes_eq, lookup}
use emicro.Balance.Types.{Value, str, Address, PickInfo, Filter, or_all}
use emicro.Balance.Best.{best_from}

pub record Conn : Type 0 where
  pub sub_conn : ℕ
  pub address : Address
  pub resp_duration : ℕ

-- A sync.RWMutex: held by a writer, and by a number of readers.
pub record RwMutex : Type 0 where
  pub writer : Bool
  pub readers : ℕ

pub record Picker : Type 0 where
  pub connections : List Conn
  pub mutex : RwMutex
  pub filter : Filter

-- A call that locks can also wait for ever, and a wrong unlock stops the program.
pub data Locked (A : Type 0) : Type 0 where
  returned : A → Locked A
  blocked : Locked A
  fatal : Locked A

abbrev pub then_ : {A B : Type 0} → Locked A → (A → Locked B) → Locked B
then_ (returned a) f = f a
then_ blocked f = blocked
then_ fatal f = fatal

unfoldable pub lock : RwMutex → Locked RwMutex
lock m = if m.writer || ltb 0 m.readers then blocked else returned (record m { writer = true })

unfoldable pub r_unlock : RwMutex → Locked RwMutex
r_unlock m = if m.readers == 0 then fatal else returned (record m { readers = m.readers - 1 })

abbrev pub new_conn : ℕ × Address → Conn
new_conn (con, address) = record { sub_conn = con; address = address; resp_duration = 0 }

-- The picker of Build; the goroutine that it starts calls `update_resp_time` at each tick.
unfoldable pub build : Option Filter → List (ℕ × Address) → Picker
build filter ready = record {
  connections = map new_conn ready;
  mutex = record { writer = false; readers = 0 };
  filter = or_all filter;
}

-- res == nil, or res.respDuration > c.respDuration
abbrev pub faster : Option ℕ → ℕ → Bool
faster none duration = true
faster (some least) duration = lt_signed duration least

abbrev pub passes : Picker → PickInfo → Conn → Bool
passes p info con = p.filter info con.address

-- The loop of Pick: the place of the fastest connection that passes, and its response time.
unfoldable pub fastest : Picker → PickInfo → Option (ℕ × ℕ)
fastest p info = best_from faster (passes p info) (λ con. con.resp_duration) p.connections 0 none

-- The pick, with the lock that it takes and the one that it gives back on each of its three ways out.
unfoldable pub pick : Picker → PickInfo → Locked (Option ℕ × Picker)
unfolding lock r_unlock fastest
pick p info = then_ (lock p.mutex) λ held.
    if length p.connections == 0
    then then_ (r_unlock held) (λ free. returned (none, record p { mutex = free }))
    else (elim (fastest p info) [
      | none ↦ then_ (r_unlock held) (λ free. returned (none, record p { mutex = free }))
      | some (res, _) ↦
          then_ (r_unlock held) (λ free. returned (some res, record p { mutex = free }))
    ])

-- One entry of Prometheus's answer.
pub record PromResult : Type 0 where
  pub metric : List (Bytes × Bytes)
  pub value : List Value

-- promRes.Value[1].(string)
abbrev pub text_of : PromResult → Outcome Bytes
text_of r = elim (get_elem? r.value 1) [ some (str s) ↦ ok s | _ ↦ panic ]

-- `parse` is strconv.ParseInt in base 10 for 64 bits; one millisecond is 10^6, and the product wraps.
unfoldable pub refresh : (Bytes → Option ℕ) → Bytes → PromResult → List Conn → Outcome (List Conn)
refresh parse address r [] = ok []
refresh parse address r (con ∷ rest) = do
  con' ←
      if bytes_eq con.address.addr address
      then (do
        text ← text_of r
        ok (elim (parse text) [
          | none ↦ con
          | some ms ↦ record con { resp_duration = mul64 ms (10 ^ 6) }
        ]))
      else ok con
  rest' ← refresh parse address r rest
  ok (con' ∷ rest')

-- The loop over a successful answer: an entry with no address ends it.
unfoldable pub update_resp_time :
    (Bytes → Option ℕ) → List PromResult → List Conn → Outcome (List Conn)
unfolding refresh
update_resp_time parse [] conns = ok conns
update_resp_time parse (r ∷ rest) conns = elim (lookup (bytes_of "address") r.metric) [
  | none ↦ ok conns
  | some address ↦ do conns' ← refresh parse address r conns; update_resp_time parse rest conns'
]
