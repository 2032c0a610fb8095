-- ===== src/Balance/Fastest/Refresh.antt =====
-- loadbalance/fastest/picker.go: the query of Prometheus, and the goroutine that Build starts.
use emicro.Common.{
  ℕ, ◌^◌, ◌≡◌, refl, sym, ap, ◌∙◌, Bool-cases, inl, inr, not, Option, none, some, List, [], ◌∷◌,
  map, if◌then◌else◌, Outcome, ok, panic, no_fuel, map-map,
}
use emicro.Common.Words.{mul64}
use emicro.Common.Maps.{Bytes, bytes_of, bytes_eq, lookup}
use emicro.Balance.Fastest.{Conn, PromResult, text_of, refresh, update_resp_time}

-- What the query gives: an error of http.Get, an answer that is not decoded, or the status and the
-- results of one that is.
pub data Queried : Type 0 where
  no_response : Queried
  undecoded : Queried
  decoded : Bytes → List PromResult → Queried

-- log.Fatalln ends the process; the rest of updateRespTime can panic.
pub data Update : Type 0 where
  exits : Update
  runs : Outcome (List Conn) → Update

unfoldable pub update : (Bytes → Option ℕ) → Queried → List Conn → Update
update parse no_response conns = exits
update parse undecoded conns = exits
update parse (decoded status results) conns =
    if not (bytes_eq status (bytes_of "success"))
    then exits
    else runs (update_resp_time parse results conns)

-- What the goroutine's select receives: a tick, with what its query gives, or the finalizer's signal.
pub data Signal : Type 0 where
  ticked : Queried → Signal
  finalized : Signal

-- The goroutine's loop, up to its return or to the end of the signals.
unfoldable pub refresh_loop : (Bytes → Option ℕ) → List Signal → List Conn → Update
refresh_loop parse [] conns = runs (ok conns)
refresh_loop parse (finalized ∷ signals) conns = runs (ok conns)
refresh_loop parse (ticked queried ∷ signals) conns = elim (update parse queried conns) [
  | exits ↦ exits
  | runs (ok conns') ↦ refresh_loop parse signals conns'
  | runs panic ↦ runs panic
  | runs no_fuel ↦ runs no_fuel
]

-- One result, on one connection.
abbrev pub update_one : (Bytes → Option ℕ) → Bytes → Bytes → Conn → Conn
update_one parse address text con =
    if bytes_eq con.address.addr address
    then (elim (parse text) [
      | none ↦ con
      | some ms ↦ record con { resp_duration = mul64 ms (10 ^ 6) }
    ])
    else con

-- A result as Prometheus gives it: with an address, and with a text for its value.
pub record Reading : Type 0 where
  pub result : PromResult
  pub address : Bytes
  pub text : Bytes
  pub has_address : lookup (bytes_of "address") result.metric ≡ some address
  pub has_text : text_of result ≡ ok text

-- All results, one after the other, on one connection.
abbrev pub update_all : (Bytes → Option ℕ) → List Reading → Conn → Conn
update_all parse [] con = con
update_all parse (r ∷ rs) con = update_all parse rs (update_one parse r.address r.text con)

refresh-map :
    (parse : Bytes → Option ℕ) (r : Reading) (conns : List Conn)
    → refresh parse r.address r.result conns ≡ ok (map (update_one parse r.address r.text) conns)
unfolding refresh
refresh-map parse r [] = refl
refresh-map parse r (con ∷ conns) = elim (Bool-cases (bytes_eq con.address.addr r.address)) [
  | inl same ↦ rw (same, r.has_text, refresh-map parse r conns) refl
  | inr other ↦ rw (other, refresh-map parse r conns) refl
]

map-id : (conns : List Conn) → map (λ con. con) conns ≡ conns
map-id [] = refl
map-id (con ∷ conns) = ap (◌∷◌ con) (map-id conns)

-- On results that each have an address and a text, the two nested loops return, and leave with each
-- connection what the results of its address leave, one after the other: a text that parses, a number
-- of milliseconds, sets its response time, to that many times 10^6 modulo 2^64, an int64 of
-- nanoseconds; one that does not leaves it as it was.
pub update_resp_time-map :
    (parse : Bytes → Option ℕ) (readings : List Reading) (conns : List Conn)
    → update_resp_time parse (map (λ r. r.result) readings) conns
      ≡ ok (map (update_all parse readings) conns)
unfolding update_resp_time
update_resp_time-map parse [] conns = ap ok (sym (map-id conns))
update_resp_time-map parse (r ∷ readings) conns =
    rw (r.has_address, refresh-map parse r conns, update_resp_time)
      (update_resp_time-map parse readings (map (update_one parse r.address r.text) conns)
        ∙ ap ok (map-map (update_one parse r.address r.text) (update_all parse readings) conns))
