-- ===== src/Observability/Metrics.antt =====
-- observability/metrics/prometheus: the vectors that the builders make, and their two interceptors as
-- what they write to the metrics. Prometheus's registry is a parameter.
pub mod Balance
pub mod Labels
use emicro.Common.{
  ℕ, ◌≡◌, Bool, true, false, Option, none, some, List, [], ◌∷◌, ◌++◌, ◌==◌, length, Outcome, ok,
  panic, no_fuel, ◌>>=◌, if◌then◌else◌,
}
use emicro.Common.Maps.{Bytes, bytes_of}
use emicro.Observability.Methods.{split_method_name}

pub record Builder : Type 0 where
  pub namespace : Bytes
  pub subsystem : Bytes
  pub name : Bytes
  pub help : Bytes
  pub port : Bytes

-- A vector of summaries, counters or gauges with its options; the objectives are in ten-thousandths.
pub record Vec : Type 0 where
  pub namespace : Bytes
  pub subsystem : Bytes
  pub name : Bytes
  pub help : Bytes
  pub const_labels : List (Bytes × Bytes)
  pub objectives : List (ℕ × ℕ)
  pub labels : List Bytes

pub record Vecs : Type 0 where
  pub summary : Vec
  pub err_cnt : Vec
  pub req_cnt : Vec

abbrev pub objectives : List (ℕ × ℕ)
objectives = (5000, 100) ∷ (7500, 100) ∷ (9000, 100) ∷ (9900, 10) ∷ (9990, 1) ∷ []

abbrev pub new_vec : Builder → Bytes → Bytes → List (ℕ × ℕ) → Bytes → Vec
new_vec b address kind objs suffix = record {
  namespace = b.namespace;
  subsystem = b.subsystem;
  name = b.name ++ suffix;
  help = b.help;
  const_labels = (bytes_of "address", address) ∷ (bytes_of "kind", kind) ∷ [];
  objectives = objs;
  labels = bytes_of "method" ∷ [];
}

abbrev pub new_vecs : Builder → Bytes → Bytes → Vecs
new_vecs b address kind = record {
  summary = new_vec b address kind objectives (bytes_of "_response");
  err_cnt = new_vec b address kind [] (bytes_of "_error_cnt");
  req_cnt = new_vec b address kind [] (bytes_of "_active_req_cnt");
}

-- `ip` is GetOutboundIP's.
abbrev pub server_vecs : Builder → Bytes → Vecs
server_vecs b ip =
    let with_port : Bytes = ip ++ (bytes_of ":" ++ b.port) in
    new_vecs b (if length b.port == 0 then ip else with_port) (bytes_of "server")

abbrev pub client_vecs : Builder → Bytes → Vecs
client_vecs b ip = new_vecs b ip (bytes_of "client")

-- What is written: to the gauge, the counter or the summary of some label values.
pub data Written : Type 0 where
  req_add : List Bytes → Written
  req_sub : List Bytes → Written
  err_add : List Bytes → Written
  observed : List Bytes → Written

-- How an interceptor ends: it returns the error of the call, or it panics; with what it has written.
pub record Ended : Type 0 where
  pub written : List Written
  pub result : Outcome (Option Bytes)

-- WithLabelValues panics where the values are not as many as the labels; `next` writes.
abbrev pub with_values : Vec → List Bytes → Ended → Ended
with_values vec values next =
    if length values == length vec.labels then next else record { written = []; result = panic }

abbrev pub and_then : Written → Ended → Ended
and_then w e = record e { written = w ∷ e.written }

module _ (vecs : Vecs) (method : Bytes) where
  -- The client's interceptor after the invoker has returned: its deferred function.
  abbrev pub client_after : Option Bytes → Ended
  client_after err =
      let tail : Ended = and_then (req_sub (method ∷ [])) (
        with_values vecs.summary (method ∷ [])
          (record { written = observed (method ∷ []) ∷ []; result = ok err })) in
      elim err [
        | none ↦ tail
        | some e ↦ with_values vecs.err_cnt (method ∷ []) (and_then (err_add (method ∷ [])) tail)
      ]

  -- Before it.
  abbrev pub client_before : Ended → Ended
  client_before next =
      with_values vecs.req_cnt (method ∷ []) (and_then (req_add (method ∷ [])) next)

  unfoldable pub client_intercept : Option Bytes → Ended
  client_intercept err = client_before (client_after err)

  -- The server's, on the error of the handler with the text of its status code.
  abbrev pub server_after : Option (Bytes × Bytes) → Ended
  server_after err =
      let parts = split_method_name method in
      let values : List Bytes = bytes_of "server unary" ∷ parts.0 ∷ parts.1 ∷ [] in
      elim err [
        | none ↦ and_then (req_sub (method ∷ [])) (
            with_values vecs.summary (values ++ (bytes_of "OK" ∷ [])) (record {
              written = observed (values ++ (bytes_of "OK" ∷ [])) ∷ [];
              result = ok none;
            }))
        | some (e, code) ↦ with_values vecs.err_cnt values (
            and_then (err_add values) (
              and_then (req_sub (method ∷ [])) (
                with_values vecs.summary (values ++ (code ∷ [])) (record {
                  written = observed (values ++ (code ∷ [])) ∷ [];
                  result = ok (some e);
                }))))
      ]

  unfoldable pub server_intercept : Option (Bytes × Bytes) → Ended
  server_intercept err =
      with_values vecs.req_cnt (method ∷ []) (and_then (req_add (method ∷ [])) (server_after err))

-- MustRegister of the three vectors, which panics for one that collides with those that are there.
unfoldable pub must_register : (Vec → List Vec → Bool) → List Vec → List Vec → Outcome (List Vec)
must_register collides [] there = ok there
must_register collides (v ∷ vs) there =
    let rest = must_register collides vs (v ∷ there) in if collides v there then panic else rest
