-- ===== src/Balance/P2c/Flights.antt =====
-- loadbalance/p2c/picker.go: the calls in flight that a picker counts, over any sequence of picks
-- and of ends of calls.
use emicro.Common.{
  ℕ, ◌+◌, ◌%◌, ◌≡◌, sym, ap, ◌∙◌, ◌≢◌, ◌⊎◌, inl, inr, Bool-cases, Option, none, some, List, [], ◌∷◌,
  ◌++◌, map, get_elem?, adjust, ==_self, All, All-get, ok, ◌==◌, if◌then◌else◌, arith, adjust_get,
  map_get,
}
use emicro.Common.Words.{add64, sub64, u64_mod, lt_signed}
use emicro.Common.Maps.{Bytes}
use emicro.Internal.Codes.{Code}
use emicro.Balance.P2c.{
  Floats, Rand, Conn, Picker, pick, done, end_call, log_stats, reset_requests, log_interval,
}
use emicro.Balance.P2c.Draws.{IsRand}
use emicro.Balance.P2c.Choice.{IsAnswer, pick-IsAnswer, picked}

-- The calls that began and did not end: their places and the times they began at.
abbrev pub Calls : Type 0
Calls = List (ℕ × ℕ)

abbrev pub calls_at : ℕ → Calls → ℕ
calls_at i [] = 0
calls_at i ((place, start) ∷ calls) =
    let rest = calls_at i calls in if place == i then rest + 1 else rest

calls_at-append : (i : ℕ) (a b : Calls) → calls_at i (a ++ b) ≡ calls_at i a + calls_at i b
calls_at-append i [] b = omega arith
calls_at-append i ((place, start) ∷ a) b = ground (arith, calls_at-append i a b)

same_between :
    (i j start : ℕ) (a b : Calls)
    → i ≡ j
    → calls_at j (a ++ ((i, start) ∷ b)) ≡ calls_at j (a ++ b) + 1
same_between i j start a b same =
    ground (arith, calls_at-append j a b, calls_at-append j a ((i, start) ∷ b))

other_between :
    (i j start : ℕ) (a b : Calls) → i ≢ j → calls_at j (a ++ ((i, start) ∷ b)) ≡ calls_at j (a ++ b)
other_between i j start a b other =
    ground (arith, calls_at-append j a b, calls_at-append j a ((i, start) ∷ b))

pub one_more : (x n : ℕ) → x ≡ n % u64_mod → add64 x 1 ≡ (n + 1) % u64_mod
one_more x n e = omega arith

pub one_less : (x n : ℕ) → x ≡ (n + 1) % u64_mod → sub64 x 1 ≡ n % u64_mod
one_less x n e = omega arith

-- Each connection counts the calls that are in flight at its place.
abbrev pub Counts : List Conn → Calls → Type 0
Counts cs calls =
    (i : ℕ) (c : Conn) → get_elem? cs i ≡ some c → c.inflight ≡ calls_at i calls % u64_mod

abbrev pub State : Type 0 → Type 0
State R = Picker R × Calls

module _ {F R : Type 0} (floats : Floats F) (rand : Rand R) where
  pub data Step : State R → State R → Type 0 where
    picks :
        (now start i : ℕ) (p q : Picker R) (calls : Calls)
        → pick floats rand now p ≡ ok (some i, q)
        → Step (p, calls) (q, (i, start) ∷ calls)
    fails :
        (now : ℕ) (p q : Picker R) (calls : Calls)
        → pick floats rand now p ≡ ok (none, q)
        → Step (p, calls) (q, calls)
    ends :
        (i start now : ℕ) (err : Option Code) (p q : Picker R) (a b : Calls)
        (lines : List (Bytes × (ℕ × ℕ)))
        → done floats i start now err p ≡ ok (lines, q)
        → Step (p, a ++ ((i, start) ∷ b)) (q, a ++ b)

  pub data Run (s : State R) : State R → Type 0 where
    stay : Run s s
    step : (t u : State R) → Run s t → Step t u → Run s u

  log_stats-connections :
      (p q : Picker R) (lines : List (Bytes × (ℕ × ℕ)))
      → log_stats floats p ≡ ok (lines, q)
      → q.connections ≡ map reset_requests p.connections
  unfolding log_stats
  log_stats-connections p q lines e = elim (Bool-cases p.has_log) [
    | inl has ↦ (let e' = rw has at e in cc)
    | inr hasnt ↦ (let e' = rw hasnt at e in cc)
  ]

  -- What Done leaves of the connections, with a line in the log or without.
  pub done-connections :
      (i start now : ℕ) (err : Option Code) (p q : Picker R) (lines : List (Bytes × (ℕ × ℕ)))
      → done floats i start now err p ≡ ok (lines, q)
      → (q.connections ≡ adjust (end_call floats start now err) i p.connections)
        ⊎ (q.connections
            ≡ map reset_requests (adjust (end_call floats start now err) i p.connections))
  unfolding done
  done-connections i start now err p q lines e =
      elim (Bool-cases (lt_signed (sub64 now p.stamp.word) log_interval)) [
        | inl soon ↦ (let e' = rw soon at e in inl cc)
        | inr late ↦
            (let e' = rw (late, ==_self p.stamp.word) at e in
              inr (log_stats-connections _ q lines e'))
      ]

  end-Counts :
      (i start now : ℕ) (err : Option Code) (cs : List Conn) (a b : Calls)
      → Counts cs (a ++ ((i, start) ∷ b))
      → Counts (adjust (end_call floats start now err) i cs) (a ++ b)
  unfolding end_call
  end-Counts i start now err cs a b h j c at = elim (adjust_get _ i j cs c at) [
    | inl (same, (x, here, e')) ↦
        let down : c.inflight ≡ sub64 x.inflight 1 = ap (λ (z : Conn). z.inflight) e' in
        rw down (
          one_less x.inflight (calls_at j (a ++ b))
            (h j x here ∙ ap (λ (n : ℕ). n % u64_mod) (same_between i j start a b same)))
    | inr (other, here) ↦
        h j c here ∙ ap (λ (n : ℕ). n % u64_mod) (other_between i j start a b other)
  ]

  done-Counts :
      (i start now : ℕ) (err : Option Code) (p q : Picker R) (a b : Calls)
      (lines : List (Bytes × (ℕ × ℕ)))
      → done floats i start now err p ≡ ok (lines, q)
      → Counts p.connections (a ++ ((i, start) ∷ b))
      → Counts q.connections (a ++ b)
  done-Counts i start now err p q a b lines e h j c at =
      elim (done-connections i start now err p q lines e) [
        | inl same ↦ end-Counts i start now err p.connections a b h j c (rw same at at)
        | inr logged ↦
            let (x, here, e') = map_get _ j _ c (rw logged at at) in
            rw e' (end-Counts i start now err p.connections a b h j x here)
      ]

  pick-Counts :
      (now start i : ℕ) (p q : Picker R) (calls : Calls)
      → IsAnswer floats now p (some i, q)
      → Counts p.connections calls
      → Counts q.connections ((i, start) ∷ calls)
  pick-Counts now start i p q calls (chosen, e) h j c at =
      elim (adjust_get (picked now) i j p.connections c (rw e at at)) [
        | inl (same, (x, here, e')) ↦
            let up : c.inflight ≡ add64 x.inflight 1 = ap (λ (z : Conn). z.inflight) e' in
            rw up (
              one_more x.inflight (calls_at j calls) (h j x here)
              ∙ ap (λ (n : ℕ). n % u64_mod) (sym (same_between i j start [] calls same)))
        | inr (other, here) ↦
            h j c here ∙ ap (λ (n : ℕ). n % u64_mod) (sym (other_between i j start [] calls other))
      ]

  step-Counts :
      (s t : State R)
      → IsRand rand
      → Step s t
      → Counts s.0.connections s.1
      → Counts t.0.connections t.1
  step-Counts s t law (picks now start i p q calls e) h =
      pick-Counts now start i p q calls (rw e at (pick-IsAnswer floats rand law now p)) h
  step-Counts s t law (fails now p q calls e) h =
      let (_, same) = rw e at (pick-IsAnswer floats rand law now p) in rw same h
  step-Counts s t law (ends i start now err p q a b lines e) h =
      done-Counts i start now err p q a b lines e h

  Run-Counts :
      (s t : State R)
      → IsRand rand
      → Run s t
      → Counts s.0.connections s.1
      → Counts t.0.connections t.1
  Run-Counts s t law stay h = h
  Run-Counts s u law (step t _ r e) h = step-Counts t u law e (Run-Counts s t law r h)

  -- From any picker that counts no calls in flight, through any sequence of picks and of ends of
  -- calls that began, each connection counts as many calls in flight as have begun there and not
  -- ended, modulo 2^64; rand.Intn must stay below its bound.
  pub Run-inflight :
      (p q : Picker R) (calls : Calls) (i : ℕ) (c : Conn)
      → IsRand rand
      → All (λ c. c.inflight ≡ 0) p.connections
      → Run (p, []) (q, calls)
      → get_elem? q.connections i ≡ some c
      → c.inflight ≡ calls_at i calls % u64_mod
  Run-inflight p q calls i c law idle r at =
      Run-Counts (p, []) (q, calls) law r
        (λ j d e. omega (arith, All-get (λ c. c.inflight ≡ 0) p.connections j d idle e)) i c at
