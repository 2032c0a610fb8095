-- ===== src/Observability/Metrics/Balance.antt =====
-- observability/metrics/prometheus/client.go: the gauge of active calls, over calls that interleave.
use emicro.Common.{
  ℕ, ◌+◌, ◌≡◌, refl, Bool, false, Option, none, some, List, [], ◌∷◌, ◌++◌, ok, if◌then◌else◌, arith,
}
use emicro.Common.Maps.{Bytes, bytes_eq}
use emicro.Observability.Metrics.{
  Builder, Ended, Written, req_add, req_sub, err_add, observed, client_vecs, client_before,
  client_after,
}

-- The values of one label, if they are of the method.
abbrev pub is_of : Bytes → List Bytes → Bool
is_of method [] = false
is_of method (value ∷ []) = bytes_eq value method
is_of method (value ∷ other ∷ more) = false

abbrev pub one_if : Bool → ℕ → ℕ
one_if b n = if b then n + 1 else n

abbrev pub adds : Bytes → List Written → ℕ
adds method [] = 0
adds method (req_add values ∷ ws) = one_if (is_of method values) (adds method ws)
adds method (req_sub values ∷ ws) = adds method ws
adds method (err_add values ∷ ws) = adds method ws
adds method (observed values ∷ ws) = adds method ws

abbrev pub subs : Bytes → List Written → ℕ
subs method [] = 0
subs method (req_sub values ∷ ws) = one_if (is_of method values) (subs method ws)
subs method (req_add values ∷ ws) = subs method ws
subs method (err_add values ∷ ws) = subs method ws
subs method (observed values ∷ ws) = subs method ws

-- The calls of the method among those in flight.
abbrev pub active : Bytes → List Bytes → ℕ
active method [] = 0
active method (m ∷ calls) = one_if (bytes_eq m method) (active method calls)

adds-append :
    (method : Bytes) (a b : List Written) → adds method (a ++ b) ≡ adds method a + adds method b
adds-append method [] b = omega arith
adds-append method (req_add values ∷ a) b = ground (arith, adds-append method a b)
adds-append method (req_sub values ∷ a) b = adds-append method a b
adds-append method (err_add values ∷ a) b = adds-append method a b
adds-append method (observed values ∷ a) b = adds-append method a b

subs-append :
    (method : Bytes) (a b : List Written) → subs method (a ++ b) ≡ subs method a + subs method b
subs-append method [] b = omega arith
subs-append method (req_sub values ∷ a) b = ground (arith, subs-append method a b)
subs-append method (req_add values ∷ a) b = subs-append method a b
subs-append method (err_add values ∷ a) b = subs-append method a b
subs-append method (observed values ∷ a) b = subs-append method a b

active-append :
    (method : Bytes) (a b : List Bytes) → active method (a ++ b) ≡ active method a + active method b
active-append method [] b = omega arith
active-append method (m ∷ a) b = ground (arith, active-append method a b)

-- What has been written so far, and the methods of the calls in flight.
abbrev pub State : Type 0
State = List Written × List Bytes

abbrev pub paused : Ended
paused = record { written = []; result = ok none }

module _ (b : Builder) (ip : Bytes) where
  pub data Step : State → State → Type 0 where
    begins :
        (log : List Written) (calls : List Bytes) (method : Bytes)
        → Step
            (log, calls)
            (log ++ (client_before (client_vecs b ip) method paused).written, method ∷ calls)
    ends :
        (log : List Written) (before after : List Bytes) (method : Bytes) (err : Option Bytes)
        → Step
            (log, before ++ (method ∷ after))
            (log ++ (client_after (client_vecs b ip) method err).written, before ++ after)

  pub data Run (s : State) : State → Type 0 where
    stay : Run s s
    step : (t u : State) → Run s t → Step t u → Run s u

  adds-after :
      (m method : Bytes) (err : Option Bytes)
      → adds m (client_after (client_vecs b ip) method err).written ≡ 0
  adds-after m method none = refl
  adds-after m method (some e) = refl

  subs-after :
      (m method : Bytes) (err : Option Bytes)
      → subs m (client_after (client_vecs b ip) method err).written ≡ one_if (bytes_eq method m) 0
  subs-after m method none = refl
  subs-after m method (some e) = refl

  step-balance :
      (s t : State) (m : Bytes)
      → Step s t
      → adds m s.0 ≡ subs m s.0 + active m s.1
      → adds m t.0 ≡ subs m t.0 + active m t.1
  step-balance s t m (begins log calls method) h = ground (
    arith,
    adds-append m log (req_add (method ∷ []) ∷ []),
    subs-append m log (req_add (method ∷ []) ∷ []),
  )
  step-balance s t m (ends log before after method err) h =
      let ws = (client_after (client_vecs b ip) method err).written in
      ground (
        arith,
        adds-append m log ws,
        subs-append m log ws,
        adds-after m method err,
        subs-after m method err,
        active-append m before (method ∷ after),
        active-append m before after,
      )

  -- In any interleaving of calls on one client's interceptor, the gauge of a method, its additions less
  -- its subtractions, is the number of its calls in flight, whatever the calls end with.
  pub Run-active :
      (t : State) (method : Bytes)
      → Run ([], []) t
      → adds method t.0 ≡ subs method t.0 + active method t.1
  Run-active t method stay = omega arith
  Run-active t method (step s _ r e) = step-balance s t method e (Run-active s method r)
