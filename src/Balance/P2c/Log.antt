-- ===== src/Balance/P2c/Log.antt =====
-- loadbalance/p2c/picker.go: what the log does to a picker that Build made.
use emicro.Common.{
  ℕ, ◌^◌, ◌≤◌, ◌<◌, ◌≡◌, refl, inl, inr, false, Bool-cases, Option, List, [], adjust, ==_self, ok,
  panic, arith,
}
use emicro.Common.Words.{sub64, lt_signed}
use emicro.Common.Maps.{Bytes}
use emicro.Internal.Codes.{Code}
use emicro.Balance.Types.{Address, Filter}
use emicro.Balance.P2c.{Floats, Rand, Picker, build, done, end_call, log_stats, log_interval}
use emicro.Balance.P2c.Draws.{IsRand}
use emicro.Balance.P2c.Choice.{pick-IsAnswer}
use emicro.Balance.P2c.Flights.{State, Run, Step, Calls, stay, step, picks, fails, ends}

-- No log function, and no time of a last line: as Build leaves a picker.
abbrev IsSilent : {R : Type 0} → Picker R → Type 0
IsSilent p = (p.has_log ≡ false) × (p.stamp.word ≡ 0)

module _ {F R : Type 0} (floats : Floats F) (rand : Rand R) where
  -- A Done goes through without a line in the log, or it panics.
  done_soon :
      (i start now : ℕ) (err : Option Code) (p q : Picker R) (lines : List (Bytes × (ℕ × ℕ)))
      → IsSilent p
      → done floats i start now err p ≡ ok (lines, q)
      → IsSilent q
  unfolding done log_stats
  done_soon i start now err p q lines (silent, never) e =
      elim (Bool-cases (lt_signed (sub64 now p.stamp.word) log_interval)) [
        | inl soon ↦
            (let e' = rw soon at e in
              let same : q ≡ record p {
                connections = adjust (end_call floats start now err) i p.connections;
              } =
                cc in
              rw same (silent, never))
        | inr late ↦ (let e' = rw (late, ==_self p.stamp.word, silent) at e in cc)
      ]

  done_late :
      (i start now : ℕ) (err : Option Code) (p : Picker R)
      → IsSilent p
      → log_interval ≤ now
      → now < 2 ^ 63
      → done floats i start now err p ≡ panic
  unfolding done log_stats
  done_late i start now err p (silent, never) late h =
      let due : lt_signed (sub64 now 0) log_interval ≡ false = ground arith in
      rw (never, silent, due, done, log_stats) refl

  step-IsSilent : (s t : State R) → IsRand rand → Step floats rand s t → IsSilent s.0 → IsSilent t.0
  step-IsSilent s t law (picks now start i p q calls e) h =
      let (_, same) = rw e at (pick-IsAnswer floats rand law now p) in rw same h
  step-IsSilent s t law (fails now p q calls e) h =
      let (_, same) = rw e at (pick-IsAnswer floats rand law now p) in rw same h
  step-IsSilent s t law (ends i start now err p q a b lines e) h =
      done_soon i start now err p q lines h e

  Run-IsSilent : (s t : State R) → IsRand rand → Run floats rand s t → IsSilent s.0 → IsSilent t.0
  Run-IsSilent s t law stay h = h
  Run-IsSilent s u law (step t _ r e) h = step-IsSilent t u law e (Run-IsSilent s t law r h)

  -- Whatever came before, the first call that ends a minute or later after the zero of xtime.Now stops
  -- the program, with a picker that Build made: it is time for a line in the log, and Build set no
  -- function for it. (xtime.Now counts from more than a year before the start of the program.)
  pub done-panics :
      (filter : Option Filter) (ready : List (ℕ × Address)) (r : R) (q : Picker R) (calls : Calls)
      (i start ended : ℕ) (err : Option Code)
      → IsRand rand
      → Run floats rand (build filter ready r, []) (q, calls)
      → log_interval ≤ ended
      → ended < 2 ^ 63
      → done floats i start ended err q ≡ panic
  unfolding build
  done-panics filter ready r q calls i start ended err law run late h =
      done_late i start ended err q (Run-IsSilent _ _ law run (refl, refl)) late h
