-- ===== src/Limit/LeakyBucket/Ticks.antt =====
-- How many requests the leaky bucket serves.
use emicro.Common.{ℕ, ◌+◌, ◌≤◌, ◌≡◌, refl, Bool, true, false, List, [], ◌∷◌, arith}
use emicro.Limit.LeakyBucket.{
  LeakyBucket, new_leaky_bucket, Event, tick, served, cancelled, refused, closed, Step, sent, take,
  cancel, refuse, close, Run, stop, next,
}

-- 1 for a place that is filled.
abbrev pub filled : Bool → ℕ
filled true = 1
filled false = 0

abbrev pub ticks : List Event → ℕ
ticks [] = 0
ticks (tick ∷ es) = 1 + ticks es
ticks (served ∷ es) = ticks es
ticks (cancelled ∷ es) = ticks es
ticks (refused ∷ es) = ticks es
ticks (closed ∷ es) = ticks es

abbrev pub serves : List Event → ℕ
serves [] = 0
serves (served ∷ es) = 1 + serves es
serves (tick ∷ es) = serves es
serves (cancelled ∷ es) = serves es
serves (refused ∷ es) = serves es
serves (closed ∷ es) = serves es

filled-le : (b : Bool) → filled b ≤ 1
filled-le true = omega arith
filled-le false = omega arith

-- Each request that is served takes a tick of its own.
pub serves-Run :
    {b c : LeakyBucket} {es : List Event}
    → Run b es c
    → serves es + filled c.pending ≤ ticks es + filled b.pending
serves-Run stop = omega arith
serves-Run (next (sent on) r) = omega (arith, serves-Run r)
serves-Run {b} (next (take waiting) r) = rw waiting (omega (arith, serves-Run r))
serves-Run (next cancel r) = serves-Run r
serves-Run (next (refuse shut) r) = serves-Run r
serves-Run (next (close unlocked) r) = serves-Run r

-- The ticker stays stopped.
stopped :
    {b c : LeakyBucket} {es : List Event}
    → b.ticking ≡ false
    → Run b es c
    → serves es + filled c.pending ≤ filled b.pending
stopped off stop = omega arith
stopped off (next (sent on) r) = cc
stopped {b} off (next (take waiting) r) = rw waiting (omega (arith, stopped off r))
stopped off (next cancel r) = stopped off r
stopped off (next (refuse shut) r) = stopped off r
stopped off (next (close unlocked) r) = stopped refl r

-- In any run of a new bucket that is closed at some point, the requests that are served before are
-- no more than the ticks before, and at most one is served after.
pub serves_closed :
    (es es' : List Event) (b c d : LeakyBucket)
    → Run new_leaky_bucket es b
    → Step b closed c
    → Run c es' d
    → (serves es ≤ ticks es) × (serves es' ≤ 1)
serves_closed es es' b c d before (close unlocked) after =
    (omega (arith, serves-Run before), omega (arith, stopped refl after, filled-le b.pending))
