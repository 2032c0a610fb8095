-- ===== src/Limit/LeakyBucket.antt =====
-- ratelimit/leaky_bucket.go: the ticker, the requests that wait for its ticks, and Close. The
-- channel of a time.Ticker has one place, and a tick that finds it filled is dropped.
pub mod Ticks
use emicro.Common.{ℕ, ◌≡◌, Bool, true, false, List, [], ◌∷◌}

-- `pending` is that a tick waits in the channel; `ticking` that the ticker is not stopped.
pub record LeakyBucket : Type 0 where
  pub pending : Bool
  pub closing : Bool
  pub ticking : Bool

abbrev pub new_leaky_bucket : LeakyBucket
new_leaky_bucket = record { pending = false; closing = false; ticking = true }

pub data Event : Type 0 where
  tick : Event
  served : Event
  cancelled : Event
  refused : Event
  closed : Event

-- A request waits until it can take one of its steps. A second Close panics, and is no step.
pub data Step : LeakyBucket → Event → LeakyBucket → Type 0 where
  sent : {b : LeakyBucket} → b.ticking ≡ true → Step b tick (record b { pending = true })
  take : {b : LeakyBucket} → b.pending ≡ true → Step b served (record b { pending = false })
  cancel : {b : LeakyBucket} → Step b cancelled b
  refuse : {b : LeakyBucket} → b.closing ≡ true → Step b refused b
  close :
      {b : LeakyBucket}
      → b.closing ≡ false
      → Step b closed (record b { closing = true; ticking = false })

pub data Run : LeakyBucket → List Event → LeakyBucket → Type 0 where
  stop : {b : LeakyBucket} → Run b [] b
  next :
      {b c d : LeakyBucket} {e : Event} {es : List Event}
      → Step b e c
      → Run c es d
      → Run b (e ∷ es) d
