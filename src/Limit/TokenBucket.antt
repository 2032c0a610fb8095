-- ===== src/Limit/TokenBucket.antt =====
-- ratelimit/token_bucket.go: the goroutine that makes the tokens, the requests that take them, and
-- Close. A select that is ready in several ways takes any of them, so the steps are a relation.
pub mod Tokens
use emicro.Common.{ℕ, suc, ◌+◌, ◌<◌, ◌≡◌, Bool, true, false, List, [], ◌∷◌}

-- `tokens` of the `buffer` places of the channel are filled; `closing` is the channel close, closed;
-- `producing` is that the goroutine runs.
pub record TokenBucket : Type 0 where
  pub buffer : ℕ
  pub tokens : ℕ
  pub closing : Bool
  pub producing : Bool

abbrev pub new_token_bucket : ℕ → TokenBucket
new_token_bucket buffer = record { buffer = buffer; tokens = 0; closing = false; producing = true }

-- What a step shows: a tick of the ticker, the end of the goroutine, a request that is served,
-- rejected, cancelled by its context or refused by a closed limiter, or Close.
pub data Event : Type 0 where
  tick : Event
  ended : Event
  served : Event
  rejected : Event
  cancelled : Event
  refused : Event
  closed : Event

-- A second Close panics, and is no step. `default` is taken where no other case is ready: there is
-- no token, the limiter is not closed and the context not done.
pub data Step : TokenBucket → Event → TokenBucket → Type 0 where
  fill :
      {b : TokenBucket}
      → b.producing ≡ true
      → b.tokens < b.buffer
      → Step b tick (record b { tokens = b.tokens + 1 })
  full : {b : TokenBucket} → b.producing ≡ true → b.tokens ≡ b.buffer → Step b tick b
  end :
      {b : TokenBucket}
      → b.producing ≡ true
      → b.closing ≡ true
      → Step b ended (record b { producing = false })
  take : {b : TokenBucket} (n : ℕ) → b.tokens ≡ suc n → Step b served (record b { tokens = n })
  reject : {b : TokenBucket} → b.tokens ≡ 0 → b.closing ≡ false → Step b rejected b
  cancel : {b : TokenBucket} → Step b cancelled b
  refuse : {b : TokenBucket} → b.closing ≡ true → Step b refused b
  close : {b : TokenBucket} → b.closing ≡ false → Step b closed (record b { closing = true })

-- Steps one after the other, with what they show.
pub data Run : TokenBucket → List Event → TokenBucket → Type 0 where
  stop : {b : TokenBucket} → Run b [] b
  next :
      {b c d : TokenBucket} {e : Event} {es : List Event}
      → Step b e c
      → Run c es d
      → Run b (e ∷ es) d
