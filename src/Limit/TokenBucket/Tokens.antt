-- ===== src/Limit/TokenBucket/Tokens.antt =====
-- How many requests the token bucket serves.
use emicro.Common.{ℕ, ◌+◌, ◌≤◌, ◌≡◌, refl, List, [], ◌∷◌, arith}
use emicro.Limit.TokenBucket.{
  TokenBucket, new_token_bucket, Event, tick, ended, served, rejected, cancelled, refused, closed,
  Step, fill, full, end, take, reject, cancel, refuse, close, Run, stop, next,
}

abbrev one_tick : Event → ℕ
one_tick tick = 1
one_tick ended = 0
one_tick served = 0
one_tick rejected = 0
one_tick cancelled = 0
one_tick refused = 0
one_tick closed = 0

abbrev one_served : Event → ℕ
one_served served = 1
one_served tick = 0
one_served ended = 0
one_served rejected = 0
one_served cancelled = 0
one_served refused = 0
one_served closed = 0

abbrev pub ticks : List Event → ℕ
ticks [] = 0
ticks (e ∷ es) = one_tick e + ticks es

abbrev pub serves : List Event → ℕ
serves [] = 0
serves (e ∷ es) = one_served e + serves es

-- Each served request takes a token, each tick makes one at most, and no place of the channel is
-- filled twice.
record Pays (b c : TokenBucket) (made taken : ℕ) : Type 0 where
  paid : c.tokens + taken ≤ b.tokens + made
  kept : c.buffer ≡ b.buffer
  fits : b.tokens ≤ b.buffer → c.tokens ≤ c.buffer

Pays-step : {b c : TokenBucket} {e : Event} → Step b e c → Pays b c (one_tick e) (one_served e)
Pays-step (fill on room) = record { paid = omega arith; kept = refl; fits = λ h. omega arith }
Pays-step (full on no_room) = record { paid = omega arith; kept = refl; fits = λ h. h }
Pays-step (end on off) = record { paid = omega arith; kept = refl; fits = λ h. h }
Pays-step (take n some_left) = record { paid = omega arith; kept = refl; fits = λ h. omega arith }
Pays-step (reject none_left unlocked) = record { paid = omega arith; kept = refl; fits = λ h. h }
Pays-step cancel = record { paid = omega arith; kept = refl; fits = λ h. h }
Pays-step (refuse shut) = record { paid = omega arith; kept = refl; fits = λ h. h }
Pays-step (close unlocked) = record { paid = omega arith; kept = refl; fits = λ h. h }

Pays-Run : {b c : TokenBucket} {es : List Event} → Run b es c → Pays b c (ticks es) (serves es)
Pays-Run stop = record { paid = omega arith; kept = refl; fits = λ h. h }
Pays-Run (next s r) =
    let first = Pays-step s in
    let rest = Pays-Run r in
    record {
      paid = omega (arith, first.paid, rest.paid);
      kept = omega (arith, first.kept, rest.kept);
      fits = λ h. rest.fits (first.fits h);
    }

-- In any run of a new bucket, the requests that are served and the tokens that are left are no
-- more than the ticks, and the tokens no more than the buffer.
pub serves-ticks :
    (buffer : ℕ) (es : List Event) (b : TokenBucket)
    → Run (new_token_bucket buffer) es b
    → (serves es + b.tokens ≤ ticks es) × (b.tokens ≤ buffer)
serves-ticks buffer es b r =
    let pays = Pays-Run r in
    (omega (arith, pays.paid), omega (arith, pays.fits (omega arith), pays.kept))
