-- ===== src/Limit/SlideWindow/Window.antt =====
-- How many requests of one window the sliding window lets pass.
use emicro.Common.{
  ℕ, ◌+◌, ◌≤◌, ◌≡◌, refl, true, false, Bool-cases, inl, inr, List, [], ◌∷◌, ◌++◌, ltb,
  if◌then◌else◌, length, length-append, All, arith,
}
use emicro.Limit.SlideWindow.{SlideWindow, new_slide_window, expired, purge, allow}

-- The requests at these times, one after the other: the times of those whose handler runs, the last
-- one first, and the limiter.
unfoldable pub run : List ℕ → List ℕ → SlideWindow → List ℕ × SlideWindow
run [] served l = (served, l)
run (current ∷ times) served l =
    let (verdict, l') = allow l current in
    run times (if verdict then current ∷ served else served) l'

-- How many of the times are in the window that ends at `now`.
abbrev pub in_window : ℕ → ℕ → List ℕ → ℕ
in_window interval now [] = 0
in_window interval now (time ∷ times) =
    (if expired interval now time then 0 else 1) + in_window interval now times

-- The times do not decrease, from `now` on.
abbrev pub IsOrdered : ℕ → List ℕ → Type 0
IsOrdered now [] = Unit
IsOrdered now (current ∷ times) = (now ≤ current) × IsOrdered current times

-- What the queue knows: it is not longer than one more than the rate, and holds whatever was
-- served and is in the window of `now` or of a later one.
record Knows (now : ℕ) (served : List ℕ) (l : SlideWindow) : Type 0 where
  bounded : length l.queue ≤ l.max_rate + 1
  holds :
      (later : ℕ)
      → now ≤ later
      → in_window l.interval later served ≤ in_window l.interval later l.queue

in_window-append :
    (interval now : ℕ) (xs ys : List ℕ)
    → in_window interval now (xs ++ ys) ≡ in_window interval now xs + in_window interval now ys
in_window-append interval now [] ys = omega arith
in_window-append interval now (x ∷ xs) ys = omega (arith, in_window-append interval now xs ys)

in_window-le : (interval now : ℕ) (xs : List ℕ) → in_window interval now xs ≤ length xs
in_window-le interval now [] = omega arith
in_window-le interval now (x ∷ xs) = ground (arith, in_window-le interval now xs)

in_window-purge :
    (interval current later : ℕ) (queue : List ℕ)
    → current ≤ later
    → in_window interval later (purge interval current queue) ≡ in_window interval later queue
unfolding purge
in_window-purge interval current later [] h = refl
in_window-purge interval current later (req_time ∷ queue) h =
    elim (Bool-cases (expired interval current req_time)) [
      | inl gone ↦
          let gone' : expired interval later req_time ≡ true = ground arith in
          rw (gone, gone') (omega (arith, in_window-purge interval current later queue h))
      | inr left ↦ rw left refl
    ]

length-purge :
    (interval current : ℕ) (queue : List ℕ) → length (purge interval current queue) ≤ length queue
unfolding purge
length-purge interval current [] = omega arith
length-purge interval current (req_time ∷ queue) =
    elim (Bool-cases (expired interval current req_time)) [
      | inl gone ↦ rw gone (omega (arith, length-purge interval current queue))
      | inr left ↦ rw left (omega arith)
    ]

allow-Knows :
    (l : SlideWindow) (now current : ℕ) (served : List ℕ)
    → now ≤ current
    → Knows now served l
    → Knows current (if (allow l current).0 then current ∷ served else served) (allow l current).1
      × ((allow l current).1.interval ≡ l.interval)
      × ((allow l current).1.max_rate ≡ l.max_rate)
unfolding allow
allow-Knows l now current served ordered knows =
    elim (Bool-cases (ltb (length l.queue) l.max_rate)) [
      | inl free ↦ rw free (
        record {
          bounded = ground (arith, length-append l.queue (current ∷ []));
          holds = λ later h. omega (
            arith,
            in_window-append l.interval later l.queue (current ∷ []),
            knows.holds later (omega arith),
          );
        },
        refl,
        refl,
      )
      | inr full ↦ elim (Bool-cases (ltb l.max_rate (length (purge l.interval current l.queue)))) [
        | inl beyond ↦
            rw (full, beyond)
              (
                record {
                  bounded = omega (arith, length-purge l.interval current l.queue, knows.bounded);
                  holds = λ later h. omega (
                    arith,
                    in_window-purge l.interval current later l.queue h,
                    knows.holds later (omega arith),
                  );
                },
                refl,
                refl,
              )
        | inr within ↦
            rw (full, within)
              (
                record {
                  bounded =
                      ground
                        (arith, length-append (purge l.interval current l.queue) (current ∷ []));
                  holds = λ later h. omega (
                    arith,
                    in_window-append l.interval later (purge l.interval current l.queue)
                        (current ∷ []),
                    in_window-purge l.interval current later l.queue h,
                    knows.holds later (omega arith),
                  );
                },
                refl,
                refl,
              )
      ]
    ]

run-in_window :
    (times served : List ℕ) (l : SlideWindow) (now later : ℕ)
    → IsOrdered now times
    → All (λ time. time ≤ later) times
    → now ≤ later
    → Knows now served l
    → in_window l.interval later (run times served l).0 ≤ l.max_rate + 1
unfolding run
run-in_window [] served l now later ordered past h knows =
    omega (arith, knows.holds later h, knows.bounded, in_window-le l.interval later l.queue)
run-in_window (current ∷ times) served l now later ordered past h knows =
    let (knows', interval, rate) = allow-Knows l now current served ordered.0 knows in
    rw (interval, rate) at
      (run-in_window times (if (allow l current).0 then current ∷ served else served)
        (allow l current).1 current later ordered.1 past.1 past.0 knows')

-- Of requests at times that do not decrease, no window lets more pass than one more than the
-- maximal rate, where a window ends at or after the last of the times.
pub in_window-run :
    (rate interval : ℕ) (times : List ℕ) (later : ℕ)
    → IsOrdered 0 times
    → All (λ time. time ≤ later) times
    → in_window interval later (run times [] (new_slide_window rate interval)).0 ≤ rate + 1
in_window-run rate interval times later ordered past =
    run-in_window times [] (new_slide_window rate interval) 0 later ordered past (omega arith)
      (record { bounded = omega arith; holds = λ later' h. omega arith })

-- A full window lets one more request pass: after requests that fill the queue, one more at any
-- time reaches its handler.
pub allow_full :
    (l : SlideWindow) (current : ℕ) → length l.queue ≡ l.max_rate → (allow l current).0 ≡ true
unfolding allow
allow_full l current full =
    let not_below : ltb (length l.queue) l.max_rate ≡ false = ground arith in
    let not_over : ltb l.max_rate (length (purge l.interval current l.queue)) ≡ false =
      ground (arith, length-purge l.interval current l.queue) in
    rw (not_below, not_over) refl
