-- ===== src/Limit/FixWindow/Schedule.antt =====
-- Calls of one limiter whose atomic operations interleave in any order.
use native.Mathlib.Nat.{mod-eq_of_lt}
use emicro.Common.{
  ℕ, zero, suc, ◌+◌, ◌^◌, ◌≤◌, ◌<◌, ◌≡◌, ◌⊎◌, refl, true, false, Bool-cases, inl, inr, List, [],
  ◌∷◌, All, ltb, length, arith,
}
use emicro.Limit.FixWindow.{
  FixWindow, new_fix_window, over, Call, begun, loaded, won, counting, decided, advance,
}

-- A request comes at a time, or the call at a place does its next operation.
pub data Event : Type 0 where
  arrive : ℕ → Event
  turn : ℕ → Event

unfoldable pub advance_at : ℕ → List Call → FixWindow → List Call × FixWindow
advance_at i [] l = ([], l)
advance_at zero (c ∷ cs) l = let (c', l') = advance c l in (c' ∷ cs, l')
advance_at (suc i) (c ∷ cs) l = let (cs', l') = advance_at i cs l in (c ∷ cs', l')

unfoldable pub run : List Event → List Call → FixWindow → List Call × FixWindow
run [] cs l = (cs, l)
run (arrive current ∷ events) cs l = run events (begun current ∷ cs) l
run (turn i ∷ events) cs l = let (cs', l') = advance_at i cs l in run events cs' l'

-- 1 for a call whose handler runs.
abbrev pub weight : Call → ℕ
weight (decided true) = 1
weight (decided false) = 0
weight (begun current) = 0
weight (loaded current window_start) = 0
weight won = 0
weight counting = 0

abbrev pub served : List Call → ℕ
served [] = 0
served (c ∷ cs) = weight c + served cs

-- A call that does not reset the window.
abbrev IsQuiet : Call → Type 0
IsQuiet (begun current) = current < 10 ^ 9
IsQuiet (loaded current window_start) = ⊥
IsQuiet won = ⊥
IsQuiet counting = Unit
IsQuiet (decided served) = Unit

-- The window cannot move: its start is 0, and no time is beyond its end.
record IsStuck (max_rate : ℕ) (l : FixWindow) : Type 0 where
  start : l.latest_window_start ≡ 0
  long : 10 ^ 9 ≤ l.interval + 1
  rate : l.max_rate ≡ max_rate

-- What an operation changes: the counter keeps up with the handlers that run.
record Moves (max_rate before after : ℕ) (l l' : FixWindow) : Type 0 where
  stuck : IsStuck max_rate l'
  kept_up : l.cnt + after ≤ l'.cnt + before
  one : l'.cnt ≤ l.cnt + 1
  capped : (after ≡ before) ⊎ ((after ≡ before + 1) × (l.cnt + 1 ≤ max_rate))

advance-Moves :
    (max_rate : ℕ) (c : Call) (l : FixWindow)
    → IsStuck max_rate l
    → l.cnt + 1 < 2 ^ 63
    → IsQuiet c
    → IsQuiet (advance c l).0 × Moves max_rate (weight c) (weight (advance c l).0) l (advance c l).1
unfolding advance
advance-Moves max_rate (begun current) l stuck room quiet =
    let early : ltb (l.latest_window_start + l.interval) current ≡ false =
      ground (arith, stuck.start, stuck.long) in
    rw early
      (tt, record { stuck = stuck; kept_up = omega arith; one = omega arith; capped = inl refl })
advance-Moves max_rate (loaded current window_start) l stuck room quiet = absurd quiet
advance-Moves max_rate won l stuck room quiet = absurd quiet
advance-Moves max_rate counting l stuck room quiet =
    elim (Bool-cases (over (l.cnt + 1) l.max_rate)) [
      | inl beyond ↦
          rw (mod-eq_of_lt fits, beyond)
            (
              tt,
              record { stuck = after; kept_up = omega arith; one = omega arith; capped = inl refl },
            )
      | inr within ↦
          rw (mod-eq_of_lt fits, within)
            (
              tt,
              record {
                stuck = after;
                kept_up = omega arith;
                one = omega arith;
                capped = inr (refl, ground (arith, within, stuck.rate));
              },
            )
    ]
  where
    fits : l.cnt + 1 < 2 ^ 64
    fits = omega arith

    after : IsStuck max_rate (record l { cnt = l.cnt + 1 })
    after = record { start = stuck.start; long = stuck.long; rate = stuck.rate }
advance-Moves max_rate (decided verdict) l stuck room quiet =
    (tt, record { stuck = stuck; kept_up = omega arith; one = omega arith; capped = inl refl })

advance_at-Moves :
    (max_rate i : ℕ) (cs : List Call) (l : FixWindow)
    → IsStuck max_rate l
    → l.cnt + 1 < 2 ^ 63
    → All IsQuiet cs
    → All IsQuiet (advance_at i cs l).0
      × Moves max_rate (served cs) (served (advance_at i cs l).0) l (advance_at i cs l).1
unfolding advance_at
advance_at-Moves max_rate i [] l stuck room quiet =
    (tt, record { stuck = stuck; kept_up = omega arith; one = omega arith; capped = inl refl })
advance_at-Moves max_rate zero (c ∷ cs) l stuck room quiet =
    let (still, m) = advance-Moves max_rate c l stuck room quiet.0 in
    (
      (still, quiet.1),
      record {
        stuck = m.stuck;
        kept_up = omega (arith, m.kept_up);
        one = m.one;
        capped = elim m.capped [
          | inl same ↦ inl (omega (arith, same))
          | inr (more, below) ↦ inr (omega (arith, more), below)
        ];
      },
    )
advance_at-Moves max_rate (suc i) (c ∷ cs) l stuck room quiet =
    let (still, m) = advance_at-Moves max_rate i cs l stuck room quiet.1 in
    (
      (quiet.0, still),
      record {
        stuck = m.stuck;
        kept_up = omega (arith, m.kept_up);
        one = m.one;
        capped = elim m.capped [
          | inl same ↦ inl (omega (arith, same))
          | inr (more, below) ↦ inr (omega (arith, more), below)
        ];
      },
    )

-- What holds of the handlers that run, in a window that cannot move.
record IsCapped (max_rate : ℕ) (cs : List Call) (l : FixWindow) : Type 0 where
  stuck : IsStuck max_rate l
  quiet : All IsQuiet cs
  counted : served cs ≤ l.cnt
  capped : served cs ≤ max_rate

-- The times are parts of a second.
abbrev pub IsTime : Event → Type 0
IsTime (arrive current) = current < 10 ^ 9
IsTime (turn i) = Unit

run-IsCapped :
    (max_rate : ℕ) (events : List Event) (cs : List Call) (l : FixWindow)
    → All IsTime events
    → l.cnt + length events < 2 ^ 63
    → IsCapped max_rate cs l
    → IsCapped max_rate (run events cs l).0 (run events cs l).1
unfolding run
run-IsCapped max_rate [] cs l times room h = h
run-IsCapped max_rate (arrive current ∷ events) cs l times room h =
    run-IsCapped max_rate events (begun current ∷ cs) l times.1 (omega arith) (record {
      stuck = h.stuck;
      quiet = (times.0, h.quiet);
      counted = omega (arith, h.counted);
      capped = omega (arith, h.capped);
    })
run-IsCapped max_rate (turn i ∷ events) cs l times room h =
    let (still, m) = advance_at-Moves max_rate i cs l h.stuck (omega arith) h.quiet in
    run-IsCapped max_rate events (advance_at i cs l).0 (advance_at i cs l).1 times.1
      (omega (arith, m.one))
      (record {
        stuck = m.stuck;
        quiet = still;
        counted = omega (arith, m.kept_up, h.counted);
        capped = elim m.capped [
          | inl same ↦ omega (arith, same, h.capped)
          | inr (more, below) ↦ omega (arith, more, below, h.counted)
        ];
      })

-- With a window of a second or longer, no more than the maximal rate of all requests ever reach the
-- handler, in any interleaving of their operations: the window never starts again. The events must
-- be fewer than 2^63, and the times parts of a second, as Nanosecond() gives them.
pub served-run :
    (interval max_rate : ℕ) (events : List Event)
    → 10 ^ 9 ≤ interval
    → All IsTime events
    → length events < 2 ^ 63
    → served (run events [] (new_fix_window interval max_rate)).0 ≤ max_rate
served-run interval max_rate events long times room =
    (run-IsCapped max_rate events [] (new_fix_window interval max_rate) times (omega arith)
      (record {
        stuck = record { start = refl; long = omega arith; rate = refl };
        quiet = tt;
        counted = omega arith;
        capped = omega arith;
      })).capped
