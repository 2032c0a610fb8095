-- ===== src/Limit/FixWindow/Steps.antt =====
-- The atomic operations of calls that run at the same time.
use emicro.Common.{ℕ, zero, suc, ◌+◌, ◌≡◌, refl, Bool-cases, inl, inr, ltb, ==_self}
use emicro.Limit.FixWindow.{FixWindow, Call, begun, decided, advance, allow}

-- `n` operations of one call.
pub alone : ℕ → Call → FixWindow → Call × FixWindow
alone zero c l = (c, l)
alone (suc n) c l = let (c', l') = advance c l in alone n c' l'

-- A call that runs alone decides as the sequential reading says, and leaves the same limiter.
pub alone-allow :
    (l : FixWindow) (current : ℕ)
    → alone 4 (begun current) l ≡ (decided (allow l current).0, (allow l current).1)
unfolding alone advance allow
alone-allow l current = elim (Bool-cases (ltb (l.latest_window_start + l.interval) current)) [
  | inl moved ↦ rw (moved, ==_self l.latest_window_start) refl
  | inr same ↦ rw same refl
]
