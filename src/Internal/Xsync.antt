-- ===== src/Internal/Xsync.antt =====
-- internal/utils/xsync/atomicduration.go: an atomic duration, as the word that it holds. Each
-- operation is one atomic step.
use emicro.Common.{ℕ, Bool, true, false, ◌==◌, if◌then◌else◌}

pub record AtomicDuration : Type 0 where
  pub word : ℕ

abbrev pub new_atomic_duration : AtomicDuration
new_atomic_duration = record { word = 0 }

abbrev pub set_duration : ℕ → AtomicDuration → AtomicDuration
set_duration val d = record { word = val }

abbrev pub for_atomic_duration : ℕ → AtomicDuration
for_atomic_duration val = set_duration val new_atomic_duration

abbrev pub load_duration : AtomicDuration → ℕ
load_duration d = d.word

-- Whether the swap was made, and the word after it.
abbrev pub compare_and_swap : ℕ → ℕ → AtomicDuration → Bool × AtomicDuration
compare_and_swap old val d = if d.word == old then (true, record { word = val }) else (false, d)
