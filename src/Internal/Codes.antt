-- ===== src/Internal/Codes.antt =====
-- internal/codes: which errors of a call count against its connection.
use emicro.Common.{ℕ, Bool, true, false}

-- The codes of gRPC that the source names; the others are known by their numbers.
pub data Code : Type 0 where
  deadline_exceeded : Code
  internal : Code
  unavailable : Code
  data_loss : Code
  unimplemented : Code
  other_code : ℕ → Code

-- Acceptable, on the status code of the error.
abbrev pub acceptable : Code → Bool
acceptable (other_code n) = true
acceptable _ = false
