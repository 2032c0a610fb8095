-- ===== src/Rpc/Race.antt =====
-- Client.Invoke of rpc/client.go: its goroutine and its caller, on the channel without a buffer that
-- they share, step by step.
pub mod Answers
use emicro.Common.{◌≡◌, ◌≢◌, Option, none, some, Outcome, ok, panic}
use emicro.Common.Maps.{Bytes}
use emicro.Message.Response.{Response}
use emicro.Rpc.Codec.{Result}

-- Invoke waits at its select, has received from the channel and returns what the goroutine has left,
-- or returns the error of the context.
pub data Caller : Type 0 where
  waiting : Caller
  answered : Result Response → Caller
  gave_up : Bytes → Caller

-- The goroutine is in EncodeReq or doInvoke, at its send with resp and err set, at close(ch), or has
-- returned; or it has panicked, which ends the program.
pub data Worker : Type 0 where
  working : Worker
  offering : Result Response → Worker
  closing : Worker
  ended : Worker
  panicked : Worker

pub record Race : Type 0 where
  pub caller : Caller
  pub worker : Worker
  pub ctx_err : Option Bytes

-- Invoke from its start: no goroutine where the context has ended.
abbrev pub start_race : Option Bytes → Race
start_race none = record { caller = waiting; worker = working; ctx_err = none }
start_race (some e) = record { caller = gave_up e; worker = ended; ctx_err = some e }

-- `outcome` is what the goroutine's EncodeReq and doInvoke come to.
module _ (outcome : Outcome (Result Response)) where
  -- The steps of the goroutine and of the channel.
  pub data OwnStep : Race → Race → Type 0 where
    work :
        (s : Race) (r : Result Response)
        → s.worker ≡ working
        → outcome ≡ ok r
        → OwnStep s (record s { worker = offering r })
    crash :
        (s : Race)
        → s.worker ≡ working
        → outcome ≡ panic
        → OwnStep s (record s { worker = panicked })
    hand_over :
        (s : Race) (r : Result Response)
        → s.caller ≡ waiting
        → s.worker ≡ offering r
        → OwnStep s (record s { caller = answered r; worker = closing })
    close_channel : (s : Race) → s.worker ≡ closing → OwnStep s (record s { worker = ended })

  -- Those, the end of the context, and the return at ctx.Done(), as long as the program runs.
  pub data Step : Race → Race → Type 0 where
    own : (s t : Race) → OwnStep s t → Step s t
    expire :
        (s : Race) (e : Bytes)
        → s.worker ≢ panicked
        → s.ctx_err ≡ none
        → Step s (record s { ctx_err = some e })
    give_up :
        (s : Race) (e : Bytes)
        → s.worker ≢ panicked
        → s.caller ≡ waiting
        → s.ctx_err ≡ some e
        → Step s (record s { caller = gave_up e })

  pub data Run (s : Race) : Race → Type 0 where
    stay : Run s s
    step : (t u : Race) → Run s t → Step t u → Run s u

  -- Runs in which the context does nothing.
  pub data OwnRun (s : Race) : Race → Type 0 where
    still : OwnRun s s
    onward : (t u : Race) → OwnRun s t → OwnStep t u → OwnRun s u
