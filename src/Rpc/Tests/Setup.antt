-- ===== src/Rpc/Tests/Setup.antt =====
-- Runs of the client's set-up and of its race, and of the server's loop.
use emicro.Common.{◌≡◌, ok, panic, refl, true, false, none, some, List, [], ◌∷◌}
use emicro.Common.Maps.{Bytes, bytes_of}
use emicro.Message.Response.{Response}
use emicro.Rpc.Codec.{Result, failed, oneway_error}
use emicro.Rpc.Race.{
  Race, start_race, waiting, working, gave_up, answered, panicked, OwnRun, expire, give_up, Run,
  stay, step,
}
use emicro.Rpc.Race.Answers.{invoke_lem}
use emicro.Rpc.Fields.{Field}
use emicro.Rpc.Accept.{Accepted, conn, another}

-- doInvoke of a one-way call.
abbrev one_way : Result Response
one_way = failed oneway_error

-- The context ends while doInvoke runs, and the caller leaves.
abbrev left : Race
left = record {
  caller = gave_up (bytes_of "deadline");
  worker = working;
  ctx_err = some (bytes_of "deadline");
}

leaving : Run (ok one_way) (start_race none) left
leaving =
    step _ _ (step _ _ stay (expire _ (bytes_of "deadline") (λ e. cc) refl))
      (give_up _ (bytes_of "deadline") (λ e. cc) refl refl)

invoke_lem_example :
    ((r : Result Response) → left.caller ≡ answered r → ok one_way ≡ ok r)
    × ((e : Bytes) → left.caller ≡ gave_up e → left.ctx_err ≡ some e)
    × ((r : Result Response)
        → left.caller ≡ waiting
        → ok one_way ≡ ok r
        → (t : Race) × OwnRun (ok one_way) left t × (t.caller ≡ answered r))
    × (left.caller ≡ waiting
        → ok one_way ≡ panic
        → (t : Race) × OwnRun (ok one_way) left t × (t.worker ≡ panicked))
invoke_lem_example = invoke_lem (ok one_way) none left leaving

-- A service with two functions, of which one is not exported.
abbrev fields : List (Field Bytes)
fields =
    record { name = bytes_of "Get"; can_set = true; is_func = true; value = none }
    ∷ record { name = bytes_of "get"; can_set = false; is_func = true; value = none }
    ∷ []

abbrev wired : List (Field Bytes)
wired =
    record { name = bytes_of "Get"; can_set = true; is_func = true; value = some (bytes_of "Get") }
    ∷ record { name = bytes_of "get"; can_set = false; is_func = true; value = none }
    ∷ []

abbrev arrivals : List Accepted
arrivals = conn 1 ∷ another (bytes_of "too many open files") ∷ conn 2 ∷ []
