-- ===== src/Observability/Tests.antt =====
-- Runs of the interceptors on one call.
use emicro.Common.{◌+◌, ◌≡◌, refl, none, [], ◌∷◌, arith}
use emicro.Common.Maps.{Bytes, bytes_of}
use emicro.Observability.Methods.{slash, split_method_name, split_method_name-joined}
use emicro.Observability.Metrics.{Builder, req_add, req_sub, observed}
use emicro.Observability.Metrics.Balance.{
  State, Run, stay, step, begins, ends, Run-active, adds, subs, active,
}

-- /UserService/GetByID
get_by_id :
    (split_method_name (slash ∷ bytes_of "UserService/GetByID")
      ≡ (bytes_of "UserService", bytes_of "GetByID"))
unfolding split_method_name
get_by_id = refl

split_method_name-joined_example :
    (split_method_name (bytes_of "/u/g") ≡ (bytes_of "u", bytes_of "g"))
    × (split_method_name (bytes_of "u/g") ≡ (bytes_of "u", bytes_of "g"))
    × (split_method_name (bytes_of "/u") ≡ (bytes_of "unknown", bytes_of "unknown"))
split_method_name-joined_example =
    split_method_name-joined (bytes_of "u") (bytes_of "g") (λ e. cc) ((omega arith), tt)

abbrev builder : Builder
builder = record {
  namespace = bytes_of "n";
  subsystem = bytes_of "s";
  name = bytes_of "user";
  help = [];
  port = bytes_of "8081";
}

abbrev get : Bytes
get = bytes_of "/u/g"

abbrev one_left : State
one_left = (
  req_add (get ∷ []) ∷ req_add (get ∷ []) ∷ req_sub (get ∷ []) ∷ observed (get ∷ []) ∷ [],
  get ∷ [],
)

-- Two calls begin and one ends.
one_left-Run : Run builder (bytes_of "h") ([], []) one_left
one_left-Run =
    step _ _ (step _ _ (step _ _ stay (begins [] [] get)) (begins _ _ get))
      (ends _ [] (get ∷ []) get none)

Run-active_example : adds get one_left.0 ≡ subs get one_left.0 + active get one_left.1
Run-active_example = Run-active builder (bytes_of "h") one_left get one_left-Run
