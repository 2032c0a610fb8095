-- ===== src/Balance/WeightRoundRobin/Turns/Alone.antt =====
-- loadbalance/roundrobin/weight_picker.go: a pick that no other runs beside.
use emicro.Common.{ℕ, Option, none, some, List}
use emicro.Balance.WeightRoundRobin.{WeightPicker}
use emicro.Balance.WeightRoundRobin.Choice
use emicro.Balance.WeightRoundRobin.Turns.{Turn, failed, picked}
use emicro.Balance.WeightRoundRobin.Turns.Tracks.{Tracks}

-- What the returned pick stands for.
abbrev returned_as : Option ℕ × WeightPicker → Turn × WeightPicker
returned_as (none, p) = (failed, p)
returned_as (some max, p) = (picked max, p)
