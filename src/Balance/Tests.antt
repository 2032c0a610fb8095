-- ===== src/Balance/Tests.antt =====
-- Runs of the pickers on concrete connections.
mod Together
use mathlib.Core.List.{Permᴰ}
use mathlib.Core.Quot
use emicro.Common.{
  ok, ◌>>=◌, ℕ, ◌-◌, ◌%◌, ◌^◌, ◌≡◌, ◌⊎◌, refl, true, false, none, some, List, [], ◌∷◌, All, map,
  arith,
}
use emicro.Common.Maps.{Bytes, bytes_of}
use emicro.Balance.Best.{best_from}
use emicro.Balance.Types.{str, u32, Address, PickInfo, group_key, group_filter, or_all}
use emicro.Balance.RoundRobin
use emicro.Balance.RoundRobin.Fairness.{picks, picks_once}
use emicro.Balance.LeastActive
use emicro.Balance.LeastActive.Choice.{PicksLeast, NothingToPick, pick_least, pick_done-pick}
use emicro.Balance.WeightRoundRobin
use emicro.Balance.WeightRoundRobin.{WeightConn, WeightPicker, reweigh}
use emicro.Balance.WeightRoundRobin.Loop.{sum_current}
use emicro.Balance.WeightRoundRobin.Choice.{
  PicksHeaviest, pick_heaviest, sum_current-pick, after_loop,
}
use emicro.Balance.Random
use emicro.Balance.WeightRandom
use emicro.Balance.WeightRandom.Order.{ReadyConns, total_ready, build-total_ready}
use emicro.Balance.WeightRandom.Choice.{pick-none_iff, pick_share}
use emicro.Balance.Fastest
use emicro.Balance.Fastest.{fastest, Locked, returned}

abbrev pub at : Bytes → ℕ → Address
at name weight = record {
  addr = name;
  server_name = [];
  attributes = (group_key, str name) ∷ (bytes_of "weight", u32 weight) ∷ [];
}

abbrev pub ready : List (ℕ × Address)
ready = (1, at (bytes_of "a") 3) ∷ (2, at (bytes_of "b") 1) ∷ (3, at (bytes_of "a") 2) ∷ []

abbrev pub anyone : PickInfo
anyone = record { ctx = [] }

abbrev pub in_a : PickInfo
in_a = record { ctx = (group_key, str (bytes_of "a")) ∷ [] }

abbrev pub turn : RoundRobin.Picker
turn = record {
  cnt = 4;
  connections = map RoundRobin.new_conn ready;
  filter = λ info address. true;
}

picks_once_example :
    picks 3 turn anyone
    ≡ map some (
        RoundRobin.new_conn (2, at (bytes_of "b") 1)
        ∷ RoundRobin.new_conn (3, at (bytes_of "a") 2)
        ∷ RoundRobin.new_conn (1, at (bytes_of "a") 3)
        ∷ [])
picks_once_example = picks_once turn anyone (omega arith) (omega arith)

abbrev pub busy : LeastActive.Picker
busy = record {
  cnt = 0;
  filter = group_filter;
  connections =
      record { name = []; active = 2; sub_conn = 1; address = at (bytes_of "a") 3 }
      ∷ record { name = []; active = 0; sub_conn = 2; address = at (bytes_of "b") 1 }
      ∷ record { name = []; active = 1; sub_conn = 3; address = at (bytes_of "a") 2 }
      ∷ [];
}

pick_least_example :
    ((LeastActive.pick busy in_a ≡ (none, busy)) × NothingToPick busy in_a)
    ⊎ ((i : ℕ) × PicksLeast busy in_a i)
pick_least_example = pick_least busy in_a

least_picked : LeastActive.pick busy in_a ≡ (some 2, (LeastActive.pick busy in_a).1)
unfolding LeastActive.pick group_filter best_from
least_picked = refl

abbrev pub weighted : ℕ → ℕ → ℕ → Address → WeightConn
weighted weight current sub address = record {
  name = address.addr;
  weight = weight;
  current_weight = current;
  efficient_weight = weight;
  available = false;
  sub_conn = sub;
  address = address;
}

abbrev pub weights : WeightPicker
weights = record {
  connections =
      weighted 3 3 1 (at (bytes_of "a") 3)
      ∷ weighted 1 1 2 (at (bytes_of "b") 1)
      ∷ weighted 2 2 3 (at (bytes_of "a") 2)
      ∷ [];
  filter = group_filter;
}

pick_heaviest_example :
    ((WeightRoundRobin.pick weights in_a ≡ (none, weights))
      × All
          (λ c. WeightRoundRobin.passes weights in_a c ≡ true → true ≡ false)
          (after_loop weights in_a))
    ⊎ ((i : ℕ) × PicksHeaviest weights in_a i)
pick_heaviest_example = pick_heaviest weights in_a

abbrev pub drawn_from : Random.Picker
drawn_from = record { connections = map Random.new_conn ready; filter = λ info address. true }

abbrev pub tickets : ℕ → ℕ → Address → WeightRandom.WeightConn
tickets weight sub address = record {
  name = [];
  weight = weight;
  sub_conn = sub;
  address = address;
}

abbrev pub lottery : WeightRandom.WeightPicker
lottery = record {
  connections =
      tickets 3 1 (at (bytes_of "a") 3)
      ∷ tickets 1 2 (at (bytes_of "b") 1)
      ∷ tickets 2 3 (at (bytes_of "a") 2)
      ∷ [];
  filter = λ info address. true;
}

-- The last of the draws.
pick_share_example :
    WeightRandom.pick (λ n. n - 1) lottery anyone ≡ some (tickets 2 3 (at (bytes_of "a") 2))
unfolding WeightRandom.Choice.sum_weights
pick_share_example = pick_share (λ n. n - 1) lottery anyone (λ e. cc) (omega arith)

abbrev pub timed : ℕ → ℕ → Address → Fastest.Conn
timed duration sub address = record { sub_conn = sub; address = address; resp_duration = duration }

abbrev pub times : Fastest.Picker
times = record {
  connections =
      timed 30 1 (at (bytes_of "a") 3)
      ∷ timed 10 2 (at (bytes_of "b") 1)
      ∷ timed 20 3 (at (bytes_of "a") 2)
      ∷ [];
  mutex = record { writer = false; readers = 0 };
  filter = group_filter;
}

-- Weights of 3 and 2: after the first pick the current weight 6 - 5 is low enough for the other's turn.
weighted_turn :
    let p = (WeightRoundRobin.pick weights in_a).1 in (WeightRoundRobin.pick p in_a).0 ≡ some 2
unfolding WeightRoundRobin.pick WeightRoundRobin.visit WeightRoundRobin.settle group_filter
weighted_turn = refl

-- The ready connections of one map, in the two orders that it can be ranged over in.
abbrev pub ranged : List (ℕ × Address)
ranged = (1, at (bytes_of "a") 3) ∷ (2, at (bytes_of "b") 2) ∷ []

abbrev pub ranged_back : List (ℕ × Address)
ranged_back = (2, at (bytes_of "b") 2) ∷ (1, at (bytes_of "a") 3) ∷ []

one_map : ◌≡◌ {A = ReadyConns} (Quot.mk ranged) (Quot.mk ranged_back)
one_map = Quot.sound (Permᴰ.swap refl refl)

build-total_ready_example :
    (do
      p ← WeightRandom.build none ranged
      ok (WeightRandom.total_weight (WeightRandom.passes p anyone) 0 p.connections))
    ≡ total_ready (or_all none) anyone (Quot.mk ranged)
build-total_ready_example = build-total_ready none anyone ranged
