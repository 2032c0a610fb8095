-- ===== src/Cluster/Channel.antt =====
-- cluster/broadcastall/cluster.go and cluster/fastest/cluster.go: the goroutines of the instances and
-- the channel without a buffer that they share with the caller, step by step.
pub mod Delivery
mod Tests
use emicro.Common.{
  ℕ, ◌≡◌, Bool, true, false, ◌&&◌, Option, none, some, List, [], ◌∷◌, map, get_elem?, adjust,
  if◌then◌else◌,
}
use emicro.Common.Maps.{Bytes}
use emicro.Discovery.Etcd.{ServiceInstance}
use emicro.Cluster.Responses.{Resp, Asking, offer}

pub data Cluster : Type 0 where
  broadcastall : Cluster
  fastest : Cluster

-- A goroutine: before the answer of its instance, at its send, or behind wg.Done with a response that
-- the caller has received or that nobody has.
pub data Phase (V : Type 0) : Type 0 where
  calling : Phase V
  sending : Resp V → Phase V
  sent : Resp V → Phase V
  dropped : Phase V

pub record Goroutine (V : Type 0) : Type 0 where
  pub instance_ : ServiceInstance
  pub phase : Phase V

-- `received` has the last response first; `ctx_done` that the caller's context has ended.
pub record Channel (V : Type 0) : Type 0 where
  pub goroutines : List (Goroutine V)
  pub received : List (Resp V)
  pub ctx_done : Bool
  pub closed : Bool

abbrev pub starting : {V : Type 0} → ServiceInstance → Goroutine V
starting ins = record { instance_ = ins; phase = calling }

abbrev pub started : {V : Type 0} → List ServiceInstance → Channel V
started instances = record {
  goroutines = map starting instances;
  received = [];
  ctx_done = false;
  closed = false;
}

abbrev pub move : {V : Type 0} → Phase V → Goroutine V → Goroutine V
move phase g = record g { phase = phase }

abbrev pub is_finished : {V : Type 0} → Goroutine V → Bool
is_finished g = elim (g.phase) [
  | calling ↦ false
  | sending r ↦ false
  | sent r ↦ true
  | dropped ↦ true
]

-- wg.Wait: every goroutine has called wg.Done.
abbrev pub all_finished : {V : Type 0} → List (Goroutine V) → Bool
all_finished [] = true
all_finished (g ∷ gs) = is_finished g && all_finished gs

-- What lets a send go by that nobody receives: in broadcastall the end of the context, in fastest the
-- default case.
abbrev pub may_drop : Cluster → Bool → Bool
may_drop broadcastall ctx_done = ctx_done
may_drop fastest ctx_done = true

module _ {V : Type 0} (cluster : Cluster) (asking : Asking V) where
  -- The response after an error of grpc.Dial is sent by a plain send, which nothing lets go by.
  pub data Step : Channel V → Channel V → Type 0 where
    answer :
        (c : Channel V) (i : ℕ) (ins : ServiceInstance)
        → get_elem? c.goroutines i ≡ some (record { instance_ = ins; phase = calling })
        → Step c
            (record c { goroutines = adjust (move (sending (offer asking ins))) i c.goroutines })
    receive :
        (c : Channel V) (i : ℕ) (ins : ServiceInstance) (r : Resp V)
        → get_elem? c.goroutines i ≡ some (record { instance_ = ins; phase = sending r })
        → Step c (record c {
          goroutines = adjust (move (sent r)) i c.goroutines;
          received = r ∷ c.received;
        })
    drop :
        (c : Channel V) (i : ℕ) (ins : ServiceInstance) (r : Resp V)
        → get_elem? c.goroutines i ≡ some (record { instance_ = ins; phase = sending r })
        → asking.dial ins ≡ none
        → may_drop cluster c.ctx_done ≡ true
        → Step c (record c { goroutines = adjust (move dropped) i c.goroutines })
    expire : (c : Channel V) → Step c (record c { ctx_done = true })
    close :
        (c : Channel V)
        → all_finished c.goroutines ≡ true
        → c.closed ≡ false
        → Step c (record c { closed = true })

  pub data Run (c : Channel V) : Channel V → Type 0 where
    stay : Run c c
    step : (d e : Channel V) → Run c d → Step d e → Run c e
