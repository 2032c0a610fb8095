-- ===== src/Discovery/Subscribe.antt =====
-- Subscribe and Close of registry/etcd/registry.go: the goroutine of one subscription, step by step,
-- and the cancel functions that the registry keeps. etcd's watch channel offers any responses; a
-- channel that is closed offers the empty response.
pub mod Delivery
mod Tests
use emicro.Common.{
  ◌≡◌, ℕ, Bool, true, false, Option, none, some, List, [], ◌∷◌, ◌++◌, if◌then◌else◌,
}
use emicro.Common.Maps.{Bytes}
use emicro.Rpc.Codec.{Result, returned, failed}
use emicro.Discovery.Etcd.{ServiceInstance, Json}

pub data EventType : Type 0 where
  unknown : EventType
  add : EventType
  delete : EventType

pub record Event : Type 0 where
  pub kind : EventType
  pub instance_ : ServiceInstance
  pub error : Option Bytes

-- mvccpb.Event_EventType
pub data WatchType : Type 0 where
  put : WatchType
  deletion : WatchType

pub record WatchEvent : Type 0 where
  pub kind : WatchType
  pub value : Bytes

-- `failed` says that Err() is not nil.
pub record WatchResponse : Type 0 where
  pub failed : Bool
  pub canceled : Bool
  pub events : List WatchEvent

abbrev pub types_map : WatchType → EventType
types_map put = add
types_map deletion = delete

abbrev pub no_instance : ServiceInstance
no_instance = record { name = []; address = []; weight = 0; group = [] }

-- Where the goroutine is: at the outer select, at one of the two sends with what is left of a
-- response, or behind its return.
pub data Phase : Type 0 where
  selecting : Phase
  sending : Event → List WatchEvent → Phase
  ended : Phase

pub record Subscription : Type 0 where
  pub phase : Phase
  pub cancelled : Bool
  pub closed : Bool

abbrev pub subscribed : Subscription
subscribed = record { phase = selecting; cancelled = false; closed = false }

pub data Act : Type 0 where
  received : WatchResponse → Act
  delivered : Event → Act
  finished : Act
  cancelled : Act

module _ (json : Json) where
  -- What is sent for an event of etcd.
  abbrev pub event_of : WatchEvent → Event
  event_of event = elim (json.unmarshal event.value) [
    | failed e ↦ record { kind = unknown; instance_ = no_instance; error = some e }
    | returned ins ↦ record { kind = types_map event.kind; instance_ = ins; error = none }
  ]

  -- The loop over the events of a response.
  abbrev pub next_event : List WatchEvent → Phase
  next_event [] = selecting
  next_event (event ∷ rest) = sending (event_of event) rest

  unfoldable pub on_response : WatchResponse → Phase
  on_response resp =
      if resp.failed then selecting else if resp.canceled then ended else next_event resp.events

  pub data Step : Subscription → Act → Subscription → Type 0 where
    receive :
        (s : Subscription) (resp : WatchResponse)
        → s.phase ≡ selecting
        → Step s (received resp) (record s { phase = on_response resp })
    deliver :
        (s : Subscription) (event : Event) (rest : List WatchEvent)
        → s.phase ≡ sending event rest
        → Step s (delivered event) (record s { phase = next_event rest })
    give_up :
        (s : Subscription) (event : Event) (rest : List WatchEvent)
        → s.phase ≡ sending event rest
        → s.cancelled ≡ true
        → Step s finished (record s { phase = ended; closed = true })
    quit :
        (s : Subscription)
        → s.phase ≡ selecting
        → s.cancelled ≡ true
        → Step s finished (record s { phase = ended })
    cancel : (s : Subscription) → Step s cancelled (record s { cancelled = true })

  pub data Run : Subscription → List Act → Subscription → Type 0 where
    stop : (s : Subscription) → Run s [] s
    next :
        (s t u : Subscription) (act : Act) (acts : List Act)
        → Step s act t
        → Run t acts u
        → Run s (act ∷ acts) u

-- The cancel functions of the registry, known by their subscriptions.
pub record Registry : Type 0 where
  pub watch_cancels : List ℕ

abbrev pub subscribe : ℕ → Registry → Registry
subscribe id r = record { watch_cancels = r.watch_cancels ++ (id ∷ []) }

-- NewRegistry, on what concurrency.NewSession gives.
abbrev pub new_registry : {S : Type 0} → Result S → Result Registry
new_registry (failed err) = failed err
new_registry (returned sess) = returned (record { watch_cancels = [] })

-- What Close cancels, and the registry after it; the session's Close gives its result.
abbrev pub close_registry : Registry → List ℕ × Registry
close_registry r = (r.watch_cancels, record { watch_cancels = [] })
