-- ===== src/Discovery/Subscribe/Tests.antt =====
-- A subscription that receives one instance and its end.
use emicro.Common.{refl, false, none, some, List, [], ◌∷◌, map}
use emicro.Common.Maps.{bytes_of}
use emicro.Rpc.Codec.{returned, failed}
use emicro.Discovery.Etcd.{ServiceInstance, Json}
use emicro.Discovery.Subscribe.{
  Event, add, unknown, put, deletion, WatchResponse, subscribed, selecting, Act, received,
  delivered, event_of, no_instance, receive, deliver, Run, stop, next, on_response,
}
use emicro.Discovery.Subscribe.Delivery.{Delivers, Delivers-subscribed, all_delivered, all_taken}

abbrev user : ServiceInstance
user = record { name = bytes_of "user"; address = bytes_of "h:1"; weight = 5; group = [] }

-- No bytes are no JSON; any others are the instance.
abbrev json : Json
json = record {
  marshal = λ ins. returned ins.address;
  unmarshal = λ bs. elim bs [ [] ↦ failed (bytes_of "end of input") | _ ∷ _ ↦ returned user ];
}

abbrev both : WatchResponse
both = record {
  failed = false;
  canceled = false;
  events =
      record { kind = put; value = bytes_of "{}" } ∷ record { kind = deletion; value = [] } ∷ [];
}

abbrev arrived : Event
arrived = record { kind = add; instance_ = user; error = none }

abbrev gone : Event
gone = record { kind = unknown; instance_ = no_instance; error = some (bytes_of "end of input") }

abbrev acts : List Act
acts = received both ∷ delivered arrived ∷ delivered gone ∷ []

both_delivered : Run json subscribed acts subscribed
unfolding on_response
both_delivered =
    next _ _ _ _ _ (receive _ both refl)
      (next _ _ _ _ _ (deliver _ arrived _ refl) (next _ _ _ _ _ (deliver _ gone _ refl) (stop _)))

Delivers-subscribed_example :
    Delivers json (all_delivered acts) (map (event_of json) (all_taken acts)) selecting
Delivers-subscribed_example = Delivers-subscribed json acts subscribed both_delivered
