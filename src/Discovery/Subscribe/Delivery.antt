-- ===== src/Discovery/Subscribe/Delivery.antt =====
-- registry/etcd/registry.go: which events a subscription delivers.
use mathlib.Core.List.{append-nil, map-append}
use emicro.Common.{
  ◌≡◌, ◌≢◌, refl, sym, ap, ◌∙◌, Bool-cases, inl, inr, List, [], ◌∷◌, ◌++◌, map, if◌then◌else◌,
}
use emicro.Discovery.Etcd.{Json}
use emicro.Rpc.Codec.{failed}
use emicro.Discovery.Subscribe.{
  Event, WatchEvent, deletion, WatchResponse, Phase, selecting, sending, ended, Subscription,
  subscribed, Act, received, delivered, finished, cancelled, event_of, next_event, on_response,
  receive, deliver, give_up, quit, cancel, Run, stop, next,
}

-- The events that the goroutine takes from a response.
abbrev pub taken : WatchResponse → List WatchEvent
taken resp = if resp.failed then [] else if resp.canceled then [] else resp.events

abbrev pub all_taken : List Act → List WatchEvent
all_taken [] = []
all_taken (received resp ∷ acts) = taken resp ++ all_taken acts
all_taken (delivered event ∷ acts) = all_taken acts
all_taken (finished ∷ acts) = all_taken acts
all_taken (cancelled ∷ acts) = all_taken acts

abbrev pub all_delivered : List Act → List Event
all_delivered [] = []
all_delivered (delivered event ∷ acts) = event ∷ all_delivered acts
all_delivered (received resp ∷ acts) = all_delivered acts
all_delivered (finished ∷ acts) = all_delivered acts
all_delivered (cancelled ∷ acts) = all_delivered acts

module _ (json : Json) where
  -- What the goroutine has taken and not yet sent.
  abbrev pub unsent : Phase → List Event
  unsent selecting = []
  unsent (sending event rest) = event ∷ map (event_of json) rest
  unsent ended = []

  -- The delivered events are the first of those expected; the rest is what the goroutine still has to
  -- send, unless it has ended.
  pub record Delivers (sent expected : List Event) (phase : Phase) : Type 0 where
    pub lost : List Event
    pub in_order : sent ++ lost ≡ expected
    pub kept : phase ≢ ended → lost ≡ unsent phase

  unsent-next_event :
      (rest : List WatchEvent) → unsent (next_event json rest) ≡ map (event_of json) rest
  unsent-next_event [] = refl
  unsent-next_event (event ∷ rest) = refl

  unsent-on_response :
      (resp : WatchResponse) → unsent (on_response json resp) ≡ map (event_of json) (taken resp)
  unfolding on_response
  unsent-on_response resp = elim (Bool-cases resp.failed) [
    | inl bad ↦ rw (bad, on_response) refl
    | inr good ↦ elim (Bool-cases resp.canceled) [
      | inl over ↦ rw (good, over, on_response) refl
      | inr on ↦ rw (good, on, on_response) (unsent-next_event resp.events)
    ]
  ]

  -- Behind its return the goroutine takes and sends nothing.
  ended_stays :
      (s t : Subscription) (acts : List Act)
      → Run json s acts t
      → s.phase ≡ ended
      → (all_delivered acts ≡ []) × (all_taken acts ≡ []) × (t.phase ≡ ended)
  ended_stays s t acts (stop _) over = (refl, refl, over)
  ended_stays s t acts (next _ u _ act acts' (receive _ resp at) r) over = cc
  ended_stays s t acts (next _ u _ act acts' (deliver _ event rest at) r) over = cc
  ended_stays s t acts (next _ u _ act acts' (give_up _ event rest at c) r) over = cc
  ended_stays s t acts (next _ u _ act acts' (quit _ at c) r) over = cc
  ended_stays s t acts (next _ u _ act acts' (cancel _) r) over = ended_stays _ t acts' r over

  Delivers-ended :
      (s u t : Subscription) (acts : List Act)
      → Run json u acts t
      → u.phase ≡ ended
      → Delivers
          (all_delivered acts)
          (unsent s.phase ++ map (event_of json) (all_taken acts))
          t.phase
  Delivers-ended s u t acts r over =
      let (none_sent, none_taken, still) = ended_stays u t acts r over in
      record {
        lost = unsent s.phase;
        in_order = rw (none_sent, none_taken) (sym (append-nil (unsent s.phase)));
        kept = λ h. absurd (h still);
      }

  Delivers-Run :
      (s t : Subscription) (acts : List Act)
      → Run json s acts t
      → Delivers
          (all_delivered acts)
          (unsent s.phase ++ map (event_of json) (all_taken acts))
          t.phase
  Delivers-Run s t acts (stop _) = record {
    lost = unsent s.phase;
    in_order = sym (append-nil (unsent s.phase));
    kept = λ h. refl;
  }
  Delivers-Run s t acts (next _ u _ act acts' (receive _ resp at) r) =
      let rest = Delivers-Run _ t acts' r in
      record {
        lost = rest.lost;
        in_order = rw at (
            rest.in_order
            ∙ (ap (λ es. es ++ map (event_of json) (all_taken acts')) (unsent-on_response resp)
                ∙ sym (map-append (event_of json) (taken resp) (all_taken acts'))));
        kept = rest.kept;
      }
  Delivers-Run s t acts (next _ u _ act acts' (deliver _ event rest at) r) =
      let more = Delivers-Run _ t acts' r in
      record {
        lost = more.lost;
        in_order = rw at (
            ap (◌∷◌ event) (
              more.in_order
              ∙ ap (λ es. es ++ map (event_of json) (all_taken acts')) (unsent-next_event rest)));
        kept = more.kept;
      }
  Delivers-Run s t acts (next _ u _ act acts' (give_up _ event rest at c) r) =
      Delivers-ended s _ t acts' r refl
  Delivers-Run s t acts (next _ u _ act acts' (quit _ at c) r) = Delivers-ended s _ t acts' r refl
  Delivers-Run s t acts (next _ u _ act acts' (cancel _) r) = Delivers-Run _ t acts' r

  -- A subscription delivers, each once and in order, the events of the responses that it receives
  -- without an error, and none beside them. As long as its goroutine runs, only those are missing that
  -- it holds to send next.
  pub Delivers-subscribed :
      (acts : List Act) (t : Subscription)
      → Run json subscribed acts t
      → Delivers (all_delivered acts) (map (event_of json) (all_taken acts)) t.phase
  Delivers-subscribed acts t r = Delivers-Run subscribed t acts r

  abbrev pub IsBare : WatchEvent → Type 0
  IsBare event = event.kind ≡ deletion → event.value ≡ []
