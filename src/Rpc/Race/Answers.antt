-- ===== src/Rpc/Race/Answers.antt =====
-- rpc/client.go: what Invoke returns, and what becomes of its goroutine.
use emicro.Common.{
  ◌≡◌, ◌≢◌, refl, sym, ap, ◌∙◌, ◌⊎◌, inl, inr, Option, none, some, Outcome, ok, panic,
}
use emicro.Common.Maps.{Bytes}
use emicro.Message.Response.{Response}
use emicro.Rpc.Codec.{Result}
use emicro.Rpc.Race.{
  waiting, answered, gave_up, Worker, working, offering, closing, ended, panicked, Race, start_race,
  OwnStep, work, crash, hand_over, close_channel, Step, own, expire, give_up, Run, stay, step,
  OwnRun, still, onward,
}

offering-injective : (r r' : Result Response) → offering r ≡ offering r' → r ≡ r'
offering-injective r r' e = cc

answered-injective : (r r' : Result Response) → answered r ≡ answered r' → r ≡ r'
answered-injective r r' e = cc

ok-injective : (r r' : Result Response) → ok r ≡ ok r' → r ≡ r'
ok-injective r r' e = cc

module _ (outcome : Outcome (Result Response)) where
  -- What holds at every point of a call.
  record Sound (s : Race) : Type 0 where
    answer : (r : Result Response) → s.caller ≡ answered r → outcome ≡ ok r
    gone : (e : Bytes) → s.caller ≡ gave_up e → s.ctx_err ≡ some e
    offer : (r : Result Response) → s.worker ≡ offering r → outcome ≡ ok r
    fallen : s.worker ≡ panicked → outcome ≡ panic
    idle : (s.worker ≡ closing) ⊎ (s.worker ≡ ended) → s.caller ≢ waiting

  start-Sound : (ctx_err : Option Bytes) → Sound (start_race ctx_err)
  start-Sound none = record {
    answer = λ r e. cc;
    gone = λ e h. cc;
    offer = λ r e. cc;
    fallen = λ e. cc;
    idle = λ h. elim h [ inl e ↦ cc | inr e ↦ cc ];
  }
  start-Sound (some x) = record {
    answer = λ r e. cc;
    gone = λ e h. cc;
    offer = λ r e. cc;
    fallen = λ e. cc;
    idle = λ h e. cc;
  }

  own-Sound : (s t : Race) → OwnStep outcome s t → Sound s → Sound t
  own-Sound s t (work _ r at gives) k = record {
    answer = k.answer;
    gone = k.gone;
    offer = λ r' e. rw (← offering-injective r r' e) gives;
    fallen = λ e. cc;
    idle = λ h. elim h [ inl e ↦ cc | inr e ↦ cc ];
  }
  own-Sound s t (crash _ at panics) k = record {
    answer = k.answer;
    gone = k.gone;
    offer = λ r' e. cc;
    fallen = λ e. panics;
    idle = λ h. elim h [ inl e ↦ cc | inr e ↦ cc ];
  }
  own-Sound s t (hand_over _ r at offered) k = record {
    answer = λ r' e. rw (← answered-injective r r' e) (k.offer r offered);
    gone = λ e h. cc;
    offer = λ r' e. cc;
    fallen = λ e. cc;
    idle = λ h e. cc;
  }
  own-Sound s t (close_channel _ at) k = record {
    answer = k.answer;
    gone = k.gone;
    offer = λ r' e. cc;
    fallen = λ e. cc;
    idle = λ h. k.idle (inl at);
  }

  step-Sound : (s t : Race) → Step outcome s t → Sound s → Sound t
  step-Sound s t (own _ _ h) k = own-Sound s t h k
  step-Sound s t (expire _ e runs on) k = record {
    answer = k.answer;
    gone = λ e' h. (let over = k.gone e' h in cc);
    offer = k.offer;
    fallen = k.fallen;
    idle = k.idle;
  }
  step-Sound s t (give_up _ e runs at over) k = record {
    answer = λ r' h. cc;
    gone = λ e' h. cc;
    offer = k.offer;
    fallen = k.fallen;
    idle = λ h e'. cc;
  }

  Run-Sound : (ctx_err : Option Bytes) (s : Race) → Run outcome (start_race ctx_err) s → Sound s
  Run-Sound ctx_err s stay = start-Sound ctx_err
  Run-Sound ctx_err s (step t _ r e) = step-Sound t s e (Run-Sound ctx_err t r)

  -- A caller that waits gets the goroutine's result.
  served :
      (s : Race) (r : Result Response)
      → Sound s
      → s.caller ≡ waiting
      → outcome ≡ ok r
      → (w : Worker) → s.worker ≡ w
      → (t : Race) × OwnRun outcome s t × (t.caller ≡ answered r)
  served s r k at gives working e =
      let offered = record s { worker = offering r } in
      (
        _,
        onward offered _ (onward s _ still (work s r e gives)) (hand_over offered r at refl),
        refl,
      )
  served s r k at gives (offering r') e =
      let same : offering r' ≡ offering r =
        ap offering (ok-injective r' r (sym (k.offer r' e) ∙ gives)) in
      (_, onward s _ still (hand_over s r at (rw same at e)), refl)
  served s r k at gives closing e = absurd (k.idle (inl e) at)
  served s r k at gives ended e = absurd (k.idle (inr e) at)
  served s r k at gives panicked e = let other = k.fallen e in cc

  -- A panic of the goroutine comes about.
  falls :
      (s : Race)
      → Sound s
      → s.caller ≡ waiting
      → outcome ≡ panic
      → (w : Worker) → s.worker ≡ w
      → (t : Race) × OwnRun outcome s t × (t.worker ≡ panicked)
  falls s k at panics working e = (_, onward s _ still (crash s e panics), refl)
  falls s k at panics (offering r) e = let other = k.offer r e in cc
  falls s k at panics closing e = absurd (k.idle (inl e) at)
  falls s k at panics ended e = absurd (k.idle (inr e) at)
  falls s k at panics panicked e = (s, still, e)

  -- Whatever the interleaving of Invoke with its goroutine: a result that it returns is the one that
  -- EncodeReq and doInvoke gave, and an error of the context that it returns is the one that the context
  -- ended with. Where it waits, it needs no end of its context to go on: where EncodeReq and doInvoke
  -- return, the goroutine's own steps bring it to return their result, and where they panic, those steps
  -- end the program.
  pub invoke_lem :
      (ctx_err : Option Bytes) (s : Race)
      → Run outcome (start_race ctx_err) s
      → ((r : Result Response) → s.caller ≡ answered r → outcome ≡ ok r)
        × ((e : Bytes) → s.caller ≡ gave_up e → s.ctx_err ≡ some e)
        × ((r : Result Response)
            → s.caller ≡ waiting
            → outcome ≡ ok r
            → (t : Race) × OwnRun outcome s t × (t.caller ≡ answered r))
        × (s.caller ≡ waiting
            → outcome ≡ panic
            → (t : Race) × OwnRun outcome s t × (t.worker ≡ panicked))
  invoke_lem ctx_err s run =
      let k = Run-Sound ctx_err s run in
      (
        k.answer,
        k.gone,
        (λ r at gives. served s r k at gives s.worker refl),
        λ at panics. falls s k at panics s.worker refl,
      )

  record Left (s : Race) : Type 0 where
    away : s.caller ≢ waiting
    unclosed : s.worker ≢ closing
    unended : s.worker ≢ ended

  own-Left : (s t : Race) → OwnStep outcome s t → Left s → Left t
  own-Left s t (work _ r at gives) k = record {
    away = k.away;
    unclosed = λ e. cc;
    unended = λ e. cc;
  }
  own-Left s t (crash _ at panics) k = record {
    away = k.away;
    unclosed = λ e. cc;
    unended = λ e. cc;
  }
  own-Left s t (hand_over _ r at offered) k = absurd (k.away at)
  own-Left s t (close_channel _ at) k = absurd (k.unclosed at)

  step-Left : (s t : Race) → Step outcome s t → Left s → Left t
  step-Left s t (own _ _ h) k = own-Left s t h k
  step-Left s t (expire _ e runs on) k = record {
    away = k.away;
    unclosed = k.unclosed;
    unended = k.unended;
  }
  step-Left s t (give_up _ e runs at over) k = absurd (k.away at)

  -- Where Invoke gives up before its goroutine has sent, the goroutine never returns: it stays at its
  -- send on the channel.
  goroutine_leaks :
      (s t : Race) (e : Bytes)
      → s.caller ≡ gave_up e
      → s.worker ≢ closing
      → s.worker ≢ ended
      → Run outcome s t
      → t.worker ≢ ended
  goroutine_leaks s t e gone unclosed unended run = (left t run).unended
    where
      left : (t : Race) → Run outcome s t → Left t
      left t stay = record { away = λ h. cc; unclosed = unclosed; unended = unended }
      left t (step u _ r h) = step-Left u t h (left u r)
