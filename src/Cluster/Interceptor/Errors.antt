-- ===== src/Cluster/Interceptor/Errors.antt =====
-- cluster/fastest/cluster.go: the error that its interceptor returns.
use emicro.Common.{
  ℕ, ◌≡◌, ◌≢◌, refl, ◌⊎◌, inl, inr, Option-cases, true, Option, none, some, List, [], ◌∷◌, map,
  get_elem?, adjust, All, All-get, All-adjust, get_elem?-map,
}
use emicro.Common.Maps.{Bytes}
use emicro.Discovery.Etcd.{ServiceInstance}
use emicro.Cluster.Responses.{Asking, offer}
use emicro.Cluster.Channel.{
  fastest, Phase, calling, sending, sent, dropped, Goroutine, Channel, starting, started, move,
  is_finished, all_finished, Step, answer, receive, drop, expire, close, Run, stay, step,
}
use emicro.Cluster.Channel.Delivery.{Run-instances, Run-over, all_finished-All}
use emicro.Cluster.Interceptor.{
  Call, started_call, err_after, CallStep, goes, returns, CallRun, at_start, then_step,
}

-- The error is the one of a call to one of the instances, whose Dial succeeded.
abbrev pub IsAnswered : {V : Type 0} → Asking V → List ServiceInstance → Option Bytes → Type 0
IsAnswered asking instances e =
    (i : ℕ) × (ins : ServiceInstance) × (get_elem? instances i ≡ some ins)
    × (asking.dial ins ≡ none)
    × ((asking.invoke ins).0 ≡ e)

module _ {V : Type 0} (asking : Asking V) (ctx_err : Bytes) (instances : List ServiceInstance) where
  -- A goroutine that has not called the invoker, and will not where it is past its Dial.
  abbrev IsUnasked : Goroutine V → Type 0
  IsUnasked g = elim (g.phase) [
    | calling ↦ Unit {0}
    | sending r ↦ asking.dial g.instance_ ≢ none
    | sent r ↦ asking.dial g.instance_ ≢ none
    | dropped ↦ asking.dial g.instance_ ≢ none
  ]

  abbrev IsKnown : Channel V → Option Bytes → Type 0
  IsKnown c e = IsAnswered asking instances e ⊎ ((e ≡ none) × All IsUnasked c.goroutines)

  abbrev AllFail : Type 0
  AllFail = All (λ ins. asking.dial ins ≢ none) instances

  -- One goroutine goes on, and the error stays.
  on :
      (i : ℕ) (phase : Phase V) (g : Goroutine V) (c : Channel V) (e : Option Bytes)
      → get_elem? c.goroutines i ≡ some g
      → (IsUnasked g → IsUnasked (move phase g))
      → IsKnown c e
      → IsAnswered asking instances e
        ⊎ ((e ≡ none) × All IsUnasked (adjust (move phase) i c.goroutines))
  on i phase g c e at keep (inl a) = inl a
  on i phase g c e at keep (inr (nil, all)) = inr (
    nil,
    All-adjust IsUnasked (move phase) i c.goroutines g all at
        (keep (All-get IsUnasked c.goroutines i g all at)),
  )

  step-IsKnown :
      (c d : Channel V) (h : Step fastest asking c d) (e : Option Bytes)
      → Run fastest asking (started instances) c
      → IsKnown c e
      → IsKnown d (err_after fastest asking ctx_err h e)
  unfolding err_after
  step-IsKnown c d (answer _ i ins at) e run k = elim (Option-cases (asking.dial ins)) [
    | inl reached ↦ inl (
      i,
      ins,
      rw (Run-instances fastest asking instances c run) at
          (get_elem?-map (λ g. g.instance_) c.goroutines i _ at),
      reached,
      rw (reached, err_after) refl,
    )
    | inr (er, failing) ↦
        rw (failing, err_after) (on i (sending (offer asking ins)) _ c e at (λ h no. cc) k)
  ]
  step-IsKnown c d (receive _ i ins r at) e run k = on i (sent r) _ c e at (λ h. h) k
  step-IsKnown c d (drop _ i ins r at dialled may) e run k = on i dropped _ c e at (λ h. h) k
  step-IsKnown c d (expire _) e run k = k
  step-IsKnown c d (close _ finished unclosed) e run k = k

  asked_none :
      (g : Goroutine V) → is_finished g ≡ true → IsUnasked g → asking.dial g.instance_ ≢ none
  asked_none g = by_phase g.instance_ g.phase
    where
      by_phase :
          (ins : ServiceInstance) (phase : Phase V)
          → is_finished (record { instance_ = ins; phase = phase }) ≡ true
          → IsUnasked (record { instance_ = ins; phase = phase })
          → asking.dial ins ≢ none
      by_phase ins calling f h = cc
      by_phase ins (sending r) f h = h
      by_phase ins (sent r) f h = h
      by_phase ins dropped f h = h

  -- What every step of a call keeps.
  record Kept (s : Call V) : Type 0 where
    run : Run fastest asking (started instances) s.channel
    known : IsKnown s.channel s.err
    over :
        (e : Option Bytes)
        → s.result ≡ some e
        → (s.channel.closed ≡ true) × (IsAnswered asking instances e ⊎ ((e ≡ none) × AllFail))

  closed_step : (c d : Channel V) → Step fastest asking c d → c.closed ≡ true → d.closed ≡ true
  closed_step c d (answer _ i ins at) shut = shut
  closed_step c d (receive _ i ins r at) shut = shut
  closed_step c d (drop _ i ins r at dialled may) shut = shut
  closed_step c d (expire _) shut = shut
  closed_step c d (close _ finished unclosed) shut = refl

  step-Kept : (s t : Call V) → CallStep fastest asking ctx_err s t → Kept s → Kept t
  step-Kept s t (goes _ d h) k = record {
    run = step s.channel d k.run h;
    known = step-IsKnown s.channel d h s.err k.run k.known;
    over = λ e same. (closed_step s.channel d h (k.over e same).0, (k.over e same).1);
  }
  step-Kept s t (returns _ shut unreturned) k = record {
    run = k.run;
    known = k.known;
    over = λ e same. let err : s.err ≡ e = cc in (shut, settled e err k.known);
  }
    where
      settled :
          (e : Option Bytes)
          → s.err ≡ e
          → IsKnown s.channel s.err
          → IsAnswered asking instances e ⊎ ((e ≡ none) × AllFail)
      settled e same (inl a) = inl (rw same at a)
      settled e same (inr (nil, all)) = inr (
        cc,
        rw (Run-instances fastest asking instances s.channel k.run) at (
            all_finished-All IsUnasked (λ ins. asking.dial ins ≢ none) s.channel.goroutines
              asked_none (Run-over fastest asking instances s.channel k.run shut) all),
      )

  run-Kept : (s : Call V) → CallRun fastest asking ctx_err (started_call instances) s → Kept s
  run-Kept s at_start = record {
    run = stay;
    known = inr (refl, unasked instances);
    over = λ e same. cc;
  }
    where
      unasked : (xs : List ServiceInstance) → All IsUnasked (map starting xs)
      unasked [] = tt
      unasked (x ∷ xs) = (tt, unasked xs)
  run-Kept s (then_step t _ r h) = step-Kept t s h (run-Kept t r)

  -- In the cluster of the fastest, an interceptor that has returned has done so behind all its
  -- goroutines, and what it returned is the error, or none, of a call to one of the instances, which
  -- Dial had reached; it is none where Dial reached no instance, whatever the errors of Dial.
  pub result-fastest :
      (s : Call V) (e : Option Bytes)
      → CallRun fastest asking ctx_err (started_call instances) s
      → s.result ≡ some e
      → (all_finished s.channel.goroutines ≡ true)
        × (IsAnswered asking instances e
            ⊎ ((e ≡ none) × All (λ ins. asking.dial ins ≢ none) instances))
  result-fastest s e run same =
      let k = run-Kept s run in
      (Run-over fastest asking instances s.channel k.run (k.over e same).0, (k.over e same).1)
