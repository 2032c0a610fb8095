-- ===== src/Cluster/Channel/Delivery.antt =====
-- cluster/broadcastall/cluster.go and cluster/fastest/cluster.go: which responses a caller receives.
use mathlib.Core.List.Permᴰ
use mathlib.Core.List.{Permᴰ}
use emicro.Common.{
  ℕ, zero, suc, ◌≡◌, refl, ap, ◌∙◌, Bool, true, false, ◌&&◌, none, some, List, [], ◌∷◌, ◌++◌, map,
  get_elem?, adjust, All, All-get, All-append, All-adjust, All-Permᴰ,
}
use emicro.Discovery.Etcd.{ServiceInstance}
use emicro.Cluster.Responses.{Resp, Asking, offer}
use emicro.Cluster.Channel.{
  Cluster, broadcastall, Phase, calling, sending, sent, dropped, Goroutine, Channel, starting,
  started, move, is_finished, all_finished, Step, answer, receive, drop, expire, close, Run, stay,
  step,
}

-- The responses of the goroutines that are through with their send.
abbrev pub sent_by : {V : Type 0} → Phase V → List (Resp V)
sent_by calling = []
sent_by (sending r) = []
sent_by (sent r) = r ∷ []
sent_by dropped = []

abbrev pub all_sent : {V : Type 0} → List (Goroutine V) → List (Resp V)
all_sent [] = []
all_sent (g ∷ gs) = sent_by g.phase ++ all_sent gs

swap_front : {A : Type 0} (xs ys zs : List A) → Permᴰ (xs ++ (ys ++ zs)) (ys ++ (xs ++ zs))
swap_front [] ys zs = Permᴰ.refl _
swap_front (x ∷ xs) ys zs =
    Permᴰ.trans (Permᴰ.cons refl (swap_front xs ys zs)) (Permᴰ.symm (Permᴰ.middle x ys (xs ++ zs)))

all_sent-move :
    {V : Type 0} (gs : List (Goroutine V)) (i : ℕ) (g : Goroutine V) (phase : Phase V)
    → get_elem? gs i ≡ some g
    → sent_by g.phase ≡ []
    → Permᴰ (all_sent (adjust (move phase) i gs)) (sent_by phase ++ all_sent gs)
all_sent-move [] i g phase at nothing = cc
all_sent-move (h ∷ gs) zero g phase at nothing =
    let same : h ≡ g = cc in rw (same, nothing) (Permᴰ.refl _)
all_sent-move (h ∷ gs) (suc i) g phase at nothing =
    Permᴰ.trans (Permᴰ.append_left (sent_by h.phase) (all_sent-move gs i g phase at nothing))
      (swap_front (sent_by h.phase) (sent_by phase) (all_sent gs))

instances-move :
    {V : Type 0} (phase : Phase V) (i : ℕ) (gs : List (Goroutine V))
    → map (λ g. g.instance_) (adjust (move phase) i gs) ≡ map (λ g. g.instance_) gs
instances-move phase i [] = refl
instances-move phase zero (g ∷ gs) = refl
instances-move phase (suc i) (g ∷ gs) = ap (◌∷◌ g.instance_) (instances-move phase i gs)

and_left : (a b : Bool) → (a && b) ≡ true → a ≡ true
and_left true b h = refl
and_left false b h = h

and_right : (a b : Bool) → (a && b) ≡ true → b ≡ true
and_right true b h = h
and_right false b h = cc

all_finished-get :
    {V : Type 0} (gs : List (Goroutine V)) (i : ℕ) (g : Goroutine V)
    → all_finished gs ≡ true
    → get_elem? gs i ≡ some g
    → is_finished g ≡ true
all_finished-get [] i g h at = cc
all_finished-get (x ∷ gs) zero g h at = let same : x ≡ g = cc in rw (← same) (and_left _ _ h)
all_finished-get (x ∷ gs) (suc i) g h at = all_finished-get gs i g (and_right _ _ h) at

pub all_finished-All :
    {V : Type 0} (P : Goroutine V → Type 0) (Q : ServiceInstance → Type 0) (gs : List (Goroutine V))
    → ((g : Goroutine V) → is_finished g ≡ true → P g → Q g.instance_)
    → all_finished gs ≡ true
    → All P gs
    → All Q (map (λ g. g.instance_) gs)
all_finished-All P Q [] f h all = tt
all_finished-All P Q (g ∷ gs) f h (p, all) =
    (f g (and_left _ _ h) p, all_finished-All P Q gs f (and_right _ _ h) all)

module _ {V : Type 0} (cluster : Cluster) (asking : Asking V) where
  abbrev IsHonest : Goroutine V → Type 0
  IsHonest g = elim (g.phase) [
    | calling ↦ Unit {0}
    | sending r ↦ r ≡ offer asking g.instance_
    | sent r ↦ r ≡ offer asking g.instance_
    | dropped ↦ Unit {0}
  ]

  abbrev IsKept : Goroutine V → Type 0
  IsKept g = elim (g.phase) [
    | calling ↦ Unit {0}
    | sending r ↦ Unit {0}
    | sent r ↦ Unit {0}
    | dropped ↦ ⊥
  ]

  -- What every step keeps.
  record Sound (instances : List ServiceInstance) (c : Channel V) : Type 0 where
    each_once : Permᴰ c.received (all_sent c.goroutines)
    same : map (λ g. g.instance_) c.goroutines ≡ instances
    honest : All IsHonest c.goroutines
    kept : cluster ≡ broadcastall → c.ctx_done ≡ false → All IsKept c.goroutines
    over : c.closed ≡ true → all_finished c.goroutines ≡ true

  started-Sound : (instances : List ServiceInstance) → Sound instances (started instances)
  started-Sound instances = record {
    each_once = Permᴰ.symm (rw (none_sent instances) (Permᴰ.refl _));
    same = names instances;
    honest = honest instances;
    kept = λ _ _. kept instances;
    over = λ e. cc;
  }
    where
      names : (xs : List ServiceInstance) → map (λ g. g.instance_) (map (starting {V = V}) xs) ≡ xs
      names [] = refl
      names (x ∷ xs) = ap (◌∷◌ x) (names xs)

      none_sent : (xs : List ServiceInstance) → all_sent (map (starting {V = V}) xs) ≡ []
      none_sent [] = refl
      none_sent (x ∷ xs) = none_sent xs

      honest : (xs : List ServiceInstance) → All IsHonest (map starting xs)
      honest [] = tt
      honest (x ∷ xs) = (tt, honest xs)

      kept : (xs : List ServiceInstance) → All IsKept (map starting xs)
      kept [] = tt
      kept (x ∷ xs) = (tt, kept xs)

  -- A phase with nothing sent takes the place of another one.
  moved :
      (phase : Phase V) (i : ℕ) (c : Channel V) (g : Goroutine V)
      → Permᴰ c.received (all_sent c.goroutines)
      → get_elem? c.goroutines i ≡ some g
      → sent_by g.phase ≡ []
      → sent_by phase ≡ []
      → Permᴰ c.received (all_sent (adjust (move phase) i c.goroutines))
  moved phase i c g each_once at nothing nothing' =
      Permᴰ.trans each_once
        (Permᴰ.symm (rw nothing' at (all_sent-move c.goroutines i g phase at nothing)))

  -- A closed channel has no goroutine at work.
  unfinished :
      {instances : List ServiceInstance} (c : Channel V) (i : ℕ) (g : Goroutine V)
      → Sound instances c
      → c.closed ≡ true
      → get_elem? c.goroutines i ≡ some g
      → is_finished g ≡ false
      → ⊥
  unfinished c i g s shut at working =
      let finished = all_finished-get c.goroutines i g (s.over shut) at in cc

  step-Sound :
      (instances : List ServiceInstance) (c d : Channel V)
      → Step cluster asking c d
      → Sound instances c
      → Sound instances d
  step-Sound instances c d (answer _ i ins at) s = record {
    each_once = moved (sending (offer asking ins)) i c _ s.each_once at refl refl;
    same = instances-move _ i c.goroutines ∙ s.same;
    honest = All-adjust IsHonest _ i c.goroutines _ s.honest at refl;
    kept = λ b on. All-adjust IsKept _ i c.goroutines _ (s.kept b on) at tt;
    over = λ shut. absurd (unfinished c i _ s shut at refl);
  }
  step-Sound instances c d (receive _ i ins r at) s = record {
    each_once =
        Permᴰ.trans (Permᴰ.cons refl s.each_once)
          (Permᴰ.symm (all_sent-move c.goroutines i _ (sent r) at refl));
    same = instances-move _ i c.goroutines ∙ s.same;
    honest =
        All-adjust IsHonest _ i c.goroutines _ s.honest at
          (All-get IsHonest c.goroutines i _ s.honest at);
    kept = λ b on. All-adjust IsKept _ i c.goroutines _ (s.kept b on) at tt;
    over = λ shut. absurd (unfinished c i _ s shut at refl);
  }
  step-Sound instances c d (drop _ i ins r at dialled may) s = record {
    each_once = moved dropped i c _ s.each_once at refl refl;
    same = instances-move _ i c.goroutines ∙ s.same;
    honest = All-adjust IsHonest _ i c.goroutines _ s.honest at tt;
    kept = λ b on. (let never : false ≡ true = rw (b, on) at may in cc);
    over = λ shut. absurd (unfinished c i _ s shut at refl);
  }
  step-Sound instances c d (expire _) s = record {
    each_once = s.each_once;
    same = s.same;
    honest = s.honest;
    kept = λ b on. cc;
    over = s.over;
  }
  step-Sound instances c d (close _ finished unclosed) s = record {
    each_once = s.each_once;
    same = s.same;
    honest = s.honest;
    kept = s.kept;
    over = λ shut. finished;
  }

  Run-Sound :
      (instances : List ServiceInstance) (c : Channel V)
      → Run cluster asking (started instances) c
      → Sound instances c
  Run-Sound instances c stay = started-Sound instances
  Run-Sound instances c (step d _ r e) = step-Sound instances d c e (Run-Sound instances d r)

  -- A goroutine at its end, none of whose responses was dropped, sent the response of its instance.
  sent_offer :
      (ins : ServiceInstance) (phase : Phase V)
      → IsHonest (record { instance_ = ins; phase = phase })
      → IsKept (record { instance_ = ins; phase = phase })
      → is_finished (record { instance_ = ins; phase = phase }) ≡ true
      → sent_by phase ≡ offer asking ins ∷ []
  sent_offer ins calling h k f = cc
  sent_offer ins (sending r) h k f = cc
  sent_offer ins (sent r) h k f = ap (λ x. x ∷ []) h
  sent_offer ins dropped h k f = absurd k

  all_sent-map :
      (gs : List (Goroutine V))
      → All IsHonest gs
      → All IsKept gs
      → all_finished gs ≡ true
      → all_sent gs ≡ map (offer asking) (map (λ g. g.instance_) gs)
  all_sent-map [] h k f = refl
  all_sent-map (g ∷ gs) (h, hs) (k, ks) f =
      rw (sent_offer g.instance_ g.phase h k (and_left _ _ f))
        (ap (◌∷◌ (offer asking g.instance_)) (all_sent-map gs hs ks (and_right _ _ f)))

  abbrev NoError : Resp V → Type 0
  NoError r = r.err ≡ none

  sent-NoError :
      (ins : ServiceInstance) (phase : Phase V)
      → asking.dial ins ≡ none
      → IsHonest (record { instance_ = ins; phase = phase })
      → All NoError (sent_by phase)
  unfolding offer
  sent-NoError ins calling e h = tt
  sent-NoError ins (sending r) e h = tt
  sent-NoError ins (sent r) e h = (rw h (rw (e, offer) refl), tt)
  sent-NoError ins dropped e h = tt

  all_sent-NoError :
      (gs : List (Goroutine V))
      → All (λ ins. asking.dial ins ≡ none) (map (λ g. g.instance_) gs)
      → All IsHonest gs
      → All NoError (all_sent gs)
  all_sent-NoError [] e h = tt
  all_sent-NoError (g ∷ gs) (e, es) (h, hs) =
      All-append _ _ _ (sent-NoError g.instance_ g.phase e h) (all_sent-NoError gs es hs)

  -- In either cluster, where grpc.Dial succeeds for each instance, no response that a caller receives
  -- has an error, whatever errors the calls to the instances end with.
  pub received_no_error :
      (instances : List ServiceInstance) (c : Channel V)
      → All (λ ins. asking.dial ins ≡ none) instances
      → Run cluster asking (started instances) c
      → All (λ r. r.err ≡ none) c.received
  received_no_error instances c dialled r =
      let s = Run-Sound instances c r in
      All-Permᴰ NoError (Permᴰ.symm s.each_once)
        (all_sent-NoError c.goroutines (rw (← s.same) at dialled) s.honest)

  -- No step changes which instances are asked; and behind a closed channel no goroutine is at work.
  pub Run-instances :
      (instances : List ServiceInstance) (c : Channel V)
      → Run cluster asking (started instances) c
      → map (λ g. g.instance_) c.goroutines ≡ instances
  Run-instances instances c run = (Run-Sound instances c run).same

  pub Run-over :
      (instances : List ServiceInstance) (c : Channel V)
      → Run cluster asking (started instances) c
      → c.closed ≡ true
      → all_finished c.goroutines ≡ true
  Run-over instances c run = (Run-Sound instances c run).over

-- Once the channel of a broadcastall is closed and the caller's context has not ended, the caller has
-- received the response of each instance exactly once, in some order, whatever the order of the
-- goroutines' steps.
pub received-Permᴰ :
    {V : Type 0} (asking : Asking V) (instances : List ServiceInstance) (c : Channel V)
    → Run broadcastall asking (started instances) c
    → c.ctx_done ≡ false
    → c.closed ≡ true
    → Permᴰ c.received (map (offer asking) instances)
received-Permᴰ asking instances c r on shut =
    let s = Run-Sound broadcastall asking instances c r in
    let all =
      all_sent-map broadcastall asking c.goroutines s.honest (s.kept refl on) (s.over shut) in
    Permᴰ.trans s.each_once (rw (all ∙ ap (λ xs. map (offer asking) xs) s.same) (Permᴰ.refl _))
