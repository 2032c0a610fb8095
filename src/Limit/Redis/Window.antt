-- ===== src/Limit/Redis/Window.antt =====
-- Requests of different milliseconds at the sliding window of Redis.
use emicro.Common.{
  ℕ, ◌+◌, ◌≤◌, ◌<◌, ◌≡◌, ◌≢◌, refl, ◌∙◌, ◌⊎◌, inl, inr, Bool, false, Bool-cases, List, [], ◌∷◌, ltb,
  leb, if◌then◌else◌, length, length-select-le, select, All, sum_by, arith,
}
use emicro.Limit.Redis.{SortedSet, slide_window_script}

-- Whether a time is less than a window old.
abbrev pub is_recent : (window now time : ℕ) → Bool
is_recent window now time = ltb now (time + window)

abbrev pub counts : (window now time : ℕ) → ℕ
counts window now time = if is_recent window now time then 1 else 0

-- How many of the times are in the window that ends at `now`.
abbrev pub in_window : (window now : ℕ) → List ℕ → ℕ
in_window window now times = sum_by (counts window now) times

-- What Redis documents of a sorted set whose members are their own scores: ZCOUNT counts the members,
-- ZREMRANGEBYSCORE leaves the scores above its bound, ZADD of a member that is not there adds it, and
-- PEXPIRE leaves the members until the key expires, a window after the last of them was added.
pub record IsSortedSet {K : Type 0} (redis : SortedSet K) (window : ℕ) : Type 0 where
  pub scores : K → List ℕ
  pub at : ℕ → K → K
  pub count-scores : (k : K) → redis.count k ≡ length (scores k)
  pub scores-remove :
      (now : ℕ) (k : K)
      → scores (redis.remove_until now window k) ≡ select (is_recent window now) (scores k)
  pub scores-add :
      (now : ℕ) (k : K)
      → All (λ time. time ≢ now) (scores k)
      → scores (redis.add now now k) ≡ now ∷ scores k
  pub scores-expire : (k : K) → scores (redis.expire window k) ≡ scores k
  pub scores-at :
      (now : ℕ) (k : K)
      → (scores (at now k) ≡ scores k)
        ⊎ ((scores (at now k) ≡ []) × All (λ time. is_recent window now time ≡ false) (scores k))

-- The requests come at times that rise, after `now`.
abbrev pub Rises : ℕ → List ℕ → Type 0
Rises now [] = Unit
Rises now (current ∷ times) = (now < current) × Rises current times

in_window-select :
    (window now later : ℕ) (times : List ℕ)
    → now ≤ later
    → in_window window later (select (is_recent window now) times) ≡ in_window window later times
in_window-select window now later [] h = refl
in_window-select window now later (time ∷ times) h =
    ground (arith, in_window-select window now later times h)

in_window-none :
    (window now later : ℕ) (times : List ℕ)
    → now ≤ later
    → All (λ time. is_recent window now time ≡ false) times
    → in_window window later times ≡ 0
in_window-none window now later [] h old = refl
in_window-none window now later (time ∷ times) h old =
    ground (arith, in_window-none window now later times h old.1)

in_window-le : (window now : ℕ) (times : List ℕ) → in_window window now times ≤ length times
in_window-le window now [] = omega arith
in_window-le window now (time ∷ times) = ground (arith, in_window-le window now times)

All-select {ℓ κ} :
    {A : Type ℓ} (P : A → Type κ) (p : A → Bool) (xs : List A) → All P xs → All P (select p xs)
All-select P p [] h = tt
All-select P p (x ∷ xs) h = elim (Bool-cases (p x)) [
  | inl yes' ↦ rw yes' (h.0, All-select P p xs h.1)
  | inr no' ↦ rw no' (All-select P p xs h.1)
]

before :
    (now current : ℕ) (times : List ℕ)
    → now < current
    → All (λ time. time ≤ now) times
    → All (λ time. time < current) times
before now current [] h old = tt
before now current (time ∷ times) h old = (omega arith, before now current times h old.1)

until :
    (current : ℕ) (times : List ℕ)
    → All (λ time. time < current) times
    → All (λ time. time ≤ current) times × All (λ time. time ≢ current) times
until current [] old = (tt, tt)
until current (time ∷ times) old =
    let (below, other) = until current times old.1 in
    ((omega arith, below), (λ e. omega arith, other))

module _ {K : Type 0} (redis : SortedSet K) (threshold window : ℕ)
    (law : IsSortedSet redis window) where
  -- The requests at these times, one after the other: the times of those that are not limited, the
  -- last one first, and the key.
  pub run : List ℕ → List ℕ → K → List ℕ × K
  run [] served k = (served, k)
  run (current ∷ times) served k =
      let (limited, k') = slide_window_script redis threshold window current (law.at current k) in
      run times (if limited then served else current ∷ served) k'

  record Knows (now : ℕ) (served : List ℕ) (k : K) : Type 0 where
    bounded : length (law.scores k) ≤ threshold
    past : All (λ time. time ≤ now) (law.scores k)
    holds :
        (later : ℕ)
        → now ≤ later
        → in_window window later served ≤ in_window window later (law.scores k)

  -- The same, before the request that comes at `current`.
  record Before (current : ℕ) (served : List ℕ) (k : K) : Type 0 where
    bounded : length (law.scores k) ≤ threshold
    past : All (λ time. time < current) (law.scores k)
    holds :
        (later : ℕ)
        → current ≤ later
        → in_window window later served ≤ in_window window later (law.scores k)

  at-Before :
      (now current : ℕ) (served : List ℕ) (k : K)
      → now < current
      → Knows now served k
      → Before current served (law.at current k)
  at-Before now current served k h knows = elim (law.scores-at current k) [
    | inl same ↦ record {
      bounded = rw same knows.bounded;
      past = rw same (before now current (law.scores k) h knows.past);
      holds = λ later h'. rw same (knows.holds later (omega arith));
    }
    | inr (gone, old) ↦ record {
      bounded = rw gone (omega arith);
      past = rw gone tt;
      holds = λ later h'. rw gone (
          omega (
            arith,
            knows.holds later (omega arith),
            in_window-none window current later (law.scores k) h' old,
          ));
    }
  ]

  remove-Before :
      (current : ℕ) (served : List ℕ) (k : K)
      → Before current served k
      → Before current served (redis.remove_until current window k)
  remove-Before current served k b =
      let e = law.scores-remove current k in
      record {
        bounded =
            rw e (
              omega (arith, b.bounded, length-select-le (is_recent window current) (law.scores k)));
        past =
            rw e (
              All-select (λ time. time < current) (is_recent window current) (law.scores k) b.past);
        holds = λ later h.
            rw (e, in_window-select window current later (law.scores k) h) (b.holds later h);
      }

  script-Knows :
      (current : ℕ) (served : List ℕ) (k : K)
      → Before current served k
      → let (limited, k') = slide_window_script redis threshold window current k in
        Knows current (if limited then served else current ∷ served) k'
  unfolding slide_window_script
  script-Knows current served k b =
      let moved = redis.remove_until current window k in
      let b' = remove-Before current served k b in
      let (below, other) = until current (law.scores moved) b'.past in
      elim (Bool-cases (leb threshold (redis.count moved))) [
        | inl full ↦ rw full (record { bounded = b'.bounded; past = below; holds = b'.holds })
        | inr free ↦
            let same : law.scores (redis.expire window (redis.add current current moved))
                ≡ current ∷ law.scores moved =
              law.scores-expire _ ∙ law.scores-add current moved other in
            rw free (record {
              bounded = rw same (ground (arith, law.count-scores moved));
              past = rw same (omega arith, below);
              holds = λ later h. rw same (omega (arith, b'.holds later h));
            })
      ]

  run-Knows :
      (times served : List ℕ) (now later : ℕ) (k : K)
      → Rises now times
      → All (λ time. time ≤ later) times
      → now ≤ later
      → Knows now served k
      → in_window window later (run times served k).0 ≤ threshold
  unfolding run
  run-Knows [] served now later k rises past h knows =
      omega (arith, knows.holds later h, knows.bounded, in_window-le window later (law.scores k))
  run-Knows (current ∷ times) served now later k (above, rises) (reached, past) h knows =
      let next = slide_window_script redis threshold window current (law.at current k) in
      run-Knows times (if next.0 then served else current ∷ served) current later next.1 rises past
        reached
        (script-Knows current served (law.at current k)
          (at-Before now current served k above knows))

  -- Of requests at milliseconds that rise, no window lets more pass than the threshold, where the
  -- window ends at or after the last of them, and the key has no members at first: of the requests of
  -- one millisecond, which are one member, only one may come.
  pub served-in_window :
      (times : List ℕ) (later : ℕ) (k : K)
      → law.scores k ≡ []
      → Rises 0 times
      → All (λ time. time ≤ later) times
      → in_window window later (run times [] k).0 ≤ threshold
  served-in_window times later k none_there rises past =
      run-Knows times [] 0 later k rises past (omega arith) (record {
        bounded = rw none_there (omega arith);
        past = rw none_there tt;
        holds = λ later' h. omega arith;
      })
