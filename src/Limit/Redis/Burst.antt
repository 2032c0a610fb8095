-- ===== src/Limit/Redis/Burst.antt =====
-- Requests of one millisecond at the sliding window of Redis.
use emicro.Common.{
  ℕ, zero, suc, ◌≤◌, ◌≡◌, refl, ap, Bool, false, List, [], ◌∷◌, leb, lt→not-leb, replicate, arith,
}
use emicro.Limit.Redis.{SortedSet, slide_window_script}

-- What Redis documents of a sorted set, for one member: a set that is empty, or holds `now` alone
-- with `now` as its score, stays one of these; ZADD of a member that is there adds none.
pub record OneMember {K : Type 0} (redis : SortedSet K) (window now : ℕ) : Type 1 where
  pub IsFew : K → Type 0
  pub few : (k : K) → IsFew k → redis.count k ≤ 1
  pub removed : (k : K) → IsFew k → IsFew (redis.remove_until now window k)
  pub added : (k : K) → IsFew k → IsFew (redis.add now now k)
  pub expiring : (k : K) → IsFew k → IsFew (redis.expire window k)

-- The verdicts on `n` requests at the time `now`, one after the other.
pub verdicts : {K : Type 0} → SortedSet K → (threshold window now : ℕ) → ℕ → K → List Bool
verdicts redis threshold window now zero k = []
verdicts redis threshold window now (suc n) k =
    let (limited, k') = slide_window_script redis threshold window now k in
    limited ∷ verdicts redis threshold window now n k'

-- At a threshold of 2 or more, none of the requests that come in one millisecond, to a key with no
-- member or with that millisecond's alone, is limited, however many there are.
pub verdicts_burst :
    {K : Type 0} (redis : SortedSet K) (threshold window now n : ℕ) (k : K)
    (one : OneMember redis window now)
    → 2 ≤ threshold
    → one.IsFew k
    → verdicts redis threshold window now n k ≡ replicate n false
unfolding verdicts slide_window_script
verdicts_burst redis threshold window now zero k one high h = refl
verdicts_burst redis threshold window now (suc n) k one high h =
    let moved = one.removed k h in
    let open_window : leb threshold (redis.count (redis.remove_until now window k)) ≡ false =
      lt→not-leb threshold (redis.count (redis.remove_until now window k))
        (omega (arith, one.few (redis.remove_until now window k) moved)) in
    rw open_window (
      ap (◌∷◌ false) (
        verdicts_burst redis threshold window now n
          (redis.expire window (redis.add now now (redis.remove_until now window k))) one high
          (one.expiring (redis.add now now (redis.remove_until now window k))
            (one.added (redis.remove_until now window k) moved))))
