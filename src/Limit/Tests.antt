-- ===== src/Limit/Tests.antt =====
-- Runs of the limiters.
use emicro.Limit.Redis.{SortedSet, Counter}
use emicro.Limit.Redis.Quota.{script_verdicts, first_pass, script_verdicts-first_pass}
use emicro.Limit.Redis.Burst.{OneMember}
use emicro.Limit.Redis.Window.{IsSortedSet, served-in_window}
use emicro.Limit.Redis.Window as RedisWindow
use emicro.Common.{
  Option, none, some, ◌==◌, ltb, select, if◌then◌else◌, ◌⊎◌, inl, inr, ℕ, length, ◌+◌, All, Bool,
  ◌||◌, ◌≢◌, ◌^◌, ◌≤◌, ◌≡◌, refl, true, false, List, [], ◌∷◌, arith,
}
use emicro.Limit.FixWindow.{new_fix_window}
use emicro.Limit.FixWindow.Schedule
use emicro.Limit.FixWindow.Schedule.{arrive, turn, run, served, served-run}
use emicro.Limit.SlideWindow
use emicro.Limit.SlideWindow.{SlideWindow, new_slide_window}
use emicro.Limit.SlideWindow.Window
use emicro.Limit.SlideWindow.Window.{in_window, in_window-run, allow_full}
use emicro.Limit.TokenBucket
use emicro.Limit.TokenBucket.{new_token_bucket}
use emicro.Limit.TokenBucket.Tokens
use emicro.Limit.TokenBucket.Tokens.{serves-ticks}
use emicro.Limit.LeakyBucket
use emicro.Limit.LeakyBucket.{new_leaky_bucket}
use emicro.Limit.LeakyBucket.Ticks
use emicro.Limit.LeakyBucket.Ticks.{serves_closed}

-- Two calls that interleave, at a rate of 1.
abbrev race : List Schedule.Event
race = arrive 5 ∷ turn 0 ∷ arrive 900000000 ∷ turn 0 ∷ turn 1 ∷ turn 0 ∷ []

served-run_example : served (run race [] (new_fix_window (10 ^ 9) 1)).0 ≤ 1
served-run_example =
    served-run (10 ^ 9) 1 race (omega arith)
      (omega arith, (tt, (omega arith, (tt, (tt, (tt, tt)))))) (omega arith)

-- Four requests at one time, at a rate of 1: two pass.
in_window-run_example :
    in_window 10 7 (Window.run (7 ∷ 7 ∷ 7 ∷ 7 ∷ []) [] (new_slide_window 1 10)).0 ≤ 1 + 1
in_window-run_example =
    in_window-run 1 10 (7 ∷ 7 ∷ 7 ∷ 7 ∷ []) 7
      (omega arith, (omega arith, (omega arith, (omega arith, tt))))
      (omega arith, (omega arith, (omega arith, (omega arith, tt))))

two_pass : (Window.run (7 ∷ 7 ∷ 7 ∷ 7 ∷ []) [] (new_slide_window 1 10)).0 ≡ 7 ∷ 7 ∷ []
unfolding Window.run SlideWindow.allow SlideWindow.purge
two_pass = refl

abbrev full_window : SlideWindow
full_window = record { max_rate = 1; queue = 7 ∷ []; interval = 10 }

abbrev bucket_trace : List TokenBucket.Event
bucket_trace = TokenBucket.tick ∷ TokenBucket.served ∷ TokenBucket.rejected ∷ []

bucket-Run : TokenBucket.Run (new_token_bucket 2) bucket_trace (new_token_bucket 2)
bucket-Run = TokenBucket.next (TokenBucket.fill refl (omega arith)) (
    TokenBucket.next (TokenBucket.take 0 refl)
      (TokenBucket.next (TokenBucket.reject refl refl) TokenBucket.stop))

serves-ticks_example : (Tokens.serves bucket_trace + 0 ≤ Tokens.ticks bucket_trace) × (0 ≤ 2)
serves-ticks_example = serves-ticks 2 bucket_trace (new_token_bucket 2) bucket-Run

abbrev leaky_trace : List LeakyBucket.Event
leaky_trace = LeakyBucket.tick ∷ LeakyBucket.served ∷ LeakyBucket.tick ∷ []

serves_closed_example :
    (Ticks.serves leaky_trace ≤ Ticks.ticks leaky_trace)
    × (Ticks.serves (LeakyBucket.served ∷ []) ≤ 1)
serves_closed_example =
    serves_closed leaky_trace (LeakyBucket.served ∷ [])
      (record { pending = true; closing = false; ticking = true })
      (record { pending = true; closing = true; ticking = false })
      (record { pending = false; closing = true; ticking = false })
      (LeakyBucket.next (LeakyBucket.sent refl) (
        LeakyBucket.next (LeakyBucket.take refl)
          (LeakyBucket.next (LeakyBucket.sent refl) LeakyBucket.stop)))
      (LeakyBucket.close refl) (LeakyBucket.next (LeakyBucket.take refl) LeakyBucket.stop)

-- A sorted set as the list of its members, which are their scores.
abbrev add_member : ℕ → List ℕ → List ℕ
add_member member [] = member ∷ []
add_member member (x ∷ xs) = if x == member then x ∷ xs else x ∷ add_member member xs

abbrev members : SortedSet (List ℕ)
members = record {
  remove_until = λ now window k. select (λ member. ltb now (member + window)) k;
  count = length;
  add = λ score member k. add_member member k;
  expire = λ window k. k;
}

abbrev one_member : OneMember members 10 5
one_member = record {
  IsFew = λ k. (k ≡ []) ⊎ (k ≡ 5 ∷ []);
  few = λ k h. elim h [ inl e ↦ rw e (omega arith) | inr e ↦ rw e (omega arith) ];
  removed = λ k h. elim h [ inl e ↦ inl (rw e refl) | inr e ↦ inr (rw e refl) ];
  added = λ k h. elim h [ inl e ↦ inr (rw e refl) | inr e ↦ inr (rw e refl) ];
  expiring = λ k h. h;
}

-- A key as the number that it holds.
abbrev counter : Counter (Option ℕ)
counter = record {
  get = λ k. k;
  set_one = λ interval k. some 1;
  incr = λ k. elim k [ none ↦ none | some n ↦ some (n + 1) ];
}

script_verdicts-first_pass_example : script_verdicts counter 1000 2 4 none ≡ first_pass 2 4
script_verdicts-first_pass_example =
    script_verdicts-first_pass counter
      (record { get-set_one = λ interval k. refl; get-incr = λ k n e. rw e refl }) 1000 2 4 none
      refl

-- The latest member first.
abbrev holds_member : ℕ → List ℕ → Bool
holds_member member [] = false
holds_member member (x ∷ xs) = (x == member) || holds_member member xs

holds_member-ne :
    (member : ℕ) (xs : List ℕ) → All (λ time. time ≢ member) xs → holds_member member xs ≡ false
holds_member-ne member [] h = refl
holds_member-ne member (x ∷ xs) h = ground (arith, holds_member-ne member xs h.1, h.0)

abbrev latest : SortedSet (List ℕ)
latest = record {
  remove_until = λ now window k. select (λ member. ltb now (member + window)) k;
  count = length;
  add = λ score member k. if holds_member member k then k else member ∷ k;
  expire = λ window k. k;
}

latest-IsSortedSet : IsSortedSet latest 10
latest-IsSortedSet = record {
  scores = λ k. k;
  at = λ now k. k;
  count-scores = λ k. refl;
  scores-remove = λ now k. refl;
  scores-add = λ now k fresh. rw (holds_member-ne now k fresh) refl;
  scores-expire = λ k. refl;
  scores-at = λ now k. inl refl;
}

served-in_window_example :
    RedisWindow.in_window 10 14
      (RedisWindow.run latest 2 10 latest-IsSortedSet (3 ∷ 5 ∷ 8 ∷ 14 ∷ []) [] []).0
    ≤ 2
unfolding latest-IsSortedSet
served-in_window_example =
    served-in_window latest 2 10 latest-IsSortedSet (3 ∷ 5 ∷ 8 ∷ 14 ∷ []) 14 [] refl (omega arith)
      (omega arith)
