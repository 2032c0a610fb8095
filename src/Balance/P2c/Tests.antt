-- ===== src/Balance/P2c/Tests.antt =====
-- Runs of the picker by two choices, on whole numbers for floats.
use native.Mathlib.Nat.{two-pow-succ, mod-lt}
use emicro.Common.{
  ℕ, zero, suc, ◌+◌, ◌-◌, ◌*◌, ◌/◌, ◌^◌, ◌≤◌, ◌<◌, ◌≡◌, refl, inl, inr, Bool-cases, leb, ◌==◌,
  if◌then◌else◌, none, some, [], ◌∷◌, ok, panic, Returns, arith, ◌%◌, ne→not-==,
}
use emicro.Common.Words.{u64_mod}
use emicro.Balance.Types.{Address}
use emicro.Balance.P2c.{
  Floats, Rand, Conn, Picker, build, pick, done, load, log_interval, new_conn, draw_nodes,
  candidates, choose, init_success,
}
use emicro.Balance.P2c.Draws.{IsRand}
use emicro.Balance.P2c.Choice.{IsAnswer, pick-IsAnswer}
use emicro.Balance.P2c.Flights.{Run, Step}
use emicro.Balance.P2c.Averages.{IsFloats}
use emicro.Balance.P2c.Stages.{begun, counted, advance_done, uncount, on_conn}
use emicro.Balance.P2c.Stages.Together.{
  Moves, stay, move, picks, advances, Moves-Counted, flying_at,
}
use emicro.Balance.P2c.Log.{done-panics}

-- The whole square root, one binary digit after another.
abbrev try_digit : ℕ → ℕ → ℕ → ℕ
try_digit k r n = if leb ((r + 2 ^ k) * (r + 2 ^ k)) n then r + 2 ^ k else r

unfoldable digits : ℕ → ℕ → ℕ → ℕ
digits zero r n = r
digits (suc k) r n = digits k (try_digit k r n) n

digits-le : (k r n m : ℕ) → r + 2 ^ k ≤ m → digits k r n + 1 ≤ m
unfolding digits
digits-le zero r n m h = omega arith
digits-le (suc k) r n m h = digits-le k (try_digit k r n) n m (
    let twice = two-pow-succ k in
    elim (Bool-cases (leb ((r + 2 ^ k) * (r + 2 ^ k)) n)) [
      | inl more ↦ rw more (omega arith)
      | inr less ↦ rw less (omega arith)
    ])

digits-pos : (k r n : ℕ) → 0 < n → 0 < digits (suc k) r n
unfolding digits
digits-pos zero zero n h = ground arith
digits-pos zero (suc r) n h = ground arith
digits-pos (suc k) r n h = digits-pos k (try_digit (suc k) r n) n h

abbrev whole : Floats ℕ
whole = record {
  of_i64 = λ n. n;
  of_u64 = λ n. n;
  to_i64 = λ n. n;
  to_u64 = λ n. n;
  nought = 0;
  one = 1;
  plus = λ a b. a + b;
  minus = λ a b. a - b;
  times = λ a b. a * b;
  over = λ a b. if b == 0 then 0 else a / b;
  sqrt = digits 32 0;
  exp = λ n. if n == 0 then 1 else 0;
}

whole-IsFloats : IsFloats whole
whole-IsFloats = record {
  root_bounds =
      λ n h k. (digits-pos 31 0 n h, omega (arith, digits-le 32 0 n (2 ^ 32) (omega arith)));
  IsShare = λ w. w ≤ 1;
  nought-IsShare = omega arith;
  decay-IsShare = λ t h. ground arith;
  ewma_le = λ w a b m share ha hb hm. mean w a b m share ha hb;
}
  where
    mean : (w a b m : ℕ) → w ≤ 1 → a ≤ m → b ≤ m → a * w + b * (1 - w) ≤ m
    mean zero a b m h ha hb = omega arith
    mean (suc zero) a b m h ha hb = omega arith
    mean (suc (suc w)) a b m h ha hb = absurd (omega arith)

-- Numbers that count up, each cut down to its bound.
abbrev counting : Rand ℕ
counting = record { intn = λ n r. (if n == 0 then 0 else r % n, r + 1) }

counting-IsRand : IsRand counting
counting-IsRand = record { intn-lt = below }
  where
    below : (n r : ℕ) → 0 < n → (if n == 0 then 0 else r % n) < n
    below n r h = rw (ne→not-== n 0 (omega arith)) (mod-lt r h)

abbrev at : ℕ → Address
at n = record { addr = n ∷ []; server_name = []; attributes = [] }

abbrev three : Picker ℕ
three = build none ((1, at 1) ∷ (2, at 2) ∷ (3, at 3) ∷ []) 0

-- The first connection, with a call in flight since the time `now`.
abbrev busy : ℕ → Conn
busy now = record (new_conn (1, at 1)) { inflight = 1; requests = 1; pick_time = now }

abbrev after_first : Picker ℕ
after_first = record three {
  connections = busy 5 ∷ new_conn (2, at 2) ∷ new_conn (3, at 3) ∷ [];
  r = 2;
}

-- The draws 0 and 1 stand for the places 0 and 2, which are as light as each other.
first_pick : pick whole counting 5 three ≡ ok (some 0, after_first)
unfolding pick build candidates draw_nodes choose load digits
first_pick = refl

first-Run : Run whole counting (three, []) (after_first, (0, 5) ∷ [])
first-Run = Run.step _ _ Run.stay (Step.picks 5 5 0 three after_first [] first_pick)

pick-IsAnswer_example : Returns (IsAnswer whole 5 three) (pick whole counting 5 three)
pick-IsAnswer_example = pick-IsAnswer whole counting counting-IsRand 5 three

done-panics_example : done whole 0 5 log_interval none after_first ≡ panic
done-panics_example =
    done-panics whole counting none ((1, at 1) ∷ (2, at 2) ∷ (3, at 3) ∷ []) 0 after_first
      ((0, 5) ∷ []) 0 5 log_interval none counting-IsRand first-Run (omega arith) (omega arith)

-- The first pick, and the first operation of its Done.
first-Moves :
    Moves whole counting (three, []) (on_conn uncount 0 after_first, (0, counted 5 6 none) ∷ [])
unfolding advance_done
first-Moves = move _ _ (move _ _ stay (picks 5 5 0 three after_first [] first_pick)) (
    advances 6 none 0 (begun 5) (counted 5 6 none) after_first (on_conn uncount 0 after_first) [] []
      refl)

Moves-Counted_example :
    ((uncount (busy 5)).inflight ≡ flying_at {F = ℕ} 0 ((0, counted 5 6 none) ∷ []) % u64_mod)
    × ((uncount (busy 5)).success ≤ init_success)
unfolding build
Moves-Counted_example =
    Moves-Counted whole counting counting-IsRand whole-IsFloats three
      (on_conn uncount 0 after_first) ((0, counted 5 6 none) ∷ []) 0 (uncount (busy 5))
      ((refl, omega arith), ((refl, omega arith), ((refl, omega arith), tt))) first-Moves refl
