-- ===== src/Balance/LeastActive/Turns/Counts.antt =====
-- loadbalance/leastactive/picker.go: what a connection counts, through picks that run at the same
-- time.
use emicro.Common.{
  ℕ, ◌+◌, ◌%◌, ◌^◌, ◌≡◌, ◌≢◌, refl, ◌∙◌, sym, ap, inl, inr, Option, none, some, List, [], get_elem?,
  adjust_get, ◌==◌, if◌then◌else◌, arith, All, All-get, sum_by, sum_by-between,
}
use emicro.Common.Words.{add32, sub32}
use emicro.Balance.Types.{PickInfo}
use emicro.Balance.LeastActive.{Conn, Picker}
use emicro.Balance.LeastActive.Turns.{
  Turn, scanning, counting, failed, picked, finished, advance_turn, after_loop, on_active, Shared,
  Step, begins, advances, Run, stay, step,
}

-- A pick that was returned for the place and whose Done was not called.
abbrev pub calls_of : ℕ → Turn → ℕ
calls_of i (picked res) = if res == i then 1 else 0
calls_of i (scanning place least res) = 0
calls_of i (counting res) = 0
calls_of i failed = 0
calls_of i finished = 0

abbrev pub calls_at : ℕ → List (PickInfo × Turn) → ℕ
calls_at i turns = sum_by (λ t. calls_of i t.1) turns

-- A step changes a count by what the call counts before and after it.
abbrev Moves : Turn → Picker → Turn × Picker → Type 0
Moves turn p (next, q) =
    (i : ℕ) (c : Conn)
    → get_elem? q.connections i ≡ some c
    → (x : Conn) × (get_elem? p.connections i ≡ some x)
      × ((c.active + calls_of i turn) % 2 ^ 32 ≡ (x.active + calls_of i next) % 2 ^ 32)

-- No call counts in the loop, nor at its end.
loop_counts : (i : ℕ) (res : Option ℕ) → calls_of i (after_loop res) ≡ 0
loop_counts i none = refl
loop_counts i (some res) = refl

on_active-Moves :
    (f : ℕ → ℕ) (res : ℕ) (turn next : Turn) (p : Picker)
    → ((n : ℕ) → (f n + calls_of res turn) % 2 ^ 32 ≡ (n + calls_of res next) % 2 ^ 32)
    → ((i : ℕ) → res ≢ i → calls_of i turn ≡ calls_of i next)
    → Moves turn p (next, on_active f res p)
on_active-Moves f res turn next p same other i c at = elim (adjust_get _ res i p.connections c at) [
  | inl (here, (x, found, e)) ↦
      let up : c.active ≡ f x.active = ap (λ (z : Conn). z.active) e in
      (x, found, rw (up, sym here) (same x.active))
  | inr (apart, found) ↦ (c, found, rw (other i apart) refl)
]

unchanged-Moves :
    (turn next : Turn) (p : Picker)
    → ((i : ℕ) → calls_of i turn ≡ calls_of i next)
    → Moves turn p (next, p)
unchanged-Moves turn next p same i c at = (c, at, rw (same i) refl)

scanning-Moves :
    (info : PickInfo) (place least : ℕ) (res : Option ℕ) (p : Picker)
    → Moves (scanning place least res) p (advance_turn info (scanning place least res) p)
unfolding advance_turn
scanning-Moves info place least res p = go (get_elem? p.connections place) refl
  where
    go :
        (x : Option Conn)
        → get_elem? p.connections place ≡ x
        → Moves (scanning place least res) p (advance_turn info (scanning place least res) p)
    go none e =
        rw (e, advance_turn)
          (unchanged-Moves (scanning place least res) (after_loop res) p
            (λ i. sym (loop_counts i res)))
    go (some con) e =
        rw (e, advance_turn) (unchanged-Moves (scanning place least res) _ p (λ i. ground arith))

advance_turn-Moves :
    (info : PickInfo) (turn : Turn) (p : Picker) → Moves turn p (advance_turn info turn p)
unfolding advance_turn
advance_turn-Moves info (scanning place least res) p = scanning-Moves info place least res p
advance_turn-Moves info (counting res) p =
    on_active-Moves (λ n. add32 n 1) res (counting res) (picked res) p (λ n. ground arith)
      (λ i apart. ground arith)
advance_turn-Moves info (picked res) p =
    on_active-Moves (λ n. sub32 n 1) res (picked res) finished p (λ n. ground arith)
      (λ i apart. ground arith)
advance_turn-Moves info failed p = unchanged-Moves failed failed p (λ i. refl)
advance_turn-Moves info finished p = unchanged-Moves finished finished p (λ i. refl)

abbrev Counted : Shared → Type 0
Counted (p, turns) =
    (i : ℕ) (c : Conn)
    → get_elem? p.connections i ≡ some c
    → c.active % 2 ^ 32 ≡ calls_at i turns % 2 ^ 32

step-Counted : (s t : Shared) → Step s t → Counted s → Counted t
step-Counted s t (begins info p turns) h i c at =
    h i c at ∙ ap (λ (n : ℕ). n % 2 ^ 32) (omega arith)
step-Counted s t (advances info turn next p q a b e) h i c at =
    let moves : Moves turn p (next, q) = rw e at (advance_turn-Moves info turn p) in
    let (x, here, moved) = moves i c at in
    let calls : PickInfo × Turn → ℕ = λ t. calls_of i t.1 in
    omega (
      arith,
      moved,
      h i x here,
      sum_by-between calls a b (info, turn),
      sum_by-between calls a b (info, next),
    )

Run-Counted : (s t : Shared) → Run s t → Counted s → Counted t
Run-Counted s t stay h = h
Run-Counted s u (step t _ r e) h = step-Counted t u e (Run-Counted s t r h)

-- From a picker with no active calls, through any number of picks and Dones whose atomic operations
-- interleave in any order, each connection counts as many calls as were picked there and not ended,
-- modulo 2^32.
pub active-Run :
    (p q : Picker) (turns : List (PickInfo × Turn)) (i : ℕ) (c : Conn)
    → All (λ c. c.active ≡ 0) p.connections
    → Run (p, []) (q, turns)
    → get_elem? q.connections i ≡ some c
    → c.active % 2 ^ 32 ≡ calls_at i turns % 2 ^ 32
active-Run p q turns i c idle run at =
    Run-Counted (p, []) (q, turns) run
      (λ j d e. omega (arith, All-get (λ c. c.active ≡ 0) p.connections j d idle e)) i c at
