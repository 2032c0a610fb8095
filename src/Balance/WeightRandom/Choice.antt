-- ===== src/Balance/WeightRandom/Choice.antt =====
-- What the weighted random pick returns, draw by draw.
use emicro.Common.{
  ℕ, zero, suc, ◌^◌, le→leb, lt→not-leb, get_elem?, replicate, length-append, length-replicate, ◌+◌,
  ◌-◌, ◌≤◌, ◌<◌, ◌≡◌, ◌≢◌, ◌↔◌, List-cases, sym, refl, ap, ◌∙◌, inl, inr, Bool, Bool-cases, Option,
  none, some, List, [], ◌∷◌, ◌++◌, ◌==◌, leb, ne→not-==, if◌then◌else◌, length, select, arith,
}
use native.Mathlib.Decide.{dec_le}
use emicro.Common.Words.{add32}
use emicro.Balance.Types.{PickInfo}
use emicro.Balance.WeightRandom.{WeightConn, WeightPicker, total_weight, choose, passes, pick}

-- The sum of the weights, as it is with no wrap.
unfoldable pub sum_weights : List WeightConn → ℕ
sum_weights [] = 0
sum_weights (con ∷ rest) = con.weight + sum_weights rest

module _ (pass : WeightConn → Bool) where
  total_weight-le :
      (conns : List WeightConn) (total : ℕ)
      → total_weight pass total conns ≤ total + sum_weights (select pass conns)
  unfolding total_weight sum_weights
  total_weight-le [] total = omega arith
  total_weight-le (con ∷ rest) total = elim (Bool-cases (pass con)) [
    | inr out ↦ rw out (total_weight-le rest total)
    | inl p ↦ rw p (omega (arith, total_weight-le rest (add32 total con.weight)))
  ]

-- The second loop on the candidates alone.
draw : ℕ → List WeightConn → Option WeightConn
draw val [] = none
draw val (con ∷ rest) = if leb val con.weight then some con else draw (val - con.weight) rest

choose-draw :
    (pass : WeightConn → Bool) (conns : List WeightConn) (val : ℕ)
    → choose pass val conns ≡ draw val (select pass conns)
unfolding choose draw
choose-draw pass [] val = refl
choose-draw pass (con ∷ rest) val = elim (Bool-cases (pass con)) [
  | inr out ↦ rw out (choose-draw pass rest val)
  | inl p ↦ rw p (
      ap (λ next. if leb val con.weight then some con else next)
        (choose-draw pass rest (val - con.weight)))
]

draw_ends : (cs : List WeightConn) (val : ℕ) → cs ≢ [] → val ≤ sum_weights cs → draw val cs ≢ none
unfolding draw sum_weights
draw_ends [] val some_left h = absurd (some_left refl)
draw_ends (con ∷ []) val some_left h = ground arith
draw_ends (con ∷ next ∷ rest) val some_left h =
    ground (arith, draw_ends (next ∷ rest) (val - con.weight))

-- Each connection as often as its weight.
abbrev pub tickets : List WeightConn → List WeightConn
tickets [] = []
tickets (con ∷ rest) = replicate con.weight con ++ tickets rest

-- The connection of each draw: the draw 0 goes to the first connection too.
abbrev pub owners : List WeightConn → List WeightConn
owners [] = []
owners (con ∷ rest) = con ∷ tickets (con ∷ rest)

length-tickets : (cs : List WeightConn) → length (tickets cs) ≡ sum_weights cs
unfolding sum_weights
length-tickets [] = refl
length-tickets (con ∷ rest) = omega (
  arith,
  length-append (replicate con.weight con) (tickets rest),
  length-replicate con.weight con,
  length-tickets rest,
)

-- An element of so many equal ones in front of a list, and of the list.
get_elem?-replicate :
    {A : Type 0} (x : A) (xs : List A) (w v : ℕ)
    → v < w
    → get_elem? (replicate w x ++ xs) v ≡ some x
get_elem?-replicate x xs zero v h = absurd (omega arith)
get_elem?-replicate x xs (suc w) zero h = refl
get_elem?-replicate x xs (suc w) (suc v) h = get_elem?-replicate x xs w v (omega arith)

get_elem?-behind :
    {A : Type 0} (x : A) (xs : List A) (w v : ℕ)
    → get_elem? (replicate w x ++ xs) (w + v) ≡ get_elem? xs v
get_elem?-behind x xs zero v = let e : 0 + v ≡ v = omega arith in rw e refl
get_elem?-behind x xs (suc w) v =
    let e : suc w + v ≡ suc (w + v) = omega arith in rw e (get_elem?-behind x xs w v)

draw-tickets : (cs : List WeightConn) (v : ℕ) → draw (suc v) cs ≡ get_elem? (tickets cs) v
unfolding draw
draw-tickets [] v = refl
draw-tickets (con ∷ rest) v = elim (dec_le (suc v) con.weight) [
  | yes within ↦
      rw (le→leb (suc v) con.weight within)
        (sym (get_elem?-replicate con (tickets rest) con.weight v (omega arith)))
  | no beyond ↦
      let k = v - con.weight in
      let at : v ≡ con.weight + k = omega arith in
      let left : suc v - con.weight ≡ suc k = omega arith in
      rw (lt→not-leb (suc v) con.weight (omega arith), left)
        (draw-tickets rest k
          ∙ sym (get_elem?-behind con (tickets rest) con.weight k)
          ∙ ap (get_elem? (replicate con.weight con ++ tickets rest)) (sym at))
]

draw-owners : (cs : List WeightConn) (val : ℕ) → draw val cs ≡ get_elem? (owners cs) val
unfolding draw
draw-owners [] val = refl
draw-owners (con ∷ rest) zero = ground arith
draw-owners (con ∷ rest) (suc v) = draw-tickets (con ∷ rest) v

abbrev pub candidates : WeightPicker → PickInfo → List WeightConn
candidates p info = select (passes p info) p.connections

-- The early return on an empty list of connections returns what the loop would.
choose_nonempty :
    (pass : WeightConn → Bool) (conns : List WeightConn) (val : ℕ)
    → (if length conns == 0 then none else choose pass val conns) ≡ choose pass val conns
unfolding choose
choose_nonempty pass [] val = refl
choose_nonempty pass (con ∷ rest) val = rw (ne→not-== (suc (length rest)) 0 (omega arith))

pick-draw :
    (random : ℕ → ℕ) (p : WeightPicker) (info : PickInfo)
    → pick random p info
      ≡ draw (random (total_weight (passes p info) 0 p.connections + 1)) (candidates p info)
unfolding pick
pick-draw random p info =
    choose_nonempty (passes p info) p.connections _ ∙ choose-draw (passes p info) p.connections _

-- The error is returned exactly where no connection passes: every draw of rand.Intn, which is below
-- its argument, ends at a connection, also where the uint32 total has wrapped.
pub pick-none_iff :
    (random : ℕ → ℕ) (p : WeightPicker) (info : PickInfo)
    → ((n : ℕ) → 0 < n → random n < n)
    → (pick random p info ≡ none) ↔ (candidates p info ≡ [])
pick-none_iff random p info below = elim (List-cases (candidates p info)) [
  | inl nobody ↦ (λ _. nobody, λ _. rw (pick-draw random p info, nobody) (unfold draw in refl))
  | inr some_left ↦ (
    λ e.
        absurd
          (draw_ends (candidates p info) drawn some_left small (sym (pick-draw random p info) ∙ e)),
    λ e. absurd (some_left e),
  )
]
  where
    total : ℕ
    total = total_weight (passes p info) 0 p.connections

    drawn : ℕ
    drawn = random (total + 1)

    small : drawn ≤ sum_weights (candidates p info)
    small = omega (arith, below (total + 1), total_weight-le (passes p info) p.connections 0)

-- With no wrap, the total that is summed up is the sum of the weights.
total_weight-sum :
    (pass : WeightConn → Bool) (conns : List WeightConn) (total : ℕ)
    → total + sum_weights (select pass conns) < 2 ^ 32
    → total_weight pass total conns ≡ total + sum_weights (select pass conns)
unfolding total_weight sum_weights
total_weight-sum pass [] total small = omega arith
total_weight-sum pass (con ∷ rest) total small = elim (Bool-cases (pass con)) [
  | inr out ↦ rw out (total_weight-sum pass rest total (rw out at small))
  | inl p ↦
      let small' : total + (con.weight + sum_weights (select pass rest)) < 2 ^ 32 = rw p at small in
      let word : add32 total con.weight ≡ total + con.weight = omega arith in
      rw p (total_weight-sum pass rest (add32 total con.weight) (omega arith) ∙ omega arith)
]

-- Where the weights of the candidates add up to less than 2^32, and there is a candidate, the pick is
-- the element, at the place that rand.Intn draws, of a list that has each candidate as often as its
-- weight, in their order, and the first one once more; and Intn gets the length of that list, so that
-- each of its elements has one draw.
pub pick_share :
    (random : ℕ → ℕ) (p : WeightPicker) (info : PickInfo)
    → candidates p info ≢ []
    → sum_weights (candidates p info) < 2 ^ 32
    → let cs = candidates p info in
      pick random p info ≡ get_elem? (owners cs) (random (length (owners cs)))
pick_share random p info some_left small =
    pick-draw random p info
    ∙ draw-owners (candidates p info) _
    ∙ ap (λ n. get_elem? (owners (candidates p info)) (random n))
        (ap (λ n. n + 1) (total_weight-sum (passes p info) p.connections 0 (omega arith))
          ∙ room (candidates p info) some_left)
  where
    room : (cs : List WeightConn) → cs ≢ [] → 0 + sum_weights cs + 1 ≡ length (owners cs)
    room [] n = absurd (n refl)
    room (con ∷ rest) n = omega (arith, length-tickets (con ∷ rest))
