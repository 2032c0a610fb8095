-- ===== src/Balance/P2c/Draws.antt =====
-- loadbalance/p2c/picker.go: the connections that a pick chooses between.
use emicro.Common.{
  ℕ, zero, suc, ◌+◌, ◌-◌, ◌≤◌, ◌<◌, ◌≡◌, refl, ◌≢◌, inl, inr, ◌&&◌, Bool-cases, leb, Option, none,
  some, List, [], ◌∷◌, length, get_elem?_lt, ok, Returns, Returns-bind, arith, if◌then◌else◌,
}
use emicro.Balance.P2c.{Conn, Rand, healthy, at_place, draw_two, draw_nodes, pick_times, candidates}

-- rand.Rand.Intn returns a number below its bound.
pub record IsRand {R : Type 0} (rand : Rand R) : Type 0 where
  pub intn-lt : (n : ℕ) (r : R) → 0 < n → (rand.intn n r).0 < n

-- Two different places of a list of `n`.
pub record IsPair (n i j : ℕ) : Type 0 where
  pub distinct : i ≢ j
  pub first_lt : i < n
  pub second_lt : j < n

-- What Pick may hand to choose: nothing from no connections, the one connection, or two different
-- ones.
abbrev pub IsCandidates : List Conn → Option (ℕ × Option ℕ) → Type 0
IsCandidates cs none = cs ≡ []
IsCandidates cs (some (i, none)) = (i ≡ 0) × (length cs ≡ 1)
IsCandidates cs (some (i, some j)) = IsPair (length cs) i j

-- `r` is what the first draw leaves of the random numbers.
draw_two_lem :
    {R : Type 0} (rand : Rand R)
    → IsRand rand
    → (n : ℕ) (r : R) → 2 ≤ n
    → IsPair n (draw_two rand n r).0.0 (draw_two rand n r).0.1
draw_two_lem rand law n r two =
    shift (rand.intn n r).0 (rand.intn (n - 1) (rand.intn n r).1).0 (law.intn-lt n r (omega arith))
      (law.intn-lt (n - 1) (rand.intn n r).1 (omega arith))
  where
    shift : (i j : ℕ) → i < n → j < n - 1 → IsPair n i (if leb i j then j + 1 else j)
    shift i j hi hj = record { distinct = ground arith; first_lt = hi; second_lt = ground arith }

at_place_lem : (cs : List Conn) (i : ℕ) → i < length cs → (c : Conn) × (at_place cs i ≡ ok c)
at_place_lem cs i h = let (c, e) = get_elem?_lt cs i h in (c, rw (e, at_place))

-- The draws left a pair of places.
abbrev Drawn : {R : Type 0} → List Conn → Option (ℕ × ℕ) × R → Type 0
Drawn cs (nodes, r) = (pair : ℕ × ℕ) × (nodes ≡ some pair) × IsPair (length cs) pair.0 pair.1

-- Each of the rounds leaves a pair, so the loop returns one when there is a round.
draw_nodes_lem :
    {R : Type 0} (rand : Rand R)
    → IsRand rand
    → (k : ℕ) (cs : List Conn) (r : R) (nodes : Option (ℕ × ℕ)) → 2 ≤ length cs
    → (k ≡ 0 → Drawn cs (nodes, r))
    → Returns (Drawn cs) (draw_nodes rand k cs r nodes)
unfolding draw_nodes
draw_nodes_lem rand law zero cs r nodes two had = had refl
draw_nodes_lem rand law (suc k) cs r nodes two had =
    let pair = draw_two_lem rand law (length cs) r two in
    let (c1, e1) = at_place_lem cs _ pair.first_lt in
    let (c2, e2) = at_place_lem cs _ pair.second_lt in
    rw (e1, e2, draw_nodes)
      (elim (Bool-cases (healthy c1 && healthy c2)) [
        | inl both ↦ rw both (_, refl, pair)
        | inr neither ↦ rw neither (draw_nodes_lem rand law k cs _ _ two (λ z. (_, refl, pair)))
      ])

-- Where rand.Intn stays below its bound, what Pick hands to choose is nothing for no connections,
-- the one connection, or two different ones; Pick does not panic before that.
pub candidates_lem :
    {R : Type 0} (rand : Rand R)
    → IsRand rand
    → (cs : List Conn) (r : R) → Returns (λ c. IsCandidates cs c.0) (candidates rand cs r)
unfolding candidates
candidates_lem rand law [] r = refl
candidates_lem rand law (con ∷ []) r = (refl, refl)
candidates_lem rand law (con1 ∷ con2 ∷ []) r = record {
  distinct = omega arith;
  first_lt = omega arith;
  second_lt = omega arith;
}
candidates_lem rand law (con1 ∷ con2 ∷ con3 ∷ cs) r =
    Returns-bind (Drawn (con1 ∷ con2 ∷ con3 ∷ cs)) _ _ _
      (draw_nodes_lem rand law pick_times (con1 ∷ con2 ∷ con3 ∷ cs) r none (omega arith)
        (λ z. absurd (omega arith)))
      (λ (nodes, r') (pair, e, h). rw e h)
