-- ===== src/Balance/P2c/Choice.antt =====
-- loadbalance/p2c/picker.go: what a pick returns, and what it writes down.
use emicro.Common.{
  ℕ, zero, suc, ◌≡◌, refl, ◌≢◌, ◌⊎◌, inl, inr, Bool, true, false, Bool-cases, Option, none, some,
  List, [], ◌∷◌, ap, sym, ◌∙◌, ltb, length, get_elem?, get_elem?_lt, adjust, ok, Returns,
  Returns-bind, arith,
}
use emicro.Common.Words.{sub64, lt_signed}
use emicro.Balance.P2c.{
  Floats, Rand, Conn, Picker, at_place, choose, pick, pick_among, load, force_pick, set_pick_time,
  begin_call,
}
use emicro.Balance.P2c.Draws.{IsRand, IsPair, IsCandidates, candidates_lem}

-- A connection that was not picked for longer than `force_pick`.
abbrev pub overdue : ℕ → Conn → Bool
overdue now c = lt_signed force_pick (sub64 now c.pick_time)

abbrev pub picked : ℕ → Conn → Conn
picked now c = begin_call (set_pick_time now c)

ltb_asym : (a b : ℕ) → ltb a b ≡ true → ltb b a ≡ false
ltb_asym a b h = ground arith

pub adjust-adjust_same {ℓ} :
    {A : Type ℓ} (f g : A → A) (i : ℕ) (xs : List A)
    → adjust g i (adjust f i xs) ≡ adjust (λ x. g (f x)) i xs
adjust-adjust_same f g i [] = refl
adjust-adjust_same f g zero (x ∷ xs) = refl
adjust-adjust_same f g (suc i) (x ∷ xs) = ap (◌∷◌ x) (adjust-adjust_same f g i xs)

pub at_place-get :
    (cs : List Conn) (i : ℕ) (c : Conn) → get_elem? cs i ≡ some c → at_place cs i ≡ ok c
at_place-get cs i c e = rw (e, at_place)

module _ {F : Type 0} (floats : Floats F) where
  -- Why one of two connections is picked: it is no heavier and the other is not overdue, or it is no
  -- lighter and overdue.
  abbrev pub Preferred : ℕ → Conn → Conn → Type 0
  Preferred now con rival =
      ((lt_signed (load floats rival) (load floats con) ≡ false) × (overdue now rival ≡ false))
      ⊎ ((lt_signed (load floats con) (load floats rival) ≡ false) × (overdue now con ≡ true))

  pub record Chosen (now : ℕ) (cs : List Conn) (i : ℕ) : Type 0 where
    pub con : Conn
    pub here : get_elem? cs i ≡ some con
    pub reason :
        (length cs ≡ 1)
        ⊎ ((j : ℕ) × (rival : Conn) × (i ≢ j)
            × (get_elem? cs j ≡ some rival)
            × Preferred now con rival)

  abbrev Chooses : ℕ → List Conn → ℕ × List Conn → Type 0
  Chooses now cs (i, after) = Chosen now cs i × (after ≡ adjust (set_pick_time now) i cs)

  choose_two :
      (now : ℕ) (cs : List Conn) (i j : ℕ)
      → IsPair (length cs) i j
      → Returns (Chooses now cs) (choose floats now cs i (some j))
  unfolding choose
  choose_two now cs i j pair =
      let (c1, e1) = get_elem?_lt cs i pair.first_lt in
      let (c2, e2) = get_elem?_lt cs j pair.second_lt in
      rw (at_place-get cs i c1 e1, at_place-get cs j c2 e2, choose)
        (elim (Bool-cases (lt_signed (load floats c2) (load floats c1))) [
          | inl heavy ↦ rw heavy (elim (Bool-cases (overdue now c1)) [
            | inl due ↦
                rw due (chosen i j c1 c2 e1 e2 pair.distinct (inr (ltb_asym _ _ heavy, due)), refl)
            | inr not_due ↦ rw not_due (
              chosen j i c2 c1 e2 e1 (λ e. pair.distinct (sym e))
                  (inl (ltb_asym _ _ heavy, not_due)),
              refl,
            )
          ])
          | inr light ↦ rw light (elim (Bool-cases (overdue now c2)) [
            | inl due ↦
                rw due
                  (chosen j i c2 c1 e2 e1 (λ e. pair.distinct (sym e)) (inr (light, due)), refl)
            | inr not_due ↦
                rw not_due (chosen i j c1 c2 e1 e2 pair.distinct (inl (light, not_due)), refl)
          ])
        ])
    where
      chosen :
          (i j : ℕ) (con rival : Conn)
          → get_elem? cs i ≡ some con
          → get_elem? cs j ≡ some rival
          → i ≢ j
          → Preferred now con rival
          → Chosen now cs i
      chosen i j con rival e e' d h = record {
        con = con;
        here = e;
        reason = inr (j, rival, d, e', h);
      }

  choose_one :
      (now : ℕ) (cs : List Conn)
      → length cs ≡ 1
      → Returns (Chooses now cs) (choose floats now cs 0 none)
  unfolding choose
  choose_one now cs one =
      let (c, e) = get_elem?_lt cs 0 (omega arith) in
      rw (at_place-get cs 0 c e, choose) (record { con = c; here = e; reason = inl one }, refl)

  -- The answer of a pick: the error, of a picker with no connections; or the place of a chosen
  -- connection, in which alone the call and its time are written down.
  abbrev pub IsAnswer : {R : Type 0} → ℕ → Picker R → Option ℕ × Picker R → Type 0
  IsAnswer now p (none, q) = (p.connections ≡ []) × (q ≡ record p { r = q.r })
  IsAnswer now p (some i, q) =
      Chosen now p.connections i
      × (q ≡ record p { connections = adjust (picked now) i p.connections; r = q.r })

  written :
      {R : Type 0} (now : ℕ) (p : Picker R) (r : R) (c : ℕ × List Conn)
      → Chooses now p.connections c
      → IsAnswer now p (some c.0, record p { connections = adjust begin_call c.0 c.1; r = r })
  written now p r (i, after) (h, e) = (
    h,
    ap (λ cs. record p { connections = cs; r = r })
        (ap (λ cs. adjust begin_call i cs) e
          ∙ adjust-adjust_same (set_pick_time now) begin_call i p.connections),
  )

  pick_among-IsAnswer :
      {R : Type 0} (now : ℕ) (p : Picker R) (nodes : Option (ℕ × Option ℕ)) (r : R)
      → IsCandidates p.connections nodes
      → Returns (IsAnswer now p) (pick_among floats now p nodes r)
  pick_among-IsAnswer now p none r h = (h, refl)
  pick_among-IsAnswer now p (some (i, none)) r (e, one) = rw e (
      Returns-bind (Chooses now p.connections) _ _ _ (choose_one now p.connections one)
        (written now p r))
  pick_among-IsAnswer now p (some (i, some j)) r h =
      Returns-bind (Chooses now p.connections) _ _ _ (choose_two now p.connections i j h)
        (written now p r)

  -- A pick never panics, where rand.Intn stays below its bound. It answers with the error only for
  -- no connections. Otherwise it picks the only connection, or one of two different ones: the
  -- lighter, or the heavier if that one was not picked for longer than a second; one more call in
  -- flight, one more request and the time are written down there, and nothing else changes.
  pub pick-IsAnswer :
      {R : Type 0} (rand : Rand R)
      → IsRand rand
      → (now : ℕ) (p : Picker R) → Returns (IsAnswer now p) (pick floats rand now p)
  unfolding pick
  pick-IsAnswer rand law now p =
      Returns-bind (λ c. IsCandidates p.connections c.0) _ _ _
        (candidates_lem rand law p.connections p.r)
        (λ (nodes, r). pick_among-IsAnswer now p nodes r)
