-- ===== src/Balance/LeastActive/Turns/Alone.antt =====
-- loadbalance/leastactive/picker.go: a pick that no other runs beside.
use mathlib.Core.List.{append_assoc, append-nil}
use emicro.Common.{
  ℕ, zero, suc, ◌+◌, ◌≤◌, ◌^◌, ◌-◌, ◌≡◌, refl, sym, ◌∙◌, ap, inl, inr, Bool, true, false,
  Bool-cases, Option, none, some, List, [], ◌∷◌, ◌++◌, length, length-append, get_elem?,
  get_elem?-length, get_elem?-append_length, ltb, ne→not-==, if◌then◌else◌, ◌==◌, arith,
}
use emicro.Common.Words.{add32}
use emicro.Balance.Best.{key_of, best_from}
use emicro.Balance.Types.{PickInfo}
use emicro.Balance.LeastActive.{Conn, Picker, less_active, set_active, pick}
use emicro.Balance.LeastActive.Turns.{
  Turn, scanning, counting, failed, picked, finished, first_turn, after_loop, advance_turn,
}

abbrev is_returned : Turn → Bool
is_returned (scanning place least res) = false
is_returned (counting res) = false
is_returned failed = true
is_returned (picked res) = true
is_returned finished = true

-- At most some number of steps of one pick up to its return, with none of another between.
unfoldable run_alone : ℕ → PickInfo → Turn → Picker → Turn × Picker
run_alone zero info turn p = (turn, p)
run_alone (suc n) info turn p = elim (is_returned turn) [
  | true ↦ (turn, p)
  | false ↦ (let next = advance_turn info turn p in run_alone n info next.0 next.1)
]

-- What the returned pick stands for.
abbrev returned_as : Option ℕ × Picker → Turn × Picker
returned_as (none, p) = (failed, p)
returned_as (some res, p) = (picked res, p)

-- leastActive and the place of res, for the best connection so far.
abbrev least_of : Option (ℕ × ℕ) → ℕ
least_of none = 2 ^ 32 - 1
least_of (some (place, active)) = active

abbrev place_of : Option (ℕ × ℕ) → Option ℕ
place_of none = none
place_of (some (place, active)) = some place

less_active-least :
    (best : Option (ℕ × ℕ)) (active : ℕ)
    → less_active (key_of best) active ≡ ltb active (least_of best)
less_active-least none active = refl
less_active-least (some (place, least)) active = refl

run_alone-returned :
    (n : ℕ) (info : PickInfo) (turn : Turn) (p : Picker)
    → is_returned turn ≡ true
    → run_alone n info turn p ≡ (turn, p)
unfolding run_alone
run_alone-returned zero info turn p h = refl
run_alone-returned (suc n) info turn p h = rw (h, run_alone)

module _ (p : Picker) (info : PickInfo) where
  -- What `pick` makes of the end of its loop.
  abbrev choice_of : Option (ℕ × ℕ) → Option ℕ × Picker
  choice_of best = elim best [
    | none ↦ (none, p)
    | some (res, _) ↦
        (some res, record p { connections = set_active (λ n. add32 n 1) res p.connections })
  ]

  abbrev scan_from : List Conn → ℕ → Option (ℕ × ℕ) → Option (ℕ × ℕ)
  scan_from = best_from less_active (λ con. p.filter info con.address) (λ con. con.active)

  ends :
      (n : ℕ) (best : Option (ℕ × ℕ))
      → run_alone (suc n) info (after_loop (place_of best)) p ≡ returned_as (choice_of best)
  unfolding run_alone advance_turn
  ends n none = refl
  ends n (some (res, active)) = run_alone-returned n info (picked res) _ refl

  next :
      (n : ℕ) (turn t : Turn) (q : Picker)
      → is_returned turn ≡ false
      → advance_turn info turn p ≡ (t, q)
      → run_alone (suc n) info turn p ≡ run_alone n info t q
  unfolding run_alone
  next n turn t q going e =
      rw (going, run_alone) (ap (λ (s : Turn × Picker). run_alone n info s.0 s.1) e)

  -- The rest of the loop, behind the connections of `front`.
  scans :
      (n : ℕ) (front rest : List Conn) (best : Option (ℕ × ℕ))
      → p.connections ≡ front ++ rest
      → length rest + 2 ≤ n
      → run_alone n info (scanning (length front) (least_of best) (place_of best)) p
        ≡ returned_as (choice_of (scan_from rest (length front) best))
  unfolding advance_turn best_from
  scans zero front rest best all few = absurd (omega arith)
  scans (suc zero) front rest best all few = absurd (omega arith)
  scans (suc (suc n)) front [] best all few =
      let at : get_elem? p.connections (length front) ≡ none =
        rw (all, append-nil front) (get_elem?-length front) in
      next (suc n) _ (after_loop (place_of best)) p refl (rw (at, advance_turn) refl) ∙ ends n best
  scans (suc (suc n)) front (con ∷ rest) best all few =
      let at : get_elem? p.connections (length front) ≡ some con =
        rw all (get_elem?-append_length front rest con) in
      let seen : length (front ++ (con ∷ [])) ≡ suc (length front) =
        length-append front (con ∷ []) ∙ omega arith in
      let later : (best' : Option (ℕ × ℕ))
          → run_alone (suc n) info (scanning (suc (length front)) (least_of best') (place_of best'))
              p
            ≡ returned_as (choice_of (scan_from rest (suc (length front)) best')) =
        λ best'. rw seen at (
          scans (suc n) (front ++ (con ∷ [])) rest best'
            (all ∙ sym (append_assoc front (con ∷ []) rest)) (omega arith)) in
      elim (Bool-cases (p.filter info con.address)) [
        | inl passes ↦ elim (Bool-cases (ltb con.active (least_of best))) [
          | inl fewer ↦
              rw (passes, less_active-least best con.active, fewer)
                (next (suc n) _ _ p refl (rw (at, advance_turn, passes, fewer) refl)
                  ∙ later (some (length front, con.active)))
          | inr no_fewer ↦
              rw (passes, less_active-least best con.active, no_fewer)
                (next (suc n) _ _ p refl (rw (at, advance_turn, passes, no_fewer) refl)
                  ∙ later best)
        ]
        | inr filtered ↦
            rw filtered
              (next (suc n) _ _ p refl (rw (at, advance_turn, filtered) refl) ∙ later best)
      ]

  -- The test for no connections changes nothing.
  untested :
      (cs : List Conn)
      → (if length cs == 0 then (none, p) else choice_of (scan_from cs 0 none))
        ≡ choice_of (scan_from cs 0 none)
  unfolding best_from
  untested [] = refl
  untested (con ∷ rest) = rw (ne→not-== (suc (length rest)) 0 (omega arith)) refl

  pick-choice_of : pick p info ≡ choice_of (scan_from p.connections 0 none)
  unfolding pick
  pick-choice_of = untested p.connections

  -- A pick that no other runs beside returns, after at most a step for each connection and two more, what
  -- `pick` returns, and leaves the picker as `pick` does.
  run_alone-pick :
      (n : ℕ)
      → length p.connections + 2 ≤ n
      → run_alone n info first_turn p ≡ returned_as (pick p info)
  run_alone-pick n few =
      scans n [] p.connections none refl few ∙ ap returned_as (sym pick-choice_of)
