-- ===== src/Balance/WeightRoundRobin/Turns/Tracks.antt =====
-- loadbalance/roundrobin/weight_picker.go: the steps of a pick on connections of which it has seen the
-- first ones.
use emicro.Common.{
  ℕ, suc, ◌≡◌, refl, ap, inl, inr, true, false, Bool-cases, Option, none, some, List, [], ◌∷◌, ◌++◌,
  get_elem?, length, adjust-append_length, get_elem?-append_length, get_elem?-append_left,
  get_elem?-length, if◌then◌else◌,
}
use emicro.Common.Words.{add32}
use emicro.Balance.Best.{key_of}
use emicro.Balance.Types.{PickInfo}
use emicro.Balance.WeightRoundRobin.{WeightConn, WeightPicker, passes, bump, heavier}
use emicro.Balance.WeightRoundRobin.Turns.{visiting, comparing, advance_turn, after_loop, weight_at}

-- The place and the weight that the loop remembers are those of a connection it has seen.
abbrev pub Tracks : List WeightConn → Option ℕ → Option (ℕ × ℕ) → Type 0
Tracks front none none = Unit
Tracks front none (some best) = ⊥
Tracks front (some max) none = ⊥
Tracks front (some max) (some (place, weight)) =
    (max ≡ place)
    × ((con : WeightConn) × (get_elem? front max ≡ some con) × (con.current_weight ≡ weight))

pub Tracks-append :
    (front more : List WeightConn) (max : Option ℕ) (best : Option (ℕ × ℕ))
    → Tracks front max best
    → Tracks (front ++ more) max best
Tracks-append front more none none h = tt
Tracks-append front more none (some best) h = h
Tracks-append front more (some max) none h = h
Tracks-append front more (some max) (some (place, weight)) (same, (con, here, e)) =
    (same, (con, get_elem?-append_left front more max con here, e))

Tracks-weight :
    (front more : List WeightConn) (max : Option ℕ) (best : Option (ℕ × ℕ))
    → Tracks front max best
    → weight_at (front ++ more) max ≡ key_of best
Tracks-weight front more none none h = refl
Tracks-weight front more none (some best) h = absurd h
Tracks-weight front more (some max) none h = absurd h
Tracks-weight front more (some max) (some (place, weight)) (same, (con, here, e)) =
    rw (get_elem?-append_left front more max con here, weight_at) (ap some e)

-- The weighed connection takes the place of the one that the loop remembers, or does not.
pub Tracks-weighed :
    (front : List WeightConn) (con : WeightConn) (max : Option ℕ) (best : Option (ℕ × ℕ))
    → Tracks front max best
    → let more = heavier (key_of best) con.current_weight in
      Tracks
        (front ++ (con ∷ []))
        (if more then some (length front) else max)
        (if more then some (length front, con.current_weight) else best)
Tracks-weighed front con max best h = elim (Bool-cases (heavier (key_of best) con.current_weight)) [
  | inl more ↦ rw more (refl, (con, get_elem?-append_length front [] con, refl))
  | inr less ↦ rw less (Tracks-append front (con ∷ []) max best h)
]

abbrev pub over : WeightPicker → List WeightConn → WeightPicker
over p conns = record p { connections = conns }

module _ (p : WeightPicker) (info : PickInfo) where
  pub advance-end :
      (total : ℕ) (front : List WeightConn) (max : Option ℕ)
      → advance_turn info false (visiting (length front) total max) (over p front)
        ≡ (after_loop total max, over p front)
  unfolding advance_turn
  advance-end total front max = rw (get_elem?-length front, advance_turn)

  pub advance-skip :
      (total : ℕ) (front rest : List WeightConn) (con : WeightConn) (max : Option ℕ)
      → passes p info con ≡ false
      → advance_turn info false (visiting (length front) total max) (over p (front ++ (con ∷ rest)))
        ≡ (visiting (suc (length front)) total max, over p (front ++ (con ∷ rest)))
  unfolding advance_turn
  advance-skip total front rest con max out =
      rw (get_elem?-append_length front rest con, advance_turn) (rw out refl)

  pub advance-bump :
      (total : ℕ) (front rest : List WeightConn) (con : WeightConn) (max : Option ℕ)
      → passes p info con ≡ true
      → advance_turn info false (visiting (length front) total max) (over p (front ++ (con ∷ rest)))
        ≡ (
          comparing (length front) (add32 total con.efficient_weight) max,
          over p (front ++ (bump con ∷ rest)),
        )
  unfolding advance_turn
  advance-bump total front rest con max here =
      rw (get_elem?-append_length front rest con, advance_turn)
        (rw (here, adjust-append_length bump front rest con) refl)

  pub advance-compare :
      (total : ℕ) (front rest : List WeightConn) (con : WeightConn) (max : Option ℕ)
      (best : Option (ℕ × ℕ))
      → Tracks front max best
      → advance_turn info false
          (comparing (length front) total max)
          (over p (front ++ (con ∷ rest)))
        ≡ (
          visiting
              (suc (length front))
              total
              (if heavier (key_of best) con.current_weight then some (length front) else max),
          over p (front ++ (con ∷ rest)),
        )
  unfolding advance_turn
  advance-compare total front rest con max best h = rw (
    get_elem?-append_length front rest con,
    Tracks-weight front (con ∷ rest) max best h,
    advance_turn,
  )
