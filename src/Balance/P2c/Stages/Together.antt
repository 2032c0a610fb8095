-- ===== src/Balance/P2c/Stages/Together.antt =====
-- loadbalance/p2c/picker.go: picks, and Dones whose atomic operations interleave in any order.
use emicro.Common.{
  ℕ, ◌+◌, ◌%◌, ◌≡◌, refl, ◌∙◌, ap, inl, inr, Bool, false, Bool-cases, Option, none, some, List, [],
  ◌∷◌, ◌++◌, get_elem?, adjust, ok, ◌==◌, ◌&&◌, ◌≤◌, if◌then◌else◌, arith, All, All-get, All-middle,
  All-replace, sum_by, sum_by-between, adjust_get,
}
use emicro.Common.Words.{add64, sub64, u64_mod}
use emicro.Internal.Codes.{Code}
use emicro.Balance.P2c.{Floats, Rand, Conn, Picker, pick, init_success}
use emicro.Balance.P2c.Draws.{IsRand}
use emicro.Balance.P2c.Choice.{IsAnswer, pick-IsAnswer, picked}
use emicro.Balance.P2c.Flights.{one_more, one_less}
use emicro.Balance.P2c.Averages.{IsFloats, AllInRange, adjust-InRange}
use emicro.Balance.P2c.Stages.{Stage, begun, advance_done}
use emicro.Balance.P2c.Stages.Effect.{in_flight, IsSound, Goes, advance_done-Goes}

-- The places of the picks that were made, with how far the Done of each has come; a Done that has not
-- been called yet is at its begin.
abbrev pub Dones : Type 0 → Type 0
Dones F = List (ℕ × Stage F)

-- The picks of a place whose call is in flight.
abbrev pub flies_at : {F : Type 0} → ℕ → ℕ × Stage F → ℕ
flies_at i (place, stage) = if (place == i) && in_flight stage then 1 else 0

abbrev pub flying_at : {F : Type 0} → ℕ → Dones F → ℕ
flying_at i dones = sum_by (flies_at i) dones

flying_at-between :
    {F : Type 0} (i place : ℕ) (stage : Stage F) (a b : Dones F)
    → flying_at i (a ++ ((place, stage) ∷ b))
      ≡ (if (place == i) && in_flight stage then flying_at i (a ++ b) + 1 else flying_at i (a ++ b))
flying_at-between i place stage a b = ground (arith, sum_by-between (flies_at i) a b (place, stage))

&&_false : (x : Bool) → (x && false) ≡ false
&&_false x = ground arith

-- Each connection counts the calls that are in flight at its place.
abbrev pub Counted : {F : Type 0} → List Conn → Dones F → Type 0
Counted cs dones =
    (i : ℕ) (c : Conn) → get_elem? cs i ≡ some c → c.inflight ≡ flying_at i dones % u64_mod

abbrev pub Shared : Type 0 → Type 0 → Type 0
Shared F R = Picker R × Dones F

module _ {F R : Type 0} (floats : Floats F) (rand : Rand R) where
  pub data Move : Shared F R → Shared F R → Type 0 where
    picks :
        (now start i : ℕ) (p q : Picker R) (dones : Dones F)
        → pick floats rand now p ≡ ok (some i, q)
        → Move (p, dones) (q, (i, begun start) ∷ dones)
    fails :
        (now : ℕ) (p q : Picker R) (dones : Dones F)
        → pick floats rand now p ≡ ok (none, q)
        → Move (p, dones) (q, dones)
    advances :
        (now : ℕ) (err : Option Code) (place : ℕ) (stage next : Stage F) (p q : Picker R)
        (a b : Dones F)
        → advance_done floats now err place stage p ≡ ok (next, q)
        → Move (p, a ++ ((place, stage) ∷ b)) (q, a ++ ((place, next) ∷ b))

  pub data Moves (s : Shared F R) : Shared F R → Type 0 where
    stay : Moves s s
    move : (t u : Shared F R) → Moves s t → Move t u → Moves s u

  module _ (law_r : IsRand rand) (law : IsFloats floats) where
    record Fits (s : Shared F R) : Type 0 where
      in_range : AllInRange floats law s.0.connections
      counts : Counted s.0.connections s.1
      sound : All (λ d. IsSound floats law d.1) s.1

    pick-counts :
        (i j now start : ℕ) (cs : List Conn) (dones : Dones F) (c : Conn)
        → Counted cs dones
        → get_elem? (adjust (picked now) i cs) j ≡ some c
        → c.inflight ≡ flying_at j ((i, begun start) ∷ dones) % u64_mod
    pick-counts i j now start cs dones c h at = elim (adjust_get (picked now) i j cs c at) [
      | inl (same, (x, here, e)) ↦
          let up : c.inflight ≡ add64 x.inflight 1 = ap (λ (z : Conn). z.inflight) e in
          let more : flying_at j ((i, begun start) ∷ dones) ≡ flying_at j dones + 1 =
            ground arith in
          rw (up, more) (one_more x.inflight (flying_at j dones) (h j x here))
      | inr (other, here) ↦
          let same : flying_at j ((i, begun start) ∷ dones) ≡ flying_at j dones = ground arith in
          rw same (h j c here)
    ]

    advance-counts :
        (place j : ℕ) (stage next : Stage F) (a b : Dones F) (x c : Conn)
        → in_flight next ≡ false
        → x.inflight ≡ flying_at j (a ++ ((place, stage) ∷ b)) % u64_mod
        → c.inflight ≡ (if (place == j) && in_flight stage then sub64 x.inflight 1 else x.inflight)
        → c.inflight ≡ flying_at j (a ++ ((place, next) ∷ b)) % u64_mod
    advance-counts place j stage next a b x c down h e =
        let before = rw (flying_at-between j place stage a b) at h in
        let after : flying_at j (a ++ ((place, next) ∷ b)) ≡ flying_at j (a ++ b) =
          rw (flying_at-between j place next a b, down, &&_false (place == j)) refl in
        rw after (elim (Bool-cases ((place == j) && in_flight stage)) [
          | inl counted ↦
              (rw counted at e) ∙ one_less x.inflight (flying_at j (a ++ b)) (rw counted at before)
          | inr not_counted ↦ (rw not_counted at e) ∙ (rw not_counted at before)
        ])

    pick-Fits :
        (now start i : ℕ) (p q : Picker R) (dones : Dones F)
        → IsAnswer floats now p (some i, q)
        → Fits (p, dones)
        → Fits (q, (i, begun start) ∷ dones)
    pick-Fits now start i p q dones (_, e) h = record {
      in_range =
          rw e (adjust-InRange floats law (picked now) i p.connections (λ c k. k) h.in_range);
      counts = λ j c at. pick-counts i j now start p.connections dones c h.counts (rw e at at);
      sound = (tt, h.sound);
    }

    advance-Fits :
        (place : ℕ) (stage next : Stage F) (p q : Picker R) (a b : Dones F)
        → Goes floats law place stage p (next, q)
        → Fits (p, a ++ ((place, stage) ∷ b))
        → Fits (q, a ++ ((place, next) ∷ b))
    advance-Fits place stage next p q a b (changes, sound, down) h = record {
      in_range = λ j c at. (changes j c at).0;
      counts = λ j c at.
          let (x, here, e) = (changes j c at).1 in
          advance-counts place j stage next a b x c down (h.counts j x here) e;
      sound =
          All-replace (λ d. IsSound floats law d.1) a b (place, stage) (place, next) sound h.sound;
    }

    move-Fits : (s t : Shared F R) → Move s t → Fits s → Fits t
    move-Fits s t (picks now start i p q dones e) h =
        pick-Fits now start i p q dones (rw e at (pick-IsAnswer floats rand law_r now p)) h
    move-Fits s t (fails now p q dones e) h =
        let (_, same) = rw e at (pick-IsAnswer floats rand law_r now p) in
        rw same record { in_range = h.in_range; counts = h.counts; sound = h.sound }
    move-Fits s t (advances now err place stage next p q a b e) h =
        advance-Fits place stage next p q a b
          (rw e at (
            advance_done-Goes floats law now err place stage p
              (All-middle (λ d. IsSound floats law d.1) a b (place, stage) h.sound) h.in_range))
          h

    Moves-Fits : (s t : Shared F R) → Moves s t → Fits s → Fits t
    Moves-Fits s t stay h = h
    Moves-Fits s u (move t _ r e) h = move-Fits t u e (Moves-Fits s t r h)

    -- From a picker with no calls counted and no success rate over 1000, through any sequence of picks
    -- and of atomic operations of the Dones of picks that were made, whatever their order and however
    -- many run at the same time: each connection counts as many calls in flight as were picked there
    -- and did not come to the first operation of their Done, modulo 2^64, and no success rate is over
    -- 1000; rand.Intn must stay below its bound, and the floats must round a mean of two numbers to no
    -- more than the greater.
    pub Moves-Counted :
        (p q : Picker R) (dones : Dones F) (i : ℕ) (c : Conn)
        → All (λ c. (c.inflight ≡ 0) × (c.success ≤ init_success)) p.connections
        → Moves (p, []) (q, dones)
        → get_elem? q.connections i ≡ some c
        → (c.inflight ≡ flying_at i dones % u64_mod) × (c.success ≤ init_success)
    Moves-Counted p q dones i c idle moves at =
        let begins : (j : ℕ) (d : Conn)
            → get_elem? p.connections j ≡ some d
            → (d.inflight ≡ 0) × (d.success ≤ init_success) =
          λ j d e.
            All-get (λ c. (c.inflight ≡ 0) × (c.success ≤ init_success)) p.connections j d idle e in
        let fits =
          Moves-Fits (p, []) (q, dones) moves
            (record {
              in_range = λ j d e. (begins j d e).1;
              counts = λ j d e. omega (arith, (begins j d e).0);
              sound = tt;
            }) in
        (fits.counts i c at, fits.in_range i c at)
