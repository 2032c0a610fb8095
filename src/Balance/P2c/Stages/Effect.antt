-- ===== src/Balance/P2c/Stages/Effect.antt =====
-- loadbalance/p2c/picker.go: what one atomic operation of a Done changes.
use emicro.Common.{
  IfReturns, ℕ, ◌≡◌, refl, ◌∙◌, ◌≢◌, inl, inr, Bool, true, false, Bool-cases, Option, none, some,
  List, get_elem?, map, adjust, adjust_get, map_get, ◌==◌, ◌&&◌, ◌≤◌, ◌<◌, ◌^◌, if◌then◌else◌,
  Outcome, ok, ◌>>=◌, arith,
}
use emicro.Common.Words.{sub64, lt_signed}
use emicro.Internal.Codes.{Code}
use emicro.Balance.P2c.{
  Floats, Conn, Picker, at_place, init_success, success_of, log_interval, log_stats, reset_requests,
}
use emicro.Balance.P2c.Averages.{
  IsFloats, InRange, AllInRange, weight-IsShare, success_of-le, elapsed_lt,
}
use emicro.Balance.P2c.Stages.{
  Stage, begun, counted, timed, latency_read, latency_stored, success_read, success_stored,
  stamp_read, due, ended, advance_done, uncount, set_last, set_latency, set_success,
}

IfReturns-at_place {ℓ} :
    {B : Type ℓ} (P : B → Type 0) (cs : List Conn) (i : ℕ) (f : Conn → Outcome B)
    → ((c : Conn) → get_elem? cs i ≡ some c → IfReturns P (f c))
    → IfReturns P (at_place cs i >>= f)
IfReturns-at_place P cs i f h = go (get_elem? cs i) refl
  where
    go : (x : Option Conn) → get_elem? cs i ≡ x → IfReturns P (at_place cs i >>= f)
    go none e = rw (e, at_place) tt
    go (some c) e = rw (e, at_place) (h c e)

-- Whether the call is still counted as in flight.
abbrev pub in_flight : {F : Type 0} → Stage F → Bool
in_flight (begun start) = true
in_flight (counted start now err) = false
in_flight (timed td latency now err) = false
in_flight (latency_read w old latency now err) = false
in_flight (latency_stored w now err) = false
in_flight (success_read w old now err) = false
in_flight (success_stored now) = false
in_flight (stamp_read now stamp) = false
in_flight due = false
in_flight (ended lines) = false

module _ {F : Type 0} (floats : Floats F) (law : IsFloats floats) where
  -- What the local variables of a Done keep of what it read.
  abbrev pub IsSound : Stage F → Type 0
  IsSound (latency_read w old latency now err) = law.IsShare w
  IsSound (latency_stored w now err) = law.IsShare w
  IsSound (success_read w old now err) = law.IsShare w × (old ≤ init_success)
  IsSound (begun start) = Unit
  IsSound (counted start now err) = Unit
  IsSound (timed td latency now err) = td < 2 ^ 63
  IsSound (success_stored now) = Unit
  IsSound (stamp_read now stamp) = Unit
  IsSound due = Unit
  IsSound (ended lines) = Unit

  -- Every connection has its success rate in range, and its calls in flight as before, or, at the
  -- place and where a call is taken off, one less.
  abbrev pub Changes : ℕ → Bool → List Conn → List Conn → Type 0
  Changes place down before after =
      (j : ℕ) (c : Conn)
      → get_elem? after j ≡ some c
      → InRange floats law c
        × ((x : Conn) × (get_elem? before j ≡ some x)
            × (c.inflight ≡ (if (place == j) && down then sub64 x.inflight 1 else x.inflight)))

  abbrev pub Goes : {R : Type 0} → ℕ → Stage F → Picker R → Stage F × Picker R → Type 0
  Goes place stage p (next, q) =
      Changes place (in_flight stage) p.connections q.connections
      × IsSound next
      × (in_flight next ≡ false)

  at_place_moves :
      (place j : ℕ) (down : Bool) (x : Conn)
      → place ≡ j
      → (if down then sub64 x.inflight 1 else x.inflight)
        ≡ (if (place == j) && down then sub64 x.inflight 1 else x.inflight)
  at_place_moves place j down x same = ground arith

  other_stays :
      (place j : ℕ) (down : Bool) (x : Conn)
      → place ≢ j
      → x.inflight ≡ (if (place == j) && down then sub64 x.inflight 1 else x.inflight)
  other_stays place j down x other = ground arith

  unchanged : (place : ℕ) (cs : List Conn) → AllInRange floats law cs → Changes place false cs cs
  unchanged place cs h j c at = (h j c at, (c, at, ground arith))

  changed :
      (place : ℕ) (down : Bool) (f : Conn → Conn) (cs : List Conn)
      → AllInRange floats law cs
      → ((x : Conn) → InRange floats law x → InRange floats law (f x))
      → ((x : Conn) → (f x).inflight ≡ (if down then sub64 x.inflight 1 else x.inflight))
      → Changes place down cs (adjust f place cs)
  changed place down f cs h keep moves j c at = elim (adjust_get f place j cs c at) [
    | inl (same, (x, here, e)) ↦
        rw e (keep x (h j x here), (x, here, moves x ∙ at_place_moves place j down x same))
    | inr (other, here) ↦ (h j c here, (c, here, other_stays place j down c other))
  ]

  reset :
      (place : ℕ) (cs : List Conn)
      → AllInRange floats law cs
      → Changes place false cs (map reset_requests cs)
  reset place cs h j c at =
      let (x, here, e) = map_get _ j cs c at in rw e (h j x here, (x, here, ground arith))

  log-Goes :
      {R : Type 0} (place : ℕ) (p : Picker R)
      → AllInRange floats law p.connections
      → IfReturns (Goes place due p) (do logged ← log_stats floats p; ok (ended logged.0, logged.1))
  unfolding log_stats
  log-Goes place p h = elim (Bool-cases p.has_log) [
    | inl has ↦ rw (has, log_stats) (reset place p.connections h, tt, refl)
    | inr hasnt ↦ rw (hasnt, log_stats) tt
  ]

  pub advance_done-Goes :
      {R : Type 0} (now : ℕ) (err : Option Code) (place : ℕ) (stage : Stage F) (p : Picker R)
      → IsSound stage
      → AllInRange floats law p.connections
      → IfReturns (Goes place stage p) (advance_done floats now err place stage p)
  unfolding advance_done
  advance_done-Goes now err place (begun start) p sound h =
      (changed place true uncount p.connections h (λ x k. k) (λ x. refl), tt, refl)
  advance_done-Goes _ _ place (counted start now err) p sound h =
      IfReturns-at_place (Goes place (counted start now err) p) p.connections place _ (λ c here. (
        changed place false (set_last now) p.connections h (λ x k. k) (λ x. refl),
        elapsed_lt floats now c.last,
        refl,
      ))
  advance_done-Goes _ _ place (timed td latency now err) p sound h =
      IfReturns-at_place (Goes place (timed td latency now err) p) p.connections place _ (λ c here.
        (unchanged place p.connections h, weight-IsShare floats law c.latency td sound, refl))
  advance_done-Goes _ _ place (latency_read w old latency now err) p sound h =
      (changed place false (set_latency _) p.connections h (λ x k. k) (λ x. refl), sound, refl)
  advance_done-Goes _ _ place (latency_stored w now err) p sound h =
      IfReturns-at_place (Goes place (latency_stored w now err) p) p.connections place _
        (λ c here. (unchanged place p.connections h, (sound, h place c here), refl))
  advance_done-Goes _ _ place (success_read w old now err) p (share, few) h = (
    changed place false (set_success _) p.connections h
        (λ x k.
          law.ewma_le w old (success_of floats err) init_success share few
            (success_of-le floats law err) (omega arith))
        (λ x. refl),
    tt,
    refl,
  )
  advance_done-Goes _ _ place (success_stored now) p sound h =
      elim (Bool-cases (lt_signed (sub64 now p.stamp.word) log_interval)) [
        | inl soon ↦ rw soon (unchanged place p.connections h, tt, refl)
        | inr late ↦ rw late (unchanged place p.connections h, tt, refl)
      ]
  advance_done-Goes _ _ place (stamp_read now stamp) p sound h =
      elim (Bool-cases (p.stamp.word == stamp)) [
        | inl same ↦ rw same (unchanged place p.connections h, tt, refl)
        | inr other ↦ rw other (unchanged place p.connections h, tt, refl)
      ]
  advance_done-Goes _ _ place due p sound h = log-Goes place p h
  advance_done-Goes _ _ place (ended lines) p sound h = (unchanged place p.connections h, tt, refl)
