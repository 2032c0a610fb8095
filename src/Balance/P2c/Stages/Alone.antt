-- ===== src/Balance/P2c/Stages/Alone.antt =====
-- loadbalance/p2c/picker.go: a Done that no other runs beside.
use emicro.Common.{
  ℕ, zero, suc, ◌≡◌, refl, ◌∙◌, inl, inr, Bool-cases, ap, Option, some, List, [], ◌∷◌, get_elem?,
  adjust, get_elem?-adjust, ==_self, bind-bind, ok, ◌>>=◌,
}
use emicro.Common.Words.{sub64, lt_signed}
use emicro.Internal.Codes.{Code}
use emicro.Balance.P2c.{
  Floats, Conn, Picker, done, end_call, elapsed, weight, ewma, log_interval, log_stats,
}
use emicro.Balance.P2c.Choice.{adjust-adjust_same, at_place-get}
use emicro.Balance.P2c.Stages.{
  begun, success_stored, ended, advance_done, advance_times, uncount, set_last, set_latency,
  set_success, on_conn,
}

-- Two changes that agree on the element at the place.
adjust_agree {ℓ} :
    {A : Type ℓ} (f g : A → A) (i : ℕ) (xs : List A) (x : A)
    → get_elem? xs i ≡ some x
    → f x ≡ g x
    → adjust f i xs ≡ adjust g i xs
adjust_agree f g i [] x at e = refl
adjust_agree f g zero (y ∷ xs) x at e = let same : y ≡ x = cc in rw same (ap (λ z. z ∷ xs) e)
adjust_agree f g (suc i) (y ∷ xs) x at e = ap (◌∷◌ y) (adjust_agree f g i xs x at e)

module _ {F : Type 0} (floats : Floats F) where
  averages :
      {R : Type 0} (start now : ℕ) (err : Option Code) (place : ℕ) (p : Picker R) (c : Conn)
      → get_elem? p.connections place ≡ some c
      → advance_times floats 9 now err place (begun start) p
        ≡ advance_times floats 3 now err place
            (success_stored now)
            (on_conn (end_call floats start now err) place p)
  unfolding advance_times advance_done end_call
  averages start now err place p c here =
      let cs1 = adjust uncount place p.connections in
      let cs2 = adjust (set_last now) place cs1 in
      let latency =
        ewma floats (weight floats c.latency (elapsed floats now c.last)) c.latency
          (elapsed floats now start) in
      let e1 = get_elem?-adjust uncount place p.connections c here in
      let e2 = get_elem?-adjust (set_last now) place cs1 (uncount c) e1 in
      let e3 = get_elem?-adjust (set_latency latency) place cs2 (set_last now (uncount c)) e2 in
      rw
        (
          at_place-get _ place _ e1,
          at_place-get _ place _ e2,
          at_place-get _ place _ e3,
          advance_times,
          advance_done,
        )
        (ap
          (λ cs.
            advance_times floats 3 now err place (success_stored now)
              (record p { connections = cs }))
          (rw
            (
              adjust-adjust_same uncount (set_last now) place p.connections,
              adjust-adjust_same (λ x. set_last now (uncount x)) (set_latency latency) place
                  p.connections,
              adjust-adjust_same (λ x. set_latency latency (set_last now (uncount x)))
                  (set_success _) place p.connections,
            )
            (adjust_agree _ _ place p.connections c here refl)))

  finishes :
      {R : Type 0} (start now : ℕ) (err : Option Code) (place : ℕ) (p : Picker R)
      → advance_times floats 3 now err place
          (success_stored now)
          (on_conn (end_call floats start now err) place p)
        ≡ (do finished ← done floats place start now err p; ok (ended finished.0, finished.1))
  unfolding advance_times advance_done done
  finishes start now err place p =
      elim (Bool-cases (lt_signed (sub64 now p.stamp.word) log_interval)) [
        | inl soon ↦ rw (soon, advance_times, advance_done, done) refl
        | inr late ↦
            rw (late, ==_self p.stamp.word, advance_times, advance_done, done)
              (bind-bind (log_stats floats _) (λ l. (ended l.0, l.1)) (λ l. l))
      ]

  -- The operations of a Done, run with none of another between, do what `done` does as one step: they
  -- log the same lines and leave the same picker, or panic as it does, where the place is one of the
  -- picker's.
  advance_times-done :
      {R : Type 0} (start now : ℕ) (err : Option Code) (place : ℕ) (p : Picker R) (c : Conn)
      → get_elem? p.connections place ≡ some c
      → advance_times floats 9 now err place (begun start) p
        ≡ (do finished ← done floats place start now err p; ok (ended finished.0, finished.1))
  advance_times-done start now err place p c here =
      averages start now err place p c here ∙ finishes start now err place p
