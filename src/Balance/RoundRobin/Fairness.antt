-- ===== src/Balance/RoundRobin/Fairness.antt =====
-- The turns of the round robin.
use emicro.Common.{
  ℕ, zero, suc, ◌+◌, ◌-◌, ◌%◌, ◌^◌, ◌≤◌, ◌<◌, ◌≡◌, refl, sym, ap, ◌∙◌, Option, none, some, List, [],
  ◌∷◌, ◌++◌, map, inl, inr, ◌⊎◌, ne→not-==, length, get_elem?, take, drop, get_elem?_lt, drop_get,
  take-length, length-drop, arith,
}
use mathlib.Core.List.{map-append}
use native.Mathlib.Nat.{mod-eq_of_lt}
use emicro.Common.Words.{mod_next, mod_round}
use emicro.Balance.Types.{PickInfo}
use emicro.Balance.RoundRobin.{Conn, Picker, candidates, pick}

-- The results of `k` picks, one after the other.
pub picks : ℕ → Picker → PickInfo → List (Option Conn)
picks zero p info = []
picks (suc k) p info = let (r, q) = pick p info in r ∷ picks k q info

-- `k` turns round a list, from the count `c` on.
module _ {ℓ} {A : Type ℓ} (cs : List A) where
  turns : ℕ → ℕ → List (Option A)
  turns zero c = []
  turns (suc k) c = get_elem? cs (c % length cs) ∷ turns k (c + 1)

  turns-add : (a b c : ℕ) → turns (a + b) c ≡ turns a c ++ turns b (c + a)
  unfolding turns
  turns-add zero b c =
      let e : 0 + b ≡ b = omega arith in let e' : c + 0 ≡ c = omega arith in rw (e, e')
  turns-add (suc a) b c =
      let e : suc a + b ≡ suc (a + b) = omega arith in
      let e' : c + suc a ≡ c + 1 + a = omega arith in
      rw (e, e') (ap (◌∷◌ (get_elem? cs (c % length cs))) (turns-add a b (c + 1)))

  -- Turns that do not pass the end run along the list.
  turns_stretch :
      (k r c : ℕ)
      → c % length cs ≡ r
      → r + k ≤ length cs
      → turns k c ≡ map some (take k (drop r cs))
  unfolding turns
  turns_stretch zero r c e fits = refl
  turns_stretch (suc zero) r c e fits =
      let (x, here) = get_elem?_lt cs r (omega arith) in rw (e, here, drop_get cs r x here)
  turns_stretch (suc (suc k)) r c e fits =
      let (x, here) = get_elem?_lt cs r (omega arith) in
      rw (e, here, drop_get cs r x here)
        (ap (◌∷◌ (some x)) (
          turns_stretch (suc k) (suc r) (c + 1)
            (omega (arith, mod_next c (length cs) r e (omega arith))) (omega arith)))

  turns_once :
      (c : ℕ)
      → 0 < length cs
      → turns (length cs) c ≡ map some (drop (c % length cs) cs ++ take (c % length cs) cs)
  turns_once c pos =
      ap (λ k. turns k c) split
      ∙ turns-add (n - r) r c
      ∙ ap (λ front. front ++ turns r (c + (n - r)))
          (turns_stretch (n - r) r c refl (omega arith) ∙ ap (map some) whole)
      ∙ ap (λ back. map some (drop r cs) ++ back)
          (turns_stretch r 0 (c + (n - r)) (mod_round c n pos) (omega arith))
      ∙ sym (map-append some (drop r cs) (take r cs))
    where
      n : ℕ
      n = length cs

      r : ℕ
      r = c % length cs

      split : n ≡ n - r + r
      split = omega arith

      whole : take (n - r) (drop r cs) ≡ drop r cs
      whole = ap (λ k. take k (drop r cs)) (sym (length-drop r cs)) ∙ take-length (drop r cs)

-- One pick: the candidate at the counter, modulo their number; the counter moves on. With no
-- candidate the error is returned and the counter stays.
pub pick_lem :
    (p : Picker) (info : PickInfo)
    → ((candidates p info ≡ []) × (pick p info ≡ (none, p)))
      ⊎ ((c : Conn) × (get_elem? (candidates p info) (p.cnt % length (candidates p info)) ≡ some c)
          × (pick p info ≡ (some c, record p { cnt = (p.cnt + 1) % 2 ^ 64 })))
unfolding pick
pick_lem p info = cases (candidates p info) refl
  where
    cases :
        (cs : List Conn)
        → candidates p info ≡ cs
        → ((candidates p info ≡ []) × (pick p info ≡ (none, p)))
          ⊎ ((c : Conn) × (get_elem? (candidates p info) (p.cnt % length (candidates p info))
                ≡ some c)
              × (pick p info ≡ (some c, record p { cnt = (p.cnt + 1) % 2 ^ 64 })))
    cases [] e = inl (e, rw (e, pick))
    cases (c ∷ cs) e =
        let (c', here) = get_elem?_lt (c ∷ cs) (p.cnt % suc (length cs)) (omega arith) in
        inr (c', rw e here, rw (e, pick, here, ne→not-== (suc (length cs)) 0 (omega arith)))

picks-turns :
    (k : ℕ) (p : Picker) (info : PickInfo)
    → 0 < length (candidates p info)
    → p.cnt + k < 2 ^ 64
    → picks k p info ≡ turns (candidates p info) k p.cnt
unfolding picks turns
picks-turns zero p info some_left room = refl
picks-turns (suc k) p info some_left room = elim (pick_lem p info) [
  | inl (none_left, _) ↦ absurd (omega (arith, ap length none_left))
  | inr (c, here, step) ↦
      rw (step, here, mod-eq_of_lt next)
        (ap (◌∷◌ (some c))
          (picks-turns k (record p { cnt = p.cnt + 1 }) info some_left (omega arith)))
]
  where
    next : p.cnt + 1 < 2 ^ 64
    next = omega arith

-- As many picks as there are candidates, at least one, give each candidate its turn, once, in the order of the
-- list from the counter on, as long as the 64-bit counter does not come round.
pub picks_once :
    (p : Picker) (info : PickInfo)
    → 0 < length (candidates p info)
    → p.cnt + length (candidates p info) < 2 ^ 64
    → let cs = candidates p info in
      picks (length cs) p info
      ≡ map some (drop (p.cnt % length cs) cs ++ take (p.cnt % length cs) cs)
picks_once p info some_left room =
    picks-turns (length (candidates p info)) p info some_left room
    ∙ turns_once (candidates p info) p.cnt some_left
