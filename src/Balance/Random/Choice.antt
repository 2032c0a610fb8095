-- ===== src/Balance/Random/Choice.antt =====
-- What the random pick returns.
use emicro.Common.{
  ℕ, ◌<◌, ◌≡◌, refl, inl, inr, Bool-cases, none, some, List, [], ◌∷◌, ◌==◌, ne→not-==, length,
  get_elem?, length-select-le, get_elem?_lt, lt_of_get, ◌⊎◌, ◌∙◌, arith,
}
use emicro.Balance.Types.{PickInfo}
use emicro.Balance.Random.{Conn, Picker, candidates, pick}

pick-some :
    (random : ℕ → ℕ) (p : Picker) (info : PickInfo)
    → 0 < length (candidates p info)
    → pick random p info ≡ get_elem? (candidates p info) (random (length (candidates p info)))
unfolding pick
pick-some random p info some_left = rw (
  ne→not-== (length p.connections) 0
      (omega (arith, length-select-le (λ con. p.filter info con.address) p.connections)),
  ne→not-== (length (candidates p info)) 0 (omega arith),
)

pick-none :
    (random : ℕ → ℕ) (p : Picker) (info : PickInfo)
    → candidates p info ≡ []
    → pick random p info ≡ none
unfolding pick
pick-none random p info e = elim (Bool-cases (length p.connections == 0)) [
  | inl empty ↦ rw empty
  | inr some_left ↦ rw (some_left, e)
]

-- Each candidate can be picked, by the random number of its place.
pub pick_reaches :
    (p : Picker) (info : PickInfo) (i : ℕ) (con : Conn)
    → get_elem? (candidates p info) i ≡ some con
    → pick (λ _. i) p info ≡ some con
pick_reaches p info i con here =
    pick-some (λ _. i) p info (omega (arith, lt_of_get (candidates p info) i con here)) ∙ here

-- With no candidate the error is returned; otherwise the candidate at the random number, which must
-- be below the bound it is drawn with, is picked.
pub pick_candidate :
    (random : ℕ → ℕ) (p : Picker) (info : PickInfo)
    → ((n : ℕ) → 0 < n → random n < n)
    → ((candidates p info ≡ []) × (pick random p info ≡ none))
      ⊎ ((con : Conn) × (get_elem? (candidates p info) (random (length (candidates p info)))
            ≡ some con)
          × (pick random p info ≡ some con))
pick_candidate random p info below = cases (candidates p info) refl
  where
    cases :
        (cs : List Conn)
        → candidates p info ≡ cs
        → ((candidates p info ≡ []) × (pick random p info ≡ none))
          ⊎ ((con : Conn) × (get_elem? (candidates p info) (random (length (candidates p info)))
                ≡ some con)
              × (pick random p info ≡ some con))
    cases [] e = inl (e, pick-none random p info e)
    cases (c ∷ cs) e =
        let some_left : 0 < length (candidates p info) = rw e (omega arith) in
        let (con, here) =
          get_elem?_lt (candidates p info) (random (length (candidates p info)))
            (below _ some_left) in
        inr (con, here, pick-some random p info some_left ∙ here)
