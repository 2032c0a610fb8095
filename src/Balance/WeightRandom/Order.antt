-- ===== src/Balance/WeightRandom/Order.antt =====
-- loadbalance/random/weight_picker.go: the order in which Build ranges over the map of ready
-- connections.
use mathlib.Core.List.{Permᴰ}
use mathlib.Core.Quot
use mathlib.Core.Quot.{Quot}
use emicro.Common.{
  ℕ, ◌≡◌, refl, ◌∙◌, ap, sym, inl, inr, ◌⊎◌, Bool, Option, none, some, List, [], ◌∷◌, if◌then◌else◌,
  Outcome, ok, panic, bind-bind, ◌>>=◌, arith,
}
use emicro.Common.Words.{add32}
use emicro.Common.Maps.{bytes_of, lookup}
use emicro.Balance.Types.{Value, str, u32, other, Address, PickInfo, Filter, or_all}
use emicro.Balance.WeightRandom.{new_conns, build, total_weight, passes}

-- The map of ready connections, with no order.
abbrev pub ReadyConns : Type 0
ReadyConns = Quot (Permᴰ {A = ℕ × Address})

pub Outcome_set : IsSet (Outcome ℕ)
Outcome_set = hlevel

abbrev pub weight_in : Option Value → Outcome ℕ
weight_in v = elim v [ some (u32 w) ↦ ok w | _ ↦ panic ]

abbrev pub assigned_weight : Address → Outcome ℕ
assigned_weight address = weight_in (lookup (bytes_of "weight") address.attributes)

weight_in-cases : (v : Option Value) → ((w : ℕ) × (weight_in v ≡ ok w)) ⊎ (weight_in v ≡ panic)
weight_in-cases none = inr refl
weight_in-cases (some (u32 w)) = inl (w, refl)
weight_in-cases (some (str s)) = inr refl
weight_in-cases (some (other n)) = inr refl

-- The total of the weights that pass, added to what there is, over a range of the map.
unfoldable pub total_of : (Address → Bool) → ℕ → List (ℕ × Address) → Outcome ℕ
total_of pass total [] = ok total
total_of pass total ((con, address) ∷ rest) = do
  w ← assigned_weight address
  total_of pass (if pass address then add32 total w else total) rest

-- Two connections in either order, or a panic in both.
weights_swap :
    (v v' : Option Value) (f : ℕ → ℕ → Outcome ℕ) (g : ℕ → ℕ → Outcome ℕ)
    → ((a b : ℕ) → f a b ≡ g b a)
    → (do a ← weight_in v; b ← weight_in v'; f a b) ≡ (do b ← weight_in v'; a ← weight_in v; g b a)
weights_swap v v' f g same = elim (weight_in-cases v) [
  | inl (a, e) ↦ elim (weight_in-cases v') [
    | inl (b, e') ↦ rw (e, e') (same a b)
    | inr e' ↦ rw (e, e') refl
  ]
  | inr e ↦ elim (weight_in-cases v') [ inl (b, e') ↦ rw (e, e') refl | inr e' ↦ rw (e, e') refl ]
]

module _ (pass : Address → Bool) where
  add_both : (x y : Address) (total a b : ℕ) → ℕ
  add_both x y total a b =
      let t = if pass x then add32 total a else total in if pass y then add32 t b else t

  add_both_comm : (x y : Address) (total a b : ℕ) → add_both x y total a b ≡ add_both y x total b a
  unfolding add_both
  add_both_comm x y total a b = ground arith

  pub total_of-Permᴰ :
      {xs ys : List (ℕ × Address)}
      → Permᴰ xs ys
      → (total : ℕ) → total_of pass total xs ≡ total_of pass total ys
  unfolding total_of add_both
  total_of-Permᴰ Permᴰ.nil total = refl
  total_of-Permᴰ (Permᴰ.cons {a = a} {b = b} e p) total =
      rw e (elim (weight_in-cases (lookup (bytes_of "weight") b.1.attributes)) [
        | inl (w, known) ↦ rw known (total_of-Permᴰ p _)
        | inr unknown ↦ rw unknown refl
      ])
  total_of-Permᴰ (Permᴰ.swap {a = a} {b = b} {l = l} e e') total =
      rw (sym e, sym e')
        (weights_swap _ _ _ _
          (λ w w'. ap (λ t. total_of pass t l) (add_both_comm a.1 b.1 total w w')))
  total_of-Permᴰ (Permᴰ.trans p q) total = total_of-Permᴰ p total ∙ total_of-Permᴰ q total

  total_of-new_conns :
      (ready : List (ℕ × Address)) (total : ℕ)
      → (do conns ← new_conns ready; ok (total_weight (λ c. pass c.address) total conns))
        ≡ total_of pass total ready
  unfolding total_of new_conns total_weight
  total_of-new_conns [] total = refl
  total_of-new_conns ((con, address) ∷ rest) total =
      elim (weight_in-cases (lookup (bytes_of "weight") address.attributes)) [
        | inl (w, known) ↦ rw known (bind-bind (new_conns rest) _ _ ∙ total_of-new_conns rest _)
        | inr unknown ↦ rw unknown refl
      ]

-- The total that Pick draws from, of the map of ready connections.
unfoldable pub total_ready : Filter → PickInfo → ReadyConns → Outcome ℕ
total_ready filter info =
    Quot.lift Outcome_set (total_of (filter info) 0) (λ a b p. total_of-Permᴰ (filter info) p 0)

-- The total of the weights that a pick draws from, or the panic of Build on a missing weight, depends
-- on the map of the ready connections alone, and not on the order in which Build ranges over it, also
-- where the total wraps: it is a function of the connections without their order.
pub build-total_ready :
    (filter : Option Filter) (info : PickInfo) (ready : List (ℕ × Address))
    → (do p ← build filter ready; ok (total_weight (passes p info) 0 p.connections))
      ≡ total_ready (or_all filter) info (Quot.mk ready)
unfolding total_ready build
build-total_ready filter info ready =
    bind-bind (new_conns ready) _ _ ∙ total_of-new_conns (or_all filter info) ready 0
