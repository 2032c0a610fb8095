-- ===== src/Balance/Hash.antt =====
-- loadbalance/hash: picker.go and consistent_picker.go, the same but for their names.
use emicro.Common.{
  ℕ, ◌≡◌, refl, Option, none, some, List, [], ◌∷◌, map, ◌==◌, if◌then◌else◌, length, Outcome, ok,
  panic, arith,
}
use emicro.Balance.Types.{Address, PickInfo, Filter, or_all}

pub record Picker : Type 0 where
  pub length : ℕ
  pub filter : Filter
  pub connections : List ℕ

unfoldable pub build : Option Filter → List (ℕ × Address) → Picker
build filter ready = record {
  length = length (map (λ con. con.0) ready);
  filter = or_all filter;
  connections = map (λ con. con.0) ready;
}

-- connections[0] panics where the list is empty.
abbrev first : List ℕ → Outcome (Option ℕ)
first [] = panic
first (con ∷ rest) = ok (some con)

unfoldable pub pick : Picker → PickInfo → Outcome (Option ℕ)
pick p info = if p.length == 0 then ok none else first p.connections

pub record ConsistentPicker : Type 0 where
  pub length : ℕ
  pub filter : Filter
  pub connections : List ℕ

unfoldable pub consistent_build : Option Filter → List (ℕ × Address) → ConsistentPicker
consistent_build filter ready = record {
  length = length (map (λ con. con.0) ready);
  filter = or_all filter;
  connections = map (λ con. con.0) ready;
}

unfoldable pub consistent_pick : ConsistentPicker → PickInfo → Outcome (Option ℕ)
consistent_pick p info = if p.length == 0 then ok none else first p.connections

abbrev pub head_of : List (ℕ × Address) → Option ℕ
head_of [] = none
head_of ((con, _) ∷ rest) = some con

-- Every pick of either picker returns the first connection that was ready, whatever the request and
-- also where the filter lets another one pass only, and never panics; with none ready the error is
-- returned.
pub pick-build :
    (filter : Option Filter) (ready : List (ℕ × Address)) (info : PickInfo)
    → (pick (build filter ready) info ≡ ok (head_of ready))
      × (consistent_pick (consistent_build filter ready) info ≡ ok (head_of ready))
unfolding pick build consistent_pick consistent_build
pick-build filter [] info = (refl, refl)
pick-build filter ((con, address) ∷ rest) info = (ground arith, ground arith)
