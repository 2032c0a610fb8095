-- ===== src/Balance/Types.antt =====
-- loadbalance/types.go, and what the pickers read of gRPC's types: an address with its attributes,
-- and the context of a pick. gRPC's ErrNoSubConnAvailable is `none` wherever a picker returns.
use emicro.Common.{
  ℕ, ◌≡◌, ◌≢◌, ◌⊎◌, refl, inl, inr, Bool, true, false, Option, none, some, List, [], ◌∷◌, ◌==◌,
}
use emicro.Common.Maps.{Bytes, bytes_of, bytes_eq, bytes_eq_comm, lookup}

-- A value of type `any`: a string, a uint32, or a value of a third type, known by a number.
pub data Value : Type 0 where
  str : Bytes → Value
  u32 : ℕ → Value
  other : ℕ → Value

pub record Address : Type 0 where
  pub addr : Bytes
  pub server_name : Bytes
  pub attributes : List (Bytes × Value)

-- `ctx` holds the values of info.Ctx.
pub record PickInfo : Type 0 where
  pub ctx : List (Bytes × Value)

abbrev pub Filter : Type 0
Filter = PickInfo → Address → Bool

abbrev pub group_key : Bytes
group_key = bytes_of "group"

-- == between two values of type `any`; `none` is nil.
any_eq : Option Value → Option Value → Bool
any_eq none none = true
any_eq (some (str a)) (some (str b)) = bytes_eq a b
any_eq (some (u32 a)) (some (u32 b)) = a == b
any_eq (some (other a)) (some (other b)) = a == b
any_eq _ _ = false

unfoldable pub group_filter : Filter
unfolding any_eq
group_filter info address = elim (lookup group_key info.ctx) [
  | none ↦ true
  | some group ↦ any_eq (some group) (lookup group_key address.attributes)
]

-- v.(string), whose failure gives the empty string
abbrev as_string : Option Value → Bytes
as_string (some (str s)) = s
as_string _ = []

unfoldable pub build_group_filter : Filter
build_group_filter info address = elim (lookup group_key info.ctx) [
  | none ↦ true
  | some input ↦ bytes_eq (as_string (lookup group_key address.attributes)) (as_string (some input))
]

-- b.Filter, or the filter that lets every address pass
abbrev pub or_all : Option Filter → Filter
or_all none info address = true
or_all (some filter) info address = filter info address

-- A name compared with an attribute, either way; a missing one counts as the empty string.
any_eq-as_string :
    (group : Bytes) (target : Option Value)
    → group ≢ []
    → any_eq (some (str group)) target ≡ bytes_eq (as_string target) group
unfolding any_eq
any_eq-as_string [] target named = absurd (named refl)
any_eq-as_string (b ∷ group) none named = refl
any_eq-as_string (b ∷ group) (some (str s)) named = bytes_eq_comm (b ∷ group) s
any_eq-as_string (b ∷ group) (some (u32 n)) named = refl
any_eq-as_string (b ∷ group) (some (other n)) named = refl

-- For a request with no group, and for one of a named group, the two filters let the same addresses
-- pass; the name must not be the empty one.
pub group_filters_agree :
    (info : PickInfo) (address : Address) (group : Bytes)
    → group ≢ []
    → (lookup group_key info.ctx ≡ none) ⊎ (lookup group_key info.ctx ≡ some (str group))
    → group_filter info address ≡ build_group_filter info address
unfolding group_filter build_group_filter
group_filters_agree info address group named (inl e) = rw (e, group_filter, build_group_filter)
group_filters_agree info address group named (inr e) =
    rw (e, group_filter, build_group_filter)
      (any_eq-as_string group (lookup group_key address.attributes) named)
