-- ===== src/Observability/Methods.antt =====
-- splitMethodName of observability/metrics/prometheus/server.go.
use emicro.Common.{
  ℕ, ◌≡◌, ◌≢◌, refl, Option, none, some, [], ◌∷◌, ◌++◌, All, ◌==◌, ne→not-==, if◌then◌else◌,
}
use emicro.Common.Maps.{Bytes, bytes_of}

-- '/'
abbrev pub slash : ℕ
slash = 47

-- strings.TrimPrefix(s, "/")
abbrev pub trim_slash : Bytes → Bytes
trim_slash [] = []
trim_slash (c ∷ s) = if c == slash then s else c ∷ s

-- The parts before and after the first slash, if there is one.
abbrev pub cut_at_slash : Bytes → Option (Bytes × Bytes)
cut_at_slash [] = none
cut_at_slash (c ∷ s) =
    let rest = cut_at_slash s in
    if c == slash
    then some ([], s)
    else (elim rest [ none ↦ none | some (service, method) ↦ some (c ∷ service, method) ])

unfoldable pub split_method_name : Bytes → Bytes × Bytes
split_method_name full_method_name = elim (cut_at_slash (trim_slash full_method_name)) [
  | none ↦ (bytes_of "unknown", bytes_of "unknown")
  | some (service, method) ↦ (service, method)
]

-- A name with no slash in it.
abbrev pub IsPlain : Bytes → Type 0
IsPlain name = All (λ c. c ≢ slash) name

cut_at_slash-joined :
    (service method : Bytes)
    → IsPlain service
    → cut_at_slash (service ++ (slash ∷ method)) ≡ some (service, method)
cut_at_slash-joined [] method h = refl
cut_at_slash-joined (c ∷ service) method (h, hs) =
    rw (ne→not-== c slash h, cut_at_slash-joined service method hs) refl

cut_at_slash-none : (name : Bytes) → IsPlain name → cut_at_slash name ≡ none
cut_at_slash-none [] h = refl
cut_at_slash-none (c ∷ name) (h, hs) = rw (ne→not-== c slash h, cut_at_slash-none name hs) refl

trim_slash-plain : (name : Bytes) → IsPlain name → trim_slash name ≡ name
trim_slash-plain [] h = refl
trim_slash-plain (c ∷ name) (h, hs) = rw (ne→not-== c slash h) refl

-- The name of a method in full, with a slash before it or not, is split into its service and its
-- method where the service has no slash and is not empty; a name with no slash but the first counts
-- as unknown.
pub split_method_name-joined :
    (service method : Bytes)
    → service ≢ []
    → IsPlain service
    → (split_method_name (slash ∷ (service ++ (slash ∷ method))) ≡ (service, method))
      × (split_method_name (service ++ (slash ∷ method)) ≡ (service, method))
      × (split_method_name (slash ∷ service) ≡ (bytes_of "unknown", bytes_of "unknown"))
unfolding split_method_name
split_method_name-joined [] method named h = absurd (named refl)
split_method_name-joined (c ∷ service) method named (h, hs) =
    let cut = cut_at_slash-joined (c ∷ service) method (h, hs) in
    let whole : trim_slash ((c ∷ service) ++ (slash ∷ method)) ≡ (c ∷ service) ++ (slash ∷ method) =
      rw (ne→not-== c slash h) refl in
    (
      rw (cut, split_method_name) refl,
      rw (whole, cut, split_method_name) refl,
      rw (cut_at_slash-none (c ∷ service) (h, hs), split_method_name) refl,
    )
