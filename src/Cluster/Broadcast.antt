-- ===== src/Cluster/Broadcast.antt =====
-- cluster/broadcast/cluster.go. The goroutines of a broadcast end in some order, which is an argument.
use mathlib.Core.List.Permᴰ
use mathlib.Core.List.{Permᴰ}
use emicro.Common.{
  ◌≡◌, ◌↔◌, refl, Bool, true, false, Option, none, some, Option-cases, inl, inr, List, [], ◌∷◌, map,
  if◌then◌else◌, All, All-Permᴰ,
}
use emicro.Common.Maps.{Bytes}
use emicro.Rpc.Codec.{Result, returned, failed}
use emicro.Discovery.Etcd.{ServiceInstance}

-- A call to one instance: grpc.Dial, and the invoker on the new connection; each with its error, if any.
pub record Calling : Type 0 where
  pub dial : ServiceInstance → Option Bytes
  pub invoke : ServiceInstance → Option Bytes

-- The function that eg.Go runs.
unfoldable pub ask : Calling → ServiceInstance → Option Bytes
ask calling ins = elim (calling.dial ins) [ some er ↦ some er | none ↦ calling.invoke ins ]

-- errgroup's Wait: the error of the goroutine that was the first to end with one.
unfoldable pub wait : List (Option Bytes) → Option Bytes
wait [] = none
wait (none ∷ rest) = wait rest
wait (some e ∷ rest) = some e

-- The value of the key in the context: absent, or a bool, or a value of another type.
pub data KeyValue : Type 0 where
  absent : KeyValue
  a_bool : Bool → KeyValue
  other : KeyValue

abbrev pub is_broad_cast : KeyValue → Bool
is_broad_cast absent = false
is_broad_cast (a_bool res) = res
is_broad_cast other = false

abbrev pub using_broad_cast : KeyValue
using_broad_cast = a_bool true

-- The interceptor of broadcast: `direct` is the invoker's error on the connection that is there,
-- `listed` the answer of ListServices, and `ends` the order in which the goroutines end.
unfoldable pub broadcast :
    Calling
    → KeyValue
    → Option Bytes
    → Result (List ServiceInstance)
    → (List ServiceInstance → List ServiceInstance)
    → Option Bytes
unfolding ask wait
broadcast calling key direct listed ends =
    if is_broad_cast key
    then (elim listed [
      | failed e ↦ some e
      | returned instances ↦ wait (map (ask calling) (ends instances))
    ])
    else direct

wait-none_iff :
    (calling : Calling) (instances : List ServiceInstance)
    → (wait (map (ask calling) instances) ≡ none) ↔ All (λ ins. ask calling ins ≡ none) instances
unfolding wait
wait-none_iff calling [] = (λ _. tt, λ _. refl)
wait-none_iff calling (ins ∷ rest) = elim (Option-cases (ask calling ins)) [
  | inl fine ↦
      let (to, from) = wait-none_iff calling rest in rw fine (λ e. (refl, to e), λ h. from h.1)
  | inr (e, bad) ↦ rw bad (λ e'. cc, λ h. cc (h.0))
]

-- Both steps of a call end with no error.
abbrev pub Succeeds : Calling → ServiceInstance → Type 0
Succeeds calling ins = (calling.dial ins ≡ none) × (calling.invoke ins ≡ none)

ask-none_iff :
    (calling : Calling) (ins : ServiceInstance) → (ask calling ins ≡ none) ↔ Succeeds calling ins
unfolding ask
ask-none_iff calling ins = elim (Option-cases (calling.dial ins)) [
  | inl reached ↦ rw (reached, ask) ((λ e. (refl, e)), λ h. h.1)
  | inr (er, failing) ↦ rw (failing, ask) ((λ e. cc), λ h. cc (h.0))
]

All-iff {ℓ κ μ} :
    {A : Type ℓ} (P : A → Type κ) (Q : A → Type μ) (xs : List A)
    → ((x : A) → P x → Q x)
    → All P xs
    → All Q xs
All-iff P Q [] f all = tt
All-iff P Q (x ∷ xs) f (h, all) = (f x h, All-iff P Q xs f all)

-- A broadcast returns no error exactly where grpc.Dial reached every instance and the call to it ended
-- with no error, in whatever order the goroutines end.
pub broadcast-none_iff :
    (calling : Calling) (direct : Option Bytes) (instances : List ServiceInstance)
    (ends : List ServiceInstance → List ServiceInstance)
    → Permᴰ instances (ends instances)
    → (broadcast calling using_broad_cast direct (returned instances) ends ≡ none)
      ↔ All (λ ins. (calling.dial ins ≡ none) × (calling.invoke ins ≡ none)) instances
unfolding broadcast
broadcast-none_iff calling direct instances ends q = (
  λ e.
      All-iff _ (Succeeds calling) instances (λ ins. (ask-none_iff calling ins).0)
        (All-Permᴰ (λ ins. ask calling ins ≡ none) (Permᴰ.symm q)
          ((wait-none_iff calling (ends instances)).0 e)),
  λ h. (wait-none_iff calling (ends instances)).1 (
      All-Permᴰ (λ ins. ask calling ins ≡ none) q
        (All-iff (Succeeds calling) _ instances (λ ins. (ask-none_iff calling ins).1) h)),
)
