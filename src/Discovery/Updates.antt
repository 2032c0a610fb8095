-- ===== src/Discovery/Updates.antt =====
-- resolver.go: the addresses that a connection knows in the end.
use emicro.Common.{
  ℕ, ◌≡◌, refl, ap, ◌∙◌, sym, Option, none, some, inl, inr, Option-cases, List, [], ◌∷◌, ◌++◌, map,
  get_elem?, get_elem?-map,
}
use emicro.Common.Maps.{Bytes}
use emicro.Balance.Types.{Address}
use emicro.Rpc.Codec.{Result, returned, failed}
use emicro.Discovery.Etcd.{ServiceInstance, Client, Json, register, list_services, service_key}
use emicro.Discovery.Listing.{Stores, Decode, list_services-register}
use emicro.Discovery.Resolver.{
  new_address, Report, update_state, report_error, resolve, watch, build_resolver,
}

-- What the resolver gets for one resolve: the answer of ListServices and the one of UpdateState.
abbrev pub Answer : Type 0
Answer = Result (List ServiceInstance) × (List Address → Option Bytes)

-- The later of two, if there is one.
abbrev pub later {ℓ} : {A : Type ℓ} → Option A → Option A → Option A
later earlier none = earlier
later earlier (some a) = some a

-- The addresses of the last UpdateState.
abbrev pub last_state : List Report → Option (List Address)
last_state [] = none
last_state (update_state addresses ∷ reports) = later (some addresses) (last_state reports)
last_state (report_error e ∷ reports) = last_state reports

-- The addresses of the instances of the last listing that succeeded.
abbrev pub addresses_of : Result (List ServiceInstance) → Option (List Address)
addresses_of (failed e) = none
addresses_of (returned instances) = some (map new_address instances)

abbrev pub last_listed : List Answer → Option (List Address)
last_listed [] = none
last_listed ((list, update) ∷ answers) = later (addresses_of list) (last_listed answers)

later_assoc {ℓ} : {A : Type ℓ} (a b c : Option A) → later (later a b) c ≡ later a (later b c)
later_assoc a b none = refl
later_assoc a b (some x) = refl

later-none {ℓ} : {A : Type ℓ} (a : Option A) → later none a ≡ a
later-none none = refl
later-none (some a) = refl

last_state-append : (a b : List Report) → last_state (a ++ b) ≡ later (last_state a) (last_state b)
last_state-append [] b = sym (later-none (last_state b))
last_state-append (update_state addresses ∷ a) b =
    ap (later (some addresses)) (last_state-append a b)
    ∙ sym (later_assoc (some addresses) (last_state a) (last_state b))
last_state-append (report_error e ∷ a) b = last_state-append a b

last_state-resolve :
    (list : Result (List ServiceInstance)) (update : List Address → Option Bytes)
    → last_state (resolve list update) ≡ addresses_of list
unfolding resolve
last_state-resolve (failed e) update = refl
last_state-resolve (returned instances) update =
    elim (Option-cases (update (map new_address instances))) [
      | inl fine ↦ rw (fine, resolve) refl
      | inr (e, bad) ↦ rw (bad, resolve) refl
    ]

last_state-watch :
    (answers : List Answer) → last_state (watch (returned tt) answers) ≡ last_listed answers
unfolding watch
last_state-watch [] = refl
last_state-watch ((list, update) ∷ answers) =
    last_state-append (resolve list update) (watch (returned tt) answers)
    ∙ (ap (λ s. later s (last_state (watch (returned tt) answers))) (last_state-resolve list update)
        ∙ ap (later (addresses_of list)) (last_state-watch answers))

-- After Build and any events, the addresses that the connection was told last are those of the
-- instances that ListServices returned last, whichever listings and updates failed.
pub last_state-build_resolver :
    (first : Answer) (answers : List Answer)
    → last_state (build_resolver first (returned tt) answers) ≡ last_listed (first ∷ answers)
unfolding build_resolver
last_state-build_resolver (list, update) answers =
    last_state-append (resolve list update) (watch (returned tt) answers)
    ∙ (ap (λ s. later s (last_state (watch (returned tt) answers))) (last_state-resolve list update)
        ∙ ap (later (addresses_of list)) (last_state-watch answers))

-- Once an instance is registered, the resolve that an event brings about tells the connection an
-- address of that instance, for each service name that its own name starts with, its own among them;
-- what etcd holds under such keys must be instances.
pub resolve-register :
    {W : Type 0} (client : Client W) (json : Json)
    → Stores client
    → (ins : ServiceInstance) (service_name rest val : Bytes) (w : W) (kvs : List (Bytes × Bytes))
    → (update : List Address → Option Bytes) → ins.name ≡ service_name ++ rest
    → json.marshal ins ≡ returned val
    → json.unmarshal val ≡ returned ins
    → (register client json ins w).0 ≡ returned tt
    → client.get (service_key service_name) (register client json ins w).1 ≡ returned kvs
    → Decode json kvs
    → (addresses : List Address) × (last_state
          (resolve (list_services client json service_name (register client json ins w).1) update)
        ≡ some addresses)
      × (i : ℕ) × (get_elem? addresses i ≡ some (new_address ins))
resolve-register client json stores ins service_name rest val w kvs update named marshalled
      unmarshalled done got all =
    let (res, listed, i, at) =
      list_services-register client json stores ins service_name rest val w kvs named marshalled
        unmarshalled done got all in
    (
      map new_address res,
      last_state-resolve (list_services client json service_name (register client json ins w).1)
            update
          ∙ ap addresses_of listed,
      i,
      get_elem?-map new_address res i ins at,
    )
