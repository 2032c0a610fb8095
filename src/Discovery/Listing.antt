-- ===== src/Discovery/Listing.antt =====
-- What ListServices finds after Register.
use mathlib.Core.List.{append_assoc}
use emicro.Common.{
  ℕ, suc, ◌≡◌, refl, Bool, true, false, Bool-cases, ◌&&◌, inl, inr, some, List, [], ◌∷◌, ◌++◌, ◌==◌,
  ==_self, get_elem?, select, All,
}
use emicro.Common.Maps.{Bytes, bytes_of, bytes_eq, bytes_eq_iff, lookup}
use emicro.Rpc.Codec.{returned}
use emicro.Discovery.Etcd.{
  ServiceInstance, Client, Json, instance_key, service_key, instances, register, list_services,
}

abbrev pub is_prefix : Bytes → Bytes → Bool
is_prefix [] key = true
is_prefix (x ∷ xs) [] = false
is_prefix (x ∷ xs) (y ∷ ys) = (x == y) && is_prefix xs ys

-- What etcd's documentation says of Put, and of Get with a prefix: the keys and values of a state,
-- of which Get returns those whose key has the prefix.
pub record Stores {W : Type 0} (client : Client W) : Type 0 where
  pub view : W → List (Bytes × Bytes)
  pub put_view :
      (k v : Bytes) (w : W)
      → (client.put k v w).0 ≡ returned tt
      → lookup k (view (client.put k v w).1) ≡ some v
  pub get_view :
      (p : Bytes) (w : W) (kvs : List (Bytes × Bytes))
      → client.get p w ≡ returned kvs
      → kvs ≡ select (λ kv. is_prefix p kv.0) (view w)

-- Every value is an instance.
abbrev pub Decode : Json → List (Bytes × Bytes) → Type 0
Decode json kvs = All (λ kv. (si : ServiceInstance) × (json.unmarshal kv.1 ≡ returned si)) kvs

is_prefix-append : (xs ys : Bytes) → is_prefix xs (xs ++ ys) ≡ true
is_prefix-append [] ys = refl
is_prefix-append (x ∷ xs) ys = rw (==_self x) (is_prefix-append xs ys)

lookup-select :
    (p k v : Bytes) (kvs : List (Bytes × Bytes))
    → is_prefix p k ≡ true
    → lookup k kvs ≡ some v
    → lookup k (select (λ kv. is_prefix p kv.0) kvs) ≡ some v
lookup-select p k v [] inside found = cc
lookup-select p k v ((j, u) ∷ kvs) inside found = elim (Bool-cases (bytes_eq j k)) [
  | inl here ↦
      let same : j ≡ k = (bytes_eq_iff j k).0 here in
      let kept : is_prefix p j ≡ true = rw same inside in rw (kept, here) (rw here at found)
  | inr there ↦
      let rest = lookup-select p k v kvs inside (rw there at found) in
      elim (Bool-cases (is_prefix p j)) [
        | inl kept ↦ rw (kept, there) rest
        | inr left_out ↦ rw left_out rest
      ]
]

instances_all :
    (json : Json) (kvs : List (Bytes × Bytes))
    → Decode json kvs
    → (res : List ServiceInstance) × (instances json kvs ≡ returned res)
unfolding instances
instances_all json [] all = ([], refl)
instances_all json ((j, u) ∷ kvs) all =
    let (si, first) = all.0 in
    let (res, rest) = instances_all json kvs all.1 in (si ∷ res, rw (first, rest, instances) refl)

instances_find :
    (json : Json) (k v : Bytes) (si : ServiceInstance) (kvs : List (Bytes × Bytes))
    → Decode json kvs
    → lookup k kvs ≡ some v
    → json.unmarshal v ≡ returned si
    → (res : List ServiceInstance) × (instances json kvs ≡ returned res)
      × (i : ℕ) × (get_elem? res i ≡ some si)
unfolding instances
instances_find json k v si [] all found decoded = cc
instances_find json k v si ((j, u) ∷ kvs) all found decoded = elim (Bool-cases (bytes_eq j k)) [
  | inl here ↦
      let (res, rest) = instances_all json kvs all.1 in
      let same : some u ≡ some v = rw here at found in
      let first : json.unmarshal u ≡ returned si = cc in
      (si ∷ res, rw (first, rest, instances) refl, 0, refl)
  | inr there ↦
      let (sj, first) = all.0 in
      let (res, rest, i, at) = instances_find json k v si kvs all.1 (rw there at found) decoded in
      (sj ∷ res, rw (first, rest, instances) refl, suc i, at)
]

module _ {W : Type 0} (client : Client W) (json : Json) (stores : Stores client) where
  -- After an instance is registered, ListServices lists it for each name that its own name starts
  -- with, its own among them; what etcd holds under such keys must be instances.
  pub list_services-register :
      (ins : ServiceInstance) (service_name rest val : Bytes) (w : W) (kvs : List (Bytes × Bytes))
      → ins.name ≡ service_name ++ rest
      → json.marshal ins ≡ returned val
      → json.unmarshal val ≡ returned ins
      → (register client json ins w).0 ≡ returned tt
      → client.get (service_key service_name) (register client json ins w).1 ≡ returned kvs
      → Decode json kvs
      → (res : List ServiceInstance) × (list_services client json service_name
            (register client json ins w).1
          ≡ returned res)
        × (i : ℕ) × (get_elem? res i ≡ some ins)
  unfolding register list_services
  list_services-register ins service_name rest val w kvs named marshalled unmarshalled done got
        all =
      let stored : (client.put (instance_key ins) val w).0 ≡ returned tt =
        rw (marshalled, register) at done in
      let kept : lookup (instance_key ins) (stores.view (register client json ins w).1) ≡ some val =
        rw (marshalled, register) (stores.put_view (instance_key ins) val w stored) in
      let inside : is_prefix (service_key service_name) (instance_key ins) ≡ true =
        rw (named, append_assoc service_name rest (bytes_of "/" ++ ins.address))
          (is_prefix-append service_name (rest ++ (bytes_of "/" ++ ins.address))) in
      let found : lookup (instance_key ins) kvs ≡ some val =
        rw (stores.get_view (service_key service_name) (register client json ins w).1 kvs got) (
          lookup-select (service_key service_name) (instance_key ins) val
            (stores.view (register client json ins w).1) inside kept) in
      let (res, listed, i, at) =
        instances_find json (instance_key ins) val ins kvs all found unmarshalled in
      (res, rw (got, list_services) listed, i, at)
