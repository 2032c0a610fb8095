-- ===== src/Rpc/Fields.antt =====
-- rpc/client.go: setFuncField over the fields of a service, and the client with its options.
use emicro.Common.{
  ◌≡◌, refl, ◌↔◌, Bool, true, Bool-cases, inl, inr, Option, some, List, [], ◌∷◌, map, All, Outcome,
  ok, panic, ◌>>=◌, ◌>>◌, must, if◌then◌else◌, bind-ok, sym, ◌∙◌,
}
use emicro.Common.Maps.{Bytes}
use emicro.Rpc.Codec.{
  Result, returned, failed, Serializer, Compressor, do_nothing, service_typ_error,
}

-- A field of the struct: whether CanSet, whether its type is a function's, and its value, `none` for
-- nil.
pub record Field (Fn : Type 0) : Type 0 where
  pub name : Bytes
  pub can_set : Bool
  pub is_func : Bool
  pub value : Option Fn

-- What reflect finds behind the service that is handed over.
pub data Shape (Fn : Type 0) : Type 0 where
  no_pointer : Shape Fn
  pointer_to_pointer : Shape Fn
  pointer_to_struct : List (Field Fn) → Shape Fn
  pointer_to_other : Shape Fn

module _ {Fn : Type 0} (make_func : Bytes → Fn) where
  -- reflect.MakeFunc panics for a type that is not a function's.
  abbrev pub set_field : Field Fn → Outcome (Field Fn)
  set_field f =
      if f.can_set
      then must f.is_func >> ok (record f { value = some (make_func f.name) })
      else ok f

  abbrev pub set_fields : List (Field Fn) → Outcome (List (Field Fn))
  set_fields [] = ok []
  set_fields (f ∷ fs) = do f' ← set_field f; fs' ← set_fields fs; ok (f' ∷ fs')

  -- Elem of a value that is no pointer panics, and so does NumField of one that is no struct.
  unfoldable pub set_func_field : Shape Fn → Outcome (Result (List (Field Fn)))
  set_func_field no_pointer = panic
  set_func_field pointer_to_pointer = ok (failed service_typ_error)
  set_func_field (pointer_to_struct fields) = do fields' ← set_fields fields; ok (returned fields')
  set_func_field pointer_to_other = panic

  -- A field as it is after setFuncField.
  abbrev pub with_func : Field Fn → Field Fn
  with_func f = if f.can_set then record f { value = some (make_func f.name) } else f

  abbrev pub IsSettable : Field Fn → Type 0
  IsSettable f = f.can_set ≡ true → f.is_func ≡ true

  set_field-with_func : (f : Field Fn) → IsSettable f → set_field f ≡ ok (with_func f)
  set_field-with_func f h = elim (Bool-cases f.can_set) [
    | inl can ↦ rw (can, h can) refl
    | inr cannot ↦ rw cannot refl
  ]

  set_fields-map :
      (fs : List (Field Fn)) → All IsSettable fs → set_fields fs ≡ ok (map with_func fs)
  set_fields-map [] h = refl
  set_fields-map (f ∷ fs) (h, hs) = rw (set_field-with_func f h, set_fields-map fs hs) refl

  IsSettable-ok : (f g : Field Fn) → set_field f ≡ ok g → IsSettable f
  IsSettable-ok f g e can = elim (Bool-cases f.is_func) [
    | inl func ↦ func
    | inr other ↦ (let bad : panic ≡ ok g = rw (can, other) at e in cc)
  ]

  All-IsSettable : (fs gs : List (Field Fn)) → set_fields fs ≡ ok gs → All IsSettable fs
  All-IsSettable [] gs e = tt
  All-IsSettable (f ∷ fs) gs e =
      let (f', one, e') = bind-ok (set_field f) _ gs e in
      let (fs', rest, _) = bind-ok (set_fields fs) _ gs e' in
      (IsSettable-ok f f' one, All-IsSettable fs fs' rest)

  -- On a pointer to a struct, setFuncField returns with no error exactly where every field that can be
  -- set has the type of a function; each such field then calls the method of its own name, and the
  -- other fields are as they were.
  pub set_func_field_iff :
      (fields after : List (Field Fn))
      → (set_func_field (pointer_to_struct fields) ≡ ok (returned after))
        ↔ (All IsSettable fields × (after ≡ map with_func fields))
  unfolding set_func_field
  set_func_field_iff fields after = (to, from)
    where
      to :
          (set_fields fields >>= λ fields'. ok (returned fields')) ≡ ok (returned after)
          → All IsSettable fields × (after ≡ map with_func fields)
      to e =
          let (fields', set_, same) = bind-ok (set_fields fields) _ (returned after) e in
          let h = All-IsSettable fields fields' set_ in
          let e' : ok fields' ≡ ok (map with_func fields) = sym set_ ∙ set_fields-map fields h in
          (h, cc)

      from :
          All IsSettable fields × (after ≡ map with_func fields)
          → (set_fields fields >>= λ fields'. ok (returned fields')) ≡ ok (returned after)
      from (h, e) = rw (set_fields-map fields h, e) refl

-- The client, with its pool of connections `C`.
pub record RpcClient (C V : Type 0) : Type 0 where
  pub conn_pool : C
  pub serializer : Serializer V
  pub compressor : Compressor

pub data ClientOption (V : Type 0) : Type 0 where
  client_with_serializer : Serializer V → ClientOption V
  client_with_compressor : Compressor → ClientOption V

abbrev pub apply_option : {C V : Type 0} → ClientOption V → RpcClient C V → RpcClient C V
apply_option (client_with_serializer s) c = record c { serializer = s }
apply_option (client_with_compressor z) c = record c { compressor = z }

abbrev pub apply_options : {C V : Type 0} → List (ClientOption V) → RpcClient C V → RpcClient C V
apply_options [] c = c
apply_options (opt ∷ opts) c = apply_options opts (apply_option opt c)

-- NewClient on the pool of connections, or the error of pool.NewChannelPool; `json` is the serializer
-- of rpc/serialize/json.
unfoldable pub new_client :
    {C V : Type 0} → Serializer V → Result C → List (ClientOption V) → Result (RpcClient C V)
new_client json (failed e) opts = failed e
new_client json (returned pool) opts =
    returned
      (apply_options opts (record { conn_pool = pool; serializer = json; compressor = do_nothing }))

-- InitService of a client, whose functions `make_func` makes.
unfoldable pub init_service :
    {C V Fn : Type 0}
    → (RpcClient C V → Bytes → Fn)
    → RpcClient C V
    → Shape Fn
    → Outcome (Result (List (Field Fn)))
init_service make_func c srv = set_func_field (make_func c) srv

unfoldable pub init_client_proxy :
    {C V Fn : Type 0}
    → Serializer V
    → Result C
    → (RpcClient C V → Bytes → Fn)
    → Shape Fn
    → Outcome (Result (List (Field Fn)))
init_client_proxy json pool make_func srv = elim (new_client json pool []) [
  | failed e ↦ ok (failed e)
  | returned client ↦ set_func_field (make_func client) srv
]
