-- ===== src/Discovery/Dial.antt =====
-- client.go: the client of the gRPC layer, its options, and what Dial hands to gRPC.
use emicro.Common.{
  ℕ, ◌≡◌, refl, Bool, true, false, Option, none, some, List, [], ◌∷◌, ◌++◌, if◌then◌else◌,
}
use emicro.Common.Maps.{Bytes, bytes_of}

-- The registry is known by the timeout of its resolver, and the balancer builder by its name.
pub record DialClient : Type 0 where
  pub insecure : Bool
  pub registry : Option ℕ
  pub balancer_builder : Option Bytes

pub data DialClientOption : Type 0 where
  client_with_picker_builder : Bytes → DialClientOption
  client_with_registry : ℕ → DialClientOption
  client_with_insecure : DialClientOption

-- The client, and the names that are registered with package balancer.
abbrev pub apply_dial_option : DialClientOption → DialClient × List Bytes → DialClient × List Bytes
apply_dial_option (client_with_picker_builder name) (c, names) =
    (record c { balancer_builder = some name }, name ∷ names)
apply_dial_option (client_with_registry timeout) (c, names) =
    (record c { registry = some timeout }, names)
apply_dial_option client_with_insecure (c, names) = (record c { insecure = true }, names)

abbrev pub apply_dial_options :
    List DialClientOption → DialClient × List Bytes → DialClient × List Bytes
apply_dial_options [] s = s
apply_dial_options (opt ∷ opts) s = apply_dial_options opts (apply_dial_option opt s)

unfoldable pub new_dial_client : List DialClientOption → List Bytes → DialClient × List Bytes
new_dial_client opts names =
    apply_dial_options opts
      (record { insecure = false; registry = none; balancer_builder = none }, names)

-- What grpc.DialContext is given: its own options are numbers.
pub data DialOption : Type 0 where
  with_resolvers : ℕ → DialOption
  with_insecure : DialOption
  given : ℕ → DialOption

-- The target and the options of Dial.
unfoldable pub dial : DialClient → Bytes → List DialOption → Bytes × List DialOption
dial c service dial_options =
    let resolvers : List DialOption = elim (c.registry) [
      | none ↦ []
      | some timeout ↦ with_resolvers timeout ∷ []
    ] in
    let insecure : List DialOption = if c.insecure then with_insecure ∷ [] else [] in
    (bytes_of "registry:///" ++ service, resolvers ++ (insecure ++ dial_options))

-- The options without those that set a picker builder.
abbrev pub without_pickers : List DialClientOption → List DialClientOption
without_pickers [] = []
without_pickers (client_with_picker_builder name ∷ opts) = without_pickers opts
without_pickers (client_with_registry timeout ∷ opts) =
    client_with_registry timeout ∷ without_pickers opts
without_pickers (client_with_insecure ∷ opts) = client_with_insecure ∷ without_pickers opts

-- Two clients that differ in their balancer builder at most.
record AlikeBut (c d : DialClient) : Type 0 where
  insecure : c.insecure ≡ d.insecure
  registry : c.registry ≡ d.registry

AlikeBut-options :
    (opts : List DialClientOption) (c d : DialClient) (names names' : List Bytes)
    → AlikeBut c d
    → AlikeBut
        (apply_dial_options opts (c, names)).0
        (apply_dial_options (without_pickers opts) (d, names')).0
AlikeBut-options [] c d names names' h = h
AlikeBut-options (client_with_picker_builder name ∷ opts) c d names names' h =
    AlikeBut-options opts _ d _ names' (record { insecure = h.insecure; registry = h.registry })
AlikeBut-options (client_with_registry timeout ∷ opts) c d names names' h =
    AlikeBut-options opts _ _ names names' (record { insecure = h.insecure; registry = refl })
AlikeBut-options (client_with_insecure ∷ opts) c d names names' h =
    AlikeBut-options opts _ _ names names' (record { insecure = refl; registry = h.registry })

-- What Dial hands to gRPC does not depend on the picker builders of the client: no option and no
-- service configuration names the balancer that ClientWithPickerBuilder has registered.
pub dial-without_pickers :
    (opts : List DialClientOption) (names : List Bytes) (service : Bytes)
    (options : List DialOption)
    → dial (new_dial_client opts names).0 service options
      ≡ dial (new_dial_client (without_pickers opts) names).0 service options
unfolding dial new_dial_client
dial-without_pickers opts names service options =
    let h =
      AlikeBut-options opts (record { insecure = false; registry = none; balancer_builder = none })
        (record { insecure = false; registry = none; balancer_builder = none }) names names
        (record { insecure = refl; registry = refl }) in
    rw (h.insecure, h.registry) refl
