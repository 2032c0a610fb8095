-- ===== src/Rpc/Codec.antt =====
-- rpc/serialize and rpc/compress: the two interfaces, and the implementations that the source has;
-- and the texts of internal/errs that server and client send or return.
use emicro.Common.{◌≡◌, refl, ◌⊎◌, inl, inr, ℕ, Option, none, some, [], ◌∷◌, ◌++◌}
use emicro.Common.Maps.{Bytes, bytes_of}

-- A Go pair of a value and an error; the error is known by its text.
pub data Result {ℓ} (A : Type ℓ) : Type ℓ where
  returned : A → Result A
  failed : Bytes → Result A

pub record Compressor : Type 0 where
  pub code : ℕ
  pub compress : Bytes → Result Bytes
  pub un_compress : Bytes → Result Bytes

-- `V` holds the values of type `any`; Decode fills a value that it is given.
pub record Serializer (V : Type 0) : Type 0 where
  pub code : ℕ
  pub encode : V → Result Bytes
  pub decode : Bytes → V → Result V

abbrev pub do_nothing : Compressor
do_nothing = record { code = 0; compress = λ bs. returned bs; un_compress = λ bs. returned bs }

-- encoding/json is a parameter.
abbrev pub json_serializer :
    {V : Type 0} → (V → Result Bytes) → (Bytes → V → Result V) → Serializer V
json_serializer marshal unmarshal = record { code = 1; encode = marshal; decode = unmarshal }

-- rpc/serialize/proto: which values are messages, with proto.Marshal and proto.Unmarshal on them.
pub record Proto (V M : Type 0) : Type 0 where
  pub as_message : V → Option M
  pub marshal : M → Result Bytes
  pub unmarshal : Bytes → M → Result V

abbrev pub proto_serialize_typ_error : Bytes
proto_serialize_typ_error = bytes_of "serialize: serialization must be proto Message Type"

abbrev pub proto_deserialize_typ_error : Bytes
proto_deserialize_typ_error = bytes_of "serialize: deserialization must be proto.Message type"

abbrev pub proto_serializer : {V M : Type 0} → Proto V M → Serializer V
proto_serializer proto = record {
  code = 2;
  encode = λ val. elim (proto.as_message val) [
    | none ↦ failed proto_serialize_typ_error
    | some msg ↦ proto.marshal msg
  ];
  decode = λ data_ val. elim (proto.as_message val) [
    | none ↦ failed proto_deserialize_typ_error
    | some msg ↦ proto.unmarshal data_ msg
  ];
}

abbrev pub service_typ_error : Bytes
service_typ_error = bytes_of "emicro: service type must be a first level pointer"

abbrev pub invalid_service_name : Bytes
invalid_service_name = bytes_of "emicro: Invalid service name"

-- The text in the middle is Chinese, in UTF-8.
abbrev pub not_found_service_method : Bytes → Bytes
not_found_service_method name =
    bytes_of "server: "
    ++ (230 ∷ 156 ∷ 170 ∷ 230 ∷ 137 ∷ 190 ∷ 229 ∷ 136 ∷ 176 ∷ 231 ∷ 155 ∷ 174 ∷ 230 ∷ 160 ∷ 135
        ∷ 230 ∷ 156 ∷ 141 ∷ 229 ∷ 138 ∷ 161 ∷ 230 ∷ 150 ∷ 185 ∷ 230 ∷ 179 ∷ 149 ∷ 32 ∷ [])
    ++ name

abbrev pub oneway_error : Bytes
oneway_error =
    bytes_of "emicro: "
    ++ (232 ∷ 191 ∷ 153 ∷ 230 ∷ 152 ∷ 175 ∷ [])
    ++ bytes_of " oneway "
    ++ (232 ∷ 176 ∷ 131 ∷ 231 ∷ 148 ∷ 168 ∷ [])

abbrev pub client_not_all_written : Bytes
client_not_all_written = bytes_of "emicro: client not all data is written"

abbrev pub read_resp_fail_error : Bytes
read_resp_fail_error = bytes_of "emicro: unable to read response"

abbrev pub client_conn_deaded : Bytes → Bytes
client_conn_deaded err = bytes_of "emicro: client unable to get an available connection " ++ err

pub Result-cases {ℓ} :
    {A : Type ℓ} (r : Result A) → ((e : Bytes) × (r ≡ failed e)) ⊎ ((a : A) × (r ≡ returned a))
Result-cases (returned a) = inr (a, refl)
Result-cases (failed e) = inl (e, refl)
