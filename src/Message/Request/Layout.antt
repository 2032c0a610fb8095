-- ===== src/Message/Request/Layout.antt =====
-- The layout of a request on the wire, and the lengths of its parts.
use mathlib.Core.List.{append_assoc, append-nil}
use emicro.Common.{
  ℕ, suc, ◌+◌, ◌%◌, ◌^◌, ◌<◌, ◌≡◌, refl, ap, ◌∙◌, [], ◌∷◌, ◌++◌, length, take, replicate,
  length-append, le→leb, ok, ◌>>=◌, arith,
}
use emicro.Common.Words.{add32, u32_mod}
use emicro.Common.Maps.{Bytes}
use emicro.Message.Wire.{splitter, pair_splitter, copy_in, write_field, overlay}
use emicro.Message.Wire.Laws.{fixed_bytes, overlay-replicate, write_field_lem, put_fixed_lem}
use emicro.Message.Request.{
  Request, Pairs, entries, write_pairs, encode_req, add_pairs, calculate_header_length,
  calculate_body_length, sized,
}

abbrev pub pair_bytes : Pairs → Bytes
pair_bytes [] = []
pair_bytes ((key, value) ∷ rest) =
    (key ++ pair_splitter ∷ []) ++ ((value ++ splitter ∷ []) ++ pair_bytes rest)

-- The variable part of the header.
abbrev pub names_bytes : Request → Bytes
names_bytes req =
    (req.service_name ++ splitter ∷ [])
    ++ ((req.method_name ++ splitter ∷ []) ++ pair_bytes (entries req.meta))

abbrev pub layout : Request → Bytes
layout req =
    fixed_bytes req.head_length req.body_length req.message_id req.version req.compresser
      req.serializer
    ++ (names_bytes req ++ req.payload)

-- The length that the header has on the wire.
abbrev pub header_size : Request → ℕ
header_size req = 15 + length (names_bytes req)

pub length-field : (xs : Bytes) (c : ℕ) → length (xs ++ c ∷ []) ≡ length xs + 1
length-field xs c = length-append xs (c ∷ [])

pub length-pair_bytes :
    (key value : Bytes) (rest : Pairs)
    → length (pair_bytes ((key, value) ∷ rest))
      ≡ length key + 1 + (length value + 1 + length (pair_bytes rest))
length-pair_bytes key value rest = omega (
  arith,
  length-field key pair_splitter,
  length-append (key ++ pair_splitter ∷ []) ((value ++ splitter ∷ []) ++ pair_bytes rest),
  length-field value splitter,
  length-append (value ++ splitter ∷ []) (pair_bytes rest),
)

pub add_pairs-eq : (n : ℕ) (m : Pairs) → add_pairs n m ≡ n + length (pair_bytes m)
unfolding add_pairs
add_pairs-eq n [] = omega arith
add_pairs-eq n ((key, value) ∷ rest) = omega (
  arith,
  add_pairs-eq (n + length key + 1 + length value + 1) rest,
  length-pair_bytes key value rest,
)

pub length-names :
    (req : Request)
    → length (names_bytes req)
      ≡ length req.service_name
        + 1
        + (length req.method_name + 1)
        + length (pair_bytes (entries req.meta))
length-names req = omega (
  arith,
  length-field req.service_name splitter,
  length-field req.method_name splitter,
  length-append (req.service_name ++ splitter ∷ [])
      ((req.method_name ++ splitter ∷ []) ++ pair_bytes (entries req.meta)),
  length-append (req.method_name ++ splitter ∷ []) (pair_bytes (entries req.meta)),
)

-- CalculateHeaderLength stores the length of the header on the wire, modulo 2^32.
pub head_length-calculate :
    (req : Request) → (calculate_header_length req).head_length ≡ header_size req % 2 ^ 32
unfolding calculate_header_length
head_length-calculate req =
    ap (λ (n : ℕ). n % u32_mod)
      (omega (
        arith,
        add_pairs-eq (15 + length req.service_name + 1 + length req.method_name + 1)
            (entries req.meta),
        length-names req,
      ))

pub write_pairs_lem :
    (m : Pairs) (n k : ℕ) (done : Bytes)
    → n ≡ length (pair_bytes m) + k
    → write_pairs m (record { done = done; cur = replicate n 0 })
      ≡ ok (record { done = done ++ pair_bytes m; cur = replicate k 0 })
unfolding write_pairs
write_pairs_lem [] n k done e = let e' : n ≡ k = omega arith in rw (e', append-nil done)
write_pairs_lem ((key, value) ∷ rest) n k done e =
    rw
      (write_field_lem key pair_splitter n (length value + suc (length (pair_bytes rest) + k)) done
        room)
      (rw
        (write_field_lem value splitter _ (length (pair_bytes rest) + k)
          (done ++ (key ++ pair_splitter ∷ [])) refl)
        (write_pairs_lem rest _ k
            ((done ++ (key ++ pair_splitter ∷ [])) ++ (value ++ splitter ∷ [])) refl
          ∙ ap (λ bs. ok (record { done = bs; cur = replicate k 0 })) regroup))
  where
    room : n ≡ length key + suc (length value + suc (length (pair_bytes rest) + k))
    room = omega (arith, length-pair_bytes key value rest)

    regroup :
        ((done ++ (key ++ pair_splitter ∷ [])) ++ (value ++ splitter ∷ [])) ++ pair_bytes rest
        ≡ done ++ pair_bytes ((key, value) ∷ rest)
    regroup =
        append_assoc (done ++ (key ++ pair_splitter ∷ [])) (value ++ splitter ∷ [])
          (pair_bytes rest)
        ∙ append_assoc done (key ++ pair_splitter ∷ [])
            ((value ++ splitter ∷ []) ++ pair_bytes rest)

-- The lengths that a request carries are those of its parts, and a uint32 holds their sum.
pub record IsSized (req : Request) : Type 0 where
  pub head : req.head_length ≡ header_size req
  pub body : req.body_length ≡ length req.payload
  pub fits : header_size req + length req.payload < 2 ^ 32

write_names :
    (req : Request) (n k : ℕ) (done : Bytes)
    → n ≡ length (names_bytes req) + k
    → (do
      c₁ ← write_field req.service_name splitter (record { done = done; cur = replicate n 0 })
      c₂ ← write_field req.method_name splitter c₁
      c₃ ← write_pairs (entries req.meta) c₂
      let c₄ = copy_in req.payload c₃
      ok (c₄.done ++ c₄.cur))
      ≡ ok (done ++ (names_bytes req ++ overlay req.payload (replicate k 0)))
write_names req n k done e = rw (write_field_lem req.service_name splitter n rest₁ done room) (
    rw (write_field_lem req.method_name splitter rest₁ rest₂ done₁ refl)
      (rw (write_pairs_lem (entries req.meta) rest₂ k done₂ refl) (simp append_assoc)))
  where
    rest₂ : ℕ
    rest₂ = length (pair_bytes (entries req.meta)) + k

    rest₁ : ℕ
    rest₁ = length req.method_name + suc rest₂

    room : n ≡ length req.service_name + suc rest₁
    room = omega (arith, length-names req)

    done₁ : Bytes
    done₁ = done ++ (req.service_name ++ splitter ∷ [])

    done₂ : Bytes
    done₂ = done₁ ++ (req.method_name ++ splitter ∷ [])

-- The fixed part of a request's header.
abbrev pub fixed_of : Request → Bytes
fixed_of req =
    fixed_bytes req.head_length req.body_length req.message_id req.version req.compresser
      req.serializer

-- Where the header fits, EncodeReq returns: `k` bytes are left for the payload.
pub encode_req_roomy :
    (req : Request) (k : ℕ)
    → add32 req.head_length req.body_length ≡ header_size req + k
    → encode_req req ≡ ok (fixed_of req ++ (names_bytes req ++ overlay req.payload (replicate k 0)))
unfolding encode_req
encode_req_roomy req k e =
    rw
      (put_fixed_lem req.head_length req.body_length req.message_id req.version req.compresser
        req.serializer (add32 req.head_length req.body_length) room (omega arith))
      (rw (le→leb 15 (length (fixed_of req ++ replicate room 0)) (omega arith))
        (write_names req room k (take 15 (fixed_of req)) refl))
  where
    room : ℕ
    room = length (names_bytes req) + k

pub encode_req-sized : (req : Request) → IsSized req → encode_req req ≡ ok (layout req)
encode_req-sized req h =
    encode_req_roomy req (length req.payload) (omega arith)
    ∙ ap (λ bs. ok (fixed_of req ++ (names_bytes req ++ bs)))
        (overlay-replicate req.payload (length req.payload) 0 (omega arith)
          ∙ append-nil req.payload)

-- The two calculations set the lengths right where nothing wraps.
pub sized-IsSized :
    (req : Request) → header_size req + length req.payload < 2 ^ 32 → IsSized (sized req)
unfolding calculate_body_length calculate_header_length
sized-IsSized req h = record {
  head = omega (arith, head_length-calculate req);
  body = omega arith;
  fits = h;
}

-- With the lengths calculated, and a sum that a uint32 holds, EncodeReq returns the layout: it
-- neither panics nor leaves a byte of the buffer unwritten.
pub encode_req-layout :
    (req : Request)
    → header_size req + length req.payload < 2 ^ 32
    → encode_req (sized req) ≡ ok (layout (sized req))
encode_req-layout req h = encode_req-sized (sized req) (sized-IsSized req h)
