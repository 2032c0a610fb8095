-- ===== src/Message/Request/Errors.antt =====
-- The panics of EncodeReq, and the ends of DecodeReq's runs.
use emicro.Common.{
  ℕ, zero, suc, ◌+◌, ◌-◌, ◌<◌, ◌≡◌, ◌≢◌, ◌↔◌, refl, ap, [], ◌∷◌, ◌++◌, length, take, drop,
  replicate, set, length-set, length-append, length-drop, length-replicate, le→leb, Option-cases,
  inl, inr, Outcome, ok, panic, Ends, Ends-ok, Ends-if, Ends-bind, ends_rules, Returns, ◌>>=◌,
  arith,
}
use native.Mathlib.Decide.{dec_le}
use emicro.Common.Words.{add32}
use emicro.Common.Maps.{Bytes, insert}
use emicro.Message.Wire.{
  splitter, pair_splitter, slice, get_u32, get_byte, index_byte, cut, Cursor, write_field,
  put_fixed, overlay, write_at, u32_bytes, copy_in,
}
use emicro.Message.Wire.Laws.{
  index_byte_lt, length-overlay, write_field_lem, write_field_panics, put_fixed_lem,
}
use emicro.Message.Request.{
  Request, Pairs, entries, write_pairs, encode_req, decode_pairs, decode_meta, decode_req,
}
use emicro.Message.Request.Layout.{
  pair_bytes, length-pair_bytes, names_bytes, header_size, fixed_of, encode_req_roomy, length-names,
}

Ends-slice : (lo hi : ℕ) (bs : Bytes) → Ends (slice lo hi bs)
unfolding slice
Ends-slice lo hi bs = search ends_rules

Ends-get_u32 : (i : ℕ) (bs : Bytes) → Ends (get_u32 i bs)
unfolding get_u32
Ends-get_u32 i bs = search ends_rules

Ends-get_byte : (i : ℕ) (bs : Bytes) → Ends (get_byte i bs)
unfolding get_byte
Ends-get_byte i bs = record { ends = ground arith }

Ends-cut : (bs : Bytes) (c : ℕ) → Ends (cut bs c)
unfolding cut
Ends-cut bs c = record { ends = ground arith }

Ends-decode_pairs :
    (fuel : ℕ) (header : Bytes) (m : Pairs)
    → length header < fuel
    → Ends (decode_pairs fuel header m)
unfolding decode_pairs
Ends-decode_pairs zero header m h = absurd (omega arith)
Ends-decode_pairs (suc fuel) header m h = elim (Option-cases (index_byte header splitter)) [
  | inl e ↦ rw (e, decode_pairs) (Ends-ok m)
  | inr (i, e) ↦
      rw (e, decode_pairs)
        (Ends-bind _ _ (Ends-cut (take i header) pair_splitter) λ pair.
          Ends-decode_pairs fuel (drop (suc i) header) (insert pair.0 pair.1 m)
            (omega (arith, index_byte_lt header splitter i e, length-drop (suc i) header)))
]

Ends-decode_meta : (header : Bytes) → Ends (decode_meta header)
unfolding decode_meta
Ends-decode_meta header =
    Ends-if _ _ _ (Ends-decode_pairs (suc (length header)) header [] (omega arith)) (Ends-ok [])

-- On any bytes DecodeReq ends, and the fuel of its loop is enough: it returns a request, or panics.
pub decode_req-Ends : (bs : Bytes) → Ends (decode_req bs)
unfolding decode_req
decode_req-Ends bs =
    search (ends_rules, Ends-slice, Ends-get_u32, Ends-get_byte, Ends-cut, Ends-decode_meta) depth
      14

-- If what follows a field panics wherever the field fits, the whole panics.
field_or_panic {ℓ} :
    {A : Type ℓ} (src : Bytes) (sep n : ℕ) (done : Bytes) (f : Cursor → Outcome A)
    → ((k : ℕ)
        → n ≡ length src + suc k
        → f (record { done = done ++ (src ++ sep ∷ []); cur = replicate k 0 }) ≡ panic)
    → (write_field src sep (record { done = done; cur = replicate n 0 }) >>= f) ≡ panic
field_or_panic src sep n done f later = elim (dec_le n (length src)) [
  | yes p ↦ rw (write_field_panics src sep n done p)
  | no p ↦
      rw (write_field_lem src sep n (n - length src - 1) done (omega arith))
        (later (n - length src - 1) (omega arith))
]

write_pairs_panics :
    (m : Pairs) (n : ℕ) (done : Bytes)
    → n < length (pair_bytes m)
    → write_pairs m (record { done = done; cur = replicate n 0 }) ≡ panic
unfolding write_pairs
write_pairs_panics [] n done h = absurd (omega arith)
write_pairs_panics ((key, value) ∷ rest) n done h = field_or_panic key pair_splitter n done _ λ k e.
    field_or_panic value splitter k _ _
      λ j e'. write_pairs_panics rest j _ (omega (arith, length-pair_bytes key value rest))

write_names_panics :
    (req : Request) (n : ℕ) (done : Bytes)
    → n < length (names_bytes req)
    → (do
      c₁ ← write_field req.service_name splitter (record { done = done; cur = replicate n 0 })
      c₂ ← write_field req.method_name splitter c₁
      c₃ ← write_pairs (entries req.meta) c₂
      let c₄ = copy_in req.payload c₃
      ok (c₄.done ++ c₄.cur))
      ≡ panic
write_names_panics req n done h = field_or_panic req.service_name splitter n done _ λ k e.
    field_or_panic req.method_name splitter k _ _
      λ j e'. rw (write_pairs_panics (entries req.meta) j _ (omega (arith, length-names req)))

length-write_at : (i : ℕ) (src bs : Bytes) → length (write_at i src bs) ≡ length bs
length-write_at zero src bs = length-overlay src bs
length-write_at (suc i) src [] = refl
length-write_at (suc i) src (b ∷ bs) = ap suc (length-write_at i src bs)

put_fixed_panics : (h b m v c s n : ℕ) → n < 15 → put_fixed h b m v c s (replicate n 0) ≡ panic
unfolding put_fixed
put_fixed_panics h b m v c s n small = ground (
  arith,
  length-replicate {A = ℕ} n 0,
  length-overlay (u32_bytes h) (replicate n 0),
  length-write_at 4 (u32_bytes b) b₁,
  length-write_at 8 (u32_bytes m) b₂,
  length-set b₃ 12 v,
  length-set (set b₃ 12 v) 13 c,
)
  where
    b₁ : Bytes
    b₁ = overlay (u32_bytes h) (replicate n 0)

    b₂ : Bytes
    b₂ = write_at 4 (u32_bytes b) b₁

    b₃ : Bytes
    b₃ = write_at 8 (u32_bytes m) b₂

encode_req_short :
    (req : Request)
    → add32 req.head_length req.body_length < header_size req
    → encode_req req ≡ panic
unfolding encode_req
encode_req_short req h = elim (dec_le 15 size) [
  | no p ↦ rw (
      put_fixed_panics req.head_length req.body_length req.message_id req.version req.compresser
        req.serializer size (omega arith))
  | yes p ↦
      rw
        (put_fixed_lem req.head_length req.body_length req.message_id req.version req.compresser
          req.serializer size (size - 15) (omega arith))
        (rw (le→leb 15 (length (fixed_of req ++ replicate (size - 15) 0)) (omega arith))
          (write_names_panics req (size - 15) (take 15 (fixed_of req)) (omega arith)))
]
  where
    size : ℕ
    size = add32 req.head_length req.body_length

-- EncodeReq panics exactly where the two lengths that the request carries, added as uint32
-- values, are short of the header that it writes; otherwise it returns as many bytes as that
-- sum.
pub encode_req-bounds :
    (req : Request)
    → ((encode_req req ≡ panic) ↔ (add32 req.head_length req.body_length < header_size req))
      × ((encode_req req ≢ panic)
          → Returns (λ bs. length bs ≡ add32 req.head_length req.body_length) (encode_req req))
encode_req-bounds req = elim (dec_le (header_size req) size) [
  | yes p ↦
      let returns = encode_req_roomy req (size - header_size req) (omega arith) in
      (
        (λ e. cc, λ short. absurd (omega arith)),
        λ _. rw returns (full (size - header_size req) (omega arith)),
      )
  | no p ↦ (
    (λ _. omega arith, encode_req_short req),
    λ n. absurd (n (encode_req_short req (omega arith))),
  )
]
  where
    size : ℕ
    size = add32 req.head_length req.body_length

    full :
        (k : ℕ)
        → size ≡ header_size req + k
        → length (fixed_of req ++ (names_bytes req ++ overlay req.payload (replicate k 0))) ≡ size
    full k e = omega (
      arith,
      length-append (names_bytes req) (overlay req.payload (replicate k 0)),
      length-overlay req.payload (replicate k 0),
      length-replicate {A = ℕ} k 0,
    )
