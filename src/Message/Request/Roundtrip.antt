-- ===== src/Message/Request/Roundtrip.antt =====
-- DecodeReq after EncodeReq, as client and server put them together.
use mathlib.Core.List.{append_assoc, append-nil}
use emicro.Common.{
  ℕ, zero, suc, ◌+◌, ◌^◌, ◌<◌, ◌≡◌, refl, ap, ◌∙◌, false, none, [], ◌∷◌, ◌++◌, ◌==◌, if◌then◌else◌,
  length, All, length-append, lt→ltb, ne→not-==, take-append, ok, ◌>>=◌, arith,
}
use emicro.Common.Maps.{Bytes, bytes_eq, bytes_eq_comm, insert, insert_new, Absent, DistinctKeys}
use emicro.Message.Wire.{splitter, pair_splitter, slice, get_u32, get_byte, cut}
use emicro.Message.Wire.Laws.{
  Free, fixed_bytes, read_fixed_lem, cut_lem, slice_lem, index_byte-append, drop-suc-append,
}
use emicro.Message.Request.{
  Request, Pairs, entries, encode_req, decode_pairs, decode_meta, decode_req,
  calculate_header_length, calculate_body_length, sized,
}
use emicro.Message.Request.Layout.{
  pair_bytes, length-pair_bytes, names_bytes, layout, header_size, IsSized, encode_req-sized,
  sized-IsSized,
}

-- What the separators of the format ask of a key and its value.
abbrev pub IsCleanPair : Bytes × Bytes → Type 0
IsCleanPair (key, value) = Free splitter key × Free pair_splitter key × Free splitter value

-- Requests that the format can carry: no separator in a name, a key or a value (a value may hold
-- a pair splitter), a map with distinct keys, and words of 32 bits.
pub record IsClean (req : Request) : Type 0 where
  pub service : Free splitter req.service_name
  pub method : Free splitter req.method_name
  pub pairs : All IsCleanPair (entries req.meta)
  pub distinct : DistinctKeys (entries req.meta)
  pub id : req.message_id < 2 ^ 32

Free-append :
    (c x : ℕ) (xs ys : Bytes) → (x == c) ≡ false → Free c xs → Free c ys → Free c (xs ++ x ∷ ys)
Free-append c x [] ys n hx hy = (n, hy)
Free-append c x (a ∷ xs) ys n hx hy = (hx.0, Free-append c x xs ys n hx.1 hy)

Absent-append :
    (key value j : Bytes) (acc rest : Pairs)
    → Absent j (acc ++ (key, value) ∷ rest)
    → bytes_eq key j ≡ false
Absent-append key value j [] rest h = h.0
Absent-append key value j ((i, w) ∷ acc) rest h = Absent-append key value j acc rest h.1

-- In a map with distinct keys, a key is absent from the entries before it.
Distinct-before :
    (key value : Bytes) (acc rest : Pairs)
    → DistinctKeys (acc ++ (key, value) ∷ rest)
    → Absent key acc
Distinct-before key value [] rest h = tt
Distinct-before key value ((j, w) ∷ acc) rest h = (
  bytes_eq_comm j key ∙ Absent-append key value j acc rest h.0,
  Distinct-before key value acc rest h.1,
)

-- The pair and its end, with the separators grouped as DecodeReq finds them.
pair_bytes-cut :
    (key value : Bytes) (rest : Pairs)
    → pair_bytes ((key, value) ∷ rest)
      ≡ (key ++ pair_splitter ∷ value) ++ splitter ∷ pair_bytes rest
pair_bytes-cut key value rest = simp append_assoc

-- One round of the loop takes one pair off.
decode_pairs-step :
    (key value tail : Bytes) (acc : Pairs) (fuel : ℕ)
    → IsCleanPair (key, value)
    → decode_pairs (suc fuel) ((key ++ pair_splitter ∷ value) ++ splitter ∷ tail) acc
      ≡ decode_pairs fuel tail (insert key value acc)
unfolding decode_pairs
decode_pairs-step key value tail acc fuel clean =
    rw (index_byte-append pair tail splitter free, decode_pairs)
      (rw (take-append pair (splitter ∷ tail), drop-suc-append pair tail splitter)
        (rw (cut_lem key value pair_splitter clean.1)))
  where
    pair : Bytes
    pair = key ++ pair_splitter ∷ value

    free : Free splitter pair
    free = Free-append splitter pair_splitter key value refl clean.0 clean.2

decode_pairs_lem :
    (m acc : Pairs) (fuel : ℕ)
    → All IsCleanPair m
    → DistinctKeys (acc ++ m)
    → length (pair_bytes m) < fuel
    → decode_pairs fuel (pair_bytes m) acc ≡ ok (acc ++ m)
decode_pairs_lem [] acc zero clean distinct h = absurd (omega arith)
decode_pairs_lem [] acc (suc fuel) clean distinct h = unfold decode_pairs in rw (append-nil acc)
decode_pairs_lem ((key, value) ∷ rest) acc zero clean distinct h = absurd (omega arith)
decode_pairs_lem ((key, value) ∷ rest) acc (suc fuel) clean distinct h =
    rw
      (
        pair_bytes-cut key value rest,
        decode_pairs-step key value (pair_bytes rest) acc fuel clean.0,
      )
      (rw (insert_new key value acc (Distinct-before key value acc rest distinct)) (
        decode_pairs_lem rest (acc ++ (key, value) ∷ []) fuel clean.1
          (rw (append_assoc acc ((key, value) ∷ []) rest) distinct) (omega (arith, shorter))
        ∙ ap (λ m. ok m) (append_assoc acc ((key, value) ∷ []) rest)))
  where
    shorter : length (pair_bytes rest) < length (pair_bytes ((key, value) ∷ rest))
    shorter = omega (
      arith,
      ap length (pair_bytes-cut key value rest),
      length-append (key ++ pair_splitter ∷ value) (splitter ∷ pair_bytes rest),
    )

decode_meta_lem :
    (m : Pairs) → All IsCleanPair m → DistinctKeys m → decode_meta (pair_bytes m) ≡ ok m
unfolding decode_meta
decode_meta_lem [] clean distinct = refl
decode_meta_lem ((key, value) ∷ rest) clean distinct =
    rw
      (decode_pairs_lem ((key, value) ∷ rest) [] (suc (length (pair_bytes ((key, value) ∷ rest))))
        clean distinct (omega arith))
      (rw (
        lt→ltb 0 (length (pair_bytes ((key, value) ∷ rest)))
          (omega (arith, length-pair_bytes key value rest))))

cut_field : (xs ys : Bytes) (c : ℕ) → Free c xs → cut ((xs ++ c ∷ []) ++ ys) c ≡ ok (xs, ys)
cut_field xs ys c h = rw (append_assoc xs (c ∷ []) ys) (cut_lem xs ys c h)

decode_payload :
    (pre payload : Bytes) (head body : ℕ)
    → head ≡ length pre
    → body ≡ length payload
    → (if body == 0 then ok [] else slice head (length (pre ++ payload)) (pre ++ payload))
      ≡ ok payload
decode_payload pre [] head body h b = rw b
decode_payload pre (x ∷ payload) head body h b = rw (ne→not-== body 0 (omega arith)) (
    rw (append-nil (x ∷ payload)) at (
      slice_lem pre (x ∷ payload) [] head (length (pre ++ x ∷ payload)) h
        (length-append pre (x ∷ payload))))

decode_req-layout :
    (req : Request)
    → IsSized req
    → IsClean req
    → decode_req (layout req) ≡ ok (record req { meta = none })
unfolding decode_req
decode_req-layout req sizes clean =
    rw (fixed.0, fixed.1, fixed.2, fixed.3, fixed.4, fixed.5)
      (rw (slice_lem pre (names_bytes req) req.payload 15 req.head_length refl sizes.head) (
        rw
          (cut_field req.service_name
            ((req.method_name ++ splitter ∷ []) ++ pair_bytes (entries req.meta)) splitter
            clean.service)
          (rw (cut_field req.method_name (pair_bytes (entries req.meta)) splitter clean.method) (
            rw (decode_meta_lem (entries req.meta) clean.pairs clean.distinct) (
              rw (
                decode_payload (pre ++ names_bytes req) req.payload req.head_length req.body_length
                  (omega (arith, sizes.head)) sizes.body))))))
  where
    pre : Bytes
    pre =
        fixed_bytes req.head_length req.body_length req.message_id req.version req.compresser
          req.serializer

    rest : Bytes
    rest = names_bytes req ++ req.payload

    fixed :
        (get_u32 0 (pre ++ rest) ≡ ok req.head_length)
        × (get_u32 4 (pre ++ rest) ≡ ok req.body_length)
        × (get_u32 8 (pre ++ rest) ≡ ok req.message_id)
        × (get_byte 12 (pre ++ rest) ≡ ok req.version)
        × (get_byte 13 (pre ++ rest) ≡ ok req.compresser)
        × (get_byte 14 (pre ++ rest) ≡ ok req.serializer)
    fixed =
        read_fixed_lem req.head_length req.body_length req.message_id req.version req.compresser
          req.serializer rest (omega arith) (omega arith) clean.id

-- A request with no newline in its names, keys and values and no carriage return in its keys, with
-- distinct keys, an id that is a uint32 and its lengths calculated, comes back from EncodeReq and
-- DecodeReq with no panic and as it was, but for its meta data: they are read, and dropped, and the
-- request has a nil map for them; a uint32 must hold the two lengths together.
pub decode-encode_req :
    (req : Request)
    → IsClean req
    → header_size req + length req.payload < 2 ^ 32
    → (encode_req (sized req) >>= decode_req) ≡ ok (record (sized req) { meta = none })
unfolding calculate_body_length calculate_header_length
decode-encode_req req clean fits =
    rw (encode_req-sized (sized req) whole) (decode_req-layout (sized req) whole kept)
  where
    whole : IsSized (sized req)
    whole = sized-IsSized req fits

    kept : IsClean (sized req)
    kept = record {
      service = clean.service;
      method = clean.method;
      pairs = clean.pairs;
      distinct = clean.distinct;
      id = clean.id;
    }
