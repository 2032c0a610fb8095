-- ===== src/Rpc/Client/Ids.antt =====
-- rpc/client.go: the message ids of calls that share the counter.
use emicro.Common.{
  ℕ, zero, suc, ◌+◌, ◌%◌, ◌^◌, ◌<◌, ◌≡◌, ◌≢◌, refl, sym, ap, ◌-◌, Option, some, List, [], ◌∷◌,
  length, get_elem?, Outcome, ok, panic, no_fuel, ◌>>=◌, bind-ok, IfReturns, IfReturns-bind, arith,
}
use emicro.Common.Words.{add32}
use emicro.Common.Maps.{Bytes}
use emicro.Message.Request.{Request, calculate_header_length, calculate_body_length}
use emicro.Message.Response.{Response}
use emicro.Rpc.Codec.{Result, returned, failed, Compressor, Serializer}
use emicro.Rpc.Client.{Context, Proxy, build_request, build_meta, send, call, read_response}

-- A proxy that writes down the ids of the requests that it is handed, the last one first.
abbrev pub noting : {W : Type 0} → Proxy W → Proxy (List ℕ × W)
noting proxy ctx req (ids, w) = do
  (result, w') ← proxy ctx req w
  ok (result, (req.message_id ∷ ids, w'))

-- A call of a field's function: the names, the context, the argument and the zero value.
pub record FieldCall (V : Type 0) : Type 0 where
  pub service_name : Bytes
  pub method_name : Bytes
  pub ctx : Context
  pub arg : V
  pub out : V

build_request-id :
    (ctx : Context) (compresser serializer : ℕ) (service_name method_name : Bytes) (message_id : ℕ)
    (req : Request)
    → build_request ctx compresser serializer service_name method_name message_id ≡ ok req
    → req.message_id ≡ message_id
unfolding build_request calculate_header_length calculate_body_length
build_request-id ctx compresser serializer service_name method_name message_id req e =
    let (meta, _, e') = bind-ok (build_meta ctx) _ req e in cc

-- The ids, the last one first, are those that follow `first`, modulo 2^32.
abbrev pub Numbered : ℕ → List ℕ → Type 0
Numbered first [] = Unit
Numbered first (id ∷ ids) = (id ≡ (first + (length ids + 1)) % 2 ^ 32) × Numbered first ids

-- And the counter is as far on as the last of them.
abbrev Counts : ℕ → ℕ → List ℕ → Type 0
Counts first last ids = (last % 2 ^ 32 ≡ (first + length ids) % 2 ^ 32) × Numbered first ids

Numbered-get :
    (first i id : ℕ) (ids : List ℕ)
    → Numbered first ids
    → get_elem? ids i ≡ some id
    → (i < length ids) × (id ≡ (first + (length ids - i)) % 2 ^ 32)
Numbered-get first i id [] h at = cc
Numbered-get first zero id (x ∷ ids) h at =
    let same : x ≡ id = cc in rw (sym same) (omega (arith, h.0))
Numbered-get first (suc i) id (x ∷ ids) h at = omega (arith, Numbered-get first i id ids h.1 at)

module _ {V W : Type 0} (serializer : Serializer V) (compressor : Compressor)
    (proxy : Proxy W) where
  abbrev pub call_noted :
      FieldCall V → ℕ → List ℕ × W → Outcome ((V × Option Bytes) × ℕ × (List ℕ × W))
  call_noted c message_id noted =
      call serializer compressor c.service_name c.method_name (noting proxy) c.ctx c.arg c.out
        message_id noted

  -- Calls one after the other, from a value of the counter.
  unfoldable pub call_all : List (FieldCall V) → ℕ → List ℕ × W → Outcome (ℕ × (List ℕ × W))
  call_all [] message_id noted = ok (message_id, noted)
  call_all (c ∷ calls) message_id noted = do
    done ← call_noted c message_id noted
    call_all calls done.1 done.2

  abbrev Done : Type 0
  Done = (V × Option Bytes) × ℕ × (List ℕ × W)

  -- What a call leaves of the counter and the ids.
  abbrev Kept : ℕ → Done → Type 0
  Kept first done = Counts first done.1 done.2.0

  noting-Kept :
      (c : FieldCall V) (first last : ℕ) (ids : List ℕ) (w : W) (req : Request)
      → req.message_id ≡ add32 last 1
      → Counts first last ids
      → IfReturns (Kept first) (do
        (result, noted) ← noting proxy c.ctx req (ids, w)
        elim result [
          | failed e ↦ ok ((c.out, some e), add32 last 1, noted)
          | returned resp ↦ ok (read_response serializer compressor resp c.out, add32 last 1, noted)
        ])
  noting-Kept c first last ids w req id h = answered (proxy c.ctx req w) refl
    where
      noted : Counts first (add32 last 1) (req.message_id ∷ ids)
      noted = rw id (omega (arith, h.0), (omega (arith, h.0), h.1))

      answered :
          (x : Outcome (Result Response × W))
          → proxy c.ctx req w ≡ x
          → IfReturns (Kept first) (do
            (result, noted) ← noting proxy c.ctx req (ids, w)
            elim result [
              | failed e ↦ ok ((c.out, some e), add32 last 1, noted)
              | returned resp ↦
                  ok (read_response serializer compressor resp c.out, add32 last 1, noted)
            ])
      answered (ok (failed e, w')) at = rw at noted
      answered (ok (returned resp, w')) at = rw at noted
      answered panic at = rw at tt
      answered no_fuel at = rw at tt

  call-Kept :
      (c : FieldCall V) (first last : ℕ) (ids : List ℕ) (w : W)
      → Counts first last ids
      → IfReturns (Kept first) (call_noted c last (ids, w))
  unfolding call send
  call-Kept c first last ids w h = encoded (serializer.encode c.arg) refl
    where
      packed :
          (bs : Bytes) (x : Result Bytes)
          → serializer.encode c.arg ≡ returned bs
          → compressor.compress bs ≡ x
          → IfReturns (Kept first) (call_noted c last (ids, w))
      packed bs (failed e) e1 e2 = rw (e1, e2, call) h
      packed bs (returned bs') e1 e2 =
          rw (e1, e2, call)
            (IfReturns-bind (Kept first)
              (build_request c.ctx compressor.code serializer.code c.service_name c.method_name
                (add32 last 1))
              _
              (λ req made.
                noting-Kept c first last ids w req
                  (build_request-id c.ctx compressor.code serializer.code c.service_name
                    c.method_name (add32 last 1) req made)
                  h))

      encoded :
          (x : Result Bytes)
          → serializer.encode c.arg ≡ x
          → IfReturns (Kept first) (call_noted c last (ids, w))
      encoded (failed e) e1 = rw (e1, call) h
      encoded (returned bs) e1 = packed bs (compressor.compress bs) e1 refl

  call_all-Kept :
      (calls : List (FieldCall V)) (first last : ℕ) (ids : List ℕ) (w : W)
      → Counts first last ids
      → IfReturns (λ done. Numbered first done.1.0) (call_all calls last (ids, w))
  unfolding call_all
  call_all-Kept [] first last ids w h = h.1
  call_all-Kept (c ∷ calls) first last ids w h =
      IfReturns-bind (λ done. Numbered first done.1.0) (call_noted c last (ids, w)) _
        (λ done e.
          call_all-Kept calls first done.1 done.2.0 done.2.1
            (rw e at (call-Kept c first last ids w h)))

  -- The requests of fewer than 2^32 calls that share the counter, whatever their services, arguments and
  -- contexts, and wherever the counter starts, all have different message ids.
  pub call_all-distinct :
      (calls : List (FieldCall V)) (first last i j a b : ℕ) (ids : List ℕ) (w w' : W)
      → call_all calls first ([], w) ≡ ok (last, (ids, w'))
      → length ids < 2 ^ 32
      → i ≢ j
      → get_elem? ids i ≡ some a
      → get_elem? ids j ≡ some b
      → a ≢ b
  call_all-distinct calls first last i j a b ids w w' e few apart at_i at_j same =
      let numbered : Numbered first ids =
        rw e at
          (call_all-Kept calls first first [] w (ap (λ (n : ℕ). n % 2 ^ 32) (omega arith), tt)) in
      apart (
        omega (
          arith,
          Numbered-get first i a ids numbered at_i,
          Numbered-get first j b ids numbered at_j,
        ))
