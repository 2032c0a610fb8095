-- ===== src/Rpc/Transfer/Lending.antt =====
-- What doInvoke returns, and the connections that it takes from the pool and puts back.
use emicro.Common.{
  ℕ, suc, ◌≡◌, ◌≢◌, ◌↔◌, ◌∙◌, refl, sym, ap, inl, inr, ◌==◌, length, true, false, Bool-cases,
  Outcome, ok, panic, Returns, arith,
}
use emicro.Common.Maps.{Bytes}
use emicro.Message.Response.{Response}
use emicro.Rpc.Codec.{
  Result, returned, failed, Result-cases, client_conn_deaded, client_not_all_written, oneway_error,
}
use emicro.Rpc.Client.{Context}
use emicro.Rpc.Transfer.{Net, exchange, do_invoke}

-- How the pool's calls move the number of connections that are out of it.
pub record Lends {C W : Type 0} (net : Net C W) : Type 0 where
  pub out : W → ℕ
  pub get_one : (w : W) (conn : C) → (net.get w).0 ≡ returned conn → out (net.get w).1 ≡ suc (out w)
  pub get_none : (w : W) (e : Bytes) → (net.get w).0 ≡ failed e → out (net.get w).1 ≡ out w
  pub put_back : (w : W) (conn : C) (n : ℕ) → out w ≡ suc n → out (net.put conn w) ≡ n
  pub write_keeps : (w : W) (conn : C) (bs : Bytes) → out (net.write conn bs w).1 ≡ out w

-- doInvoke comes to ReadMsg: it gets a connection, all bytes are written, and the call is two-way.
pub record Reads {C W : Type 0} (net : Net C W) (ctx : Context) (encode : Bytes) (w : W)
    : Type 0 where
  pub conn : C
  pub got : (net.get w).0 ≡ returned conn
  pub wrote : (net.write conn encode (net.get w).1).0 ≡ returned (length encode)
  pub two_way : ctx.one_way ≡ false

-- An error, and as many connections out of the pool as before.
pub record Fails {C W : Type 0} (net : Net C W) (lends : Lends net) (w : W)
    (r : Result Response × W) : Type 0 where
  pub error : Bytes
  pub no_response : r.0 ≡ failed error
  pub kept : lends.out r.1 ≡ lends.out w

module _ {C W : Type 0} (net : Net C W) (lends : Lends net) where
  abbrev Outcomes : Context → Bytes → W → Outcome (Result Response × W) → Type 0
  Outcomes ctx encode w m =
      ((m ≡ panic) ↔ Reads net ctx encode w) × ((m ≢ panic) → Returns (Fails net lends w) m)

  errs :
      (ctx : Context) (encode : Bytes) (w w' : W) (e : Bytes) (m : Outcome (Result Response × W))
      → m ≡ ok (failed e, w')
      → lends.out w' ≡ lends.out w
      → ¬ Reads net ctx encode w
      → Outcomes ctx encode w m
  errs ctx encode w w' e m same kept silent = (
    (λ p. cc, λ r. absurd (silent r)),
    λ _. rw same (record { error = e; no_response = refl; kept = kept }),
  )

  stops :
      (ctx : Context) (encode : Bytes) (w : W) (m : Outcome (Result Response × W))
      → m ≡ panic
      → Reads net ctx encode w
      → Outcomes ctx encode w m
  stops ctx encode w m same reads = ((λ _. reads, λ _. same), λ n. absurd (n same))

  same_length : (l : ℕ) (bs : Bytes) → (l == length bs) ≡ false → l ≢ length bs
  same_length l bs e = ground arith

  same_whole : (l : ℕ) (bs : Bytes) → (l == length bs) ≡ true → l ≡ length bs
  same_whole l bs e = ground arith

  returned-injective : {A : Type 0} (a b : A) → returned a ≡ returned b → a ≡ b
  returned-injective a b e = cc

  -- What a call that reads has written, on the connection that it got.
  written :
      (ctx : Context) (encode : Bytes) (w : W) (conn : C)
      → (net.get w).0 ≡ returned conn
      → Reads net ctx encode w
      → (net.write conn encode (net.get w).1).0 ≡ returned (length encode)
  written ctx encode w conn got r =
      let same : r.conn ≡ conn = returned-injective r.conn conn (sym r.got ∙ got) in
      rw same at r.wrote

  -- doInvoke never returns a response. It panics exactly where it gets a connection, writes all bytes and
  -- the call is two-way: there it calls ReadMsg, which is not written yet. Else it returns an error, and
  -- leaves as many connections out of the pool as there were.
  pub do_invoke_lends :
      (ctx : Context) (encode : Bytes) (w : W)
      → ((do_invoke net ctx encode w ≡ panic) ↔ Reads net ctx encode w)
        × ((do_invoke net ctx encode w ≢ panic)
            → Returns (Fails net lends w) (do_invoke net ctx encode w))
  unfolding do_invoke exchange
  do_invoke_lends ctx encode w = elim (Result-cases (net.get w).0) [
    | inl (e, h) ↦
        errs ctx encode w (net.get w).1 (client_conn_deaded e) (do_invoke net ctx encode w)
          (rw (h, do_invoke, exchange) refl) (lends.get_none w e h) (λ r. let got = r.got in cc)
    | inr (conn, h) ↦
        let w' = (net.get w).1 in
        let kept = lends.write_keeps w' conn encode in
        let back =
          lends.put_back (net.write conn encode w').1 conn (lends.out w)
            (kept ∙ lends.get_one w conn h) in
        elim (Result-cases (net.write conn encode w').0) [
          | inl (e, h') ↦
              errs ctx encode w (net.put conn (net.write conn encode w').1) e
                (do_invoke net ctx encode w) (rw (h, h', do_invoke, exchange) refl) back
                (λ r. let wrote = written ctx encode w conn h r in cc)
          | inr (l, h') ↦ elim (Bool-cases (l == length encode)) [
            | inr short ↦
                errs ctx encode w (net.put conn (net.write conn encode w').1) client_not_all_written
                  (do_invoke net ctx encode w) (rw (h, h', short, do_invoke, exchange) refl) back
                  (λ r.
                    same_length l encode short (
                      returned-injective l (length encode)
                        (sym h' ∙ written ctx encode w conn h r)))
            | inl whole ↦ elim (Bool-cases ctx.one_way) [
              | inl oneway ↦
                  errs ctx encode w (net.put conn (net.write conn encode w').1) oneway_error
                    (do_invoke net ctx encode w)
                    (rw (h, h', whole, oneway, do_invoke, exchange) refl) back
                    (λ r. let two = r.two_way in cc)
              | inr answered ↦
                  stops ctx encode w (do_invoke net ctx encode w)
                    (rw (h, h', whole, answered, do_invoke, exchange) refl)
                    (record {
                      conn = conn;
                      got = h;
                      wrote = h' ∙ ap returned (same_whole l encode whole);
                      two_way = answered;
                    })
            ]
          ]
        ]
  ]
