-- ===== src/Rpc/Transfer.antt =====
-- Client.Invoke and doInvoke of rpc/client.go: a request on a connection of the pool.
pub mod Lending
use emicro.Common.{
  ℕ, suc, ◌+◌, ◌≡◌, refl, ◌⊎◌, inl, inr, Bool, true, false, Option, none, some, List, [], ◌∷◌, ◌==◌,
  not, if◌then◌else◌, length, Bool-cases, Outcome, ok, panic, ◌>>=◌, Returns, Returns-ok, arith,
}
use emicro.Common.Maps.{Bytes}
use emicro.Message.Request.{Request, encode_req}
use emicro.Message.Response.{Response, decode_resp}
use emicro.Rpc.Codec.{
  Result, returned, failed, Result-cases, oneway_error, client_not_all_written,
  read_resp_fail_error, client_conn_deaded,
}
use emicro.Rpc.Client.{Context, is_oneway, Proxy}
use emicro.Rpc.Server.{Read, message, eof, read_failed, read_msg}

-- The pool of connections `C`, and Write of a connection, in the state `W` of the network.
pub record Net (C W : Type 0) : Type 0 where
  pub get : W → Result C × W
  pub put : C → W → W
  pub write : C → Bytes → W → Result ℕ × W

-- What becomes of the context during Invoke: it has ended before, it ends before the answer is
-- there, or it lasts.
pub data Ending : Type 0 where
  before : Bytes → Ending
  during : Bytes → Ending
  lasts : Ending

-- What doInvoke makes of what ReadMsg returns.
unfoldable pub on_read : {W : Type 0} → Read → W → Outcome (Result Response × W)
on_read eof w = ok (failed read_resp_fail_error, w)
on_read read_failed w = ok (failed read_resp_fail_error, w)
on_read (message bytes) w = decode_resp bytes >>= λ resp. ok (returned resp, w)

module _ {C W : Type 0} (net : Net C W) where
  -- doInvoke between Get and the deferred Put.
  unfoldable pub exchange : Context → Bytes → C → W → Outcome (Result Response × W)
  unfolding on_read
  exchange ctx encode conn w =
      let (wrote, w') = net.write conn encode w in
      elim wrote [
        | failed e ↦ ok (failed e, w')
        | returned l ↦
            if not (l == length encode)
            then ok (failed client_not_all_written, w')
            else if is_oneway ctx
            then ok (failed oneway_error, w')
            else read_msg >>= λ read. on_read read w'
      ]

  unfoldable pub do_invoke : Context → Bytes → W → Outcome (Result Response × W)
  unfolding exchange
  do_invoke ctx encode w =
      let (got, w') = net.get w in
      elim got [
        | failed e ↦ ok (failed (client_conn_deaded e), w')
        | returned conn ↦ exchange ctx encode conn w' >>= λ r. ok (r.0, net.put conn r.1)
      ]

  -- The goroutine runs to the end of doInvoke also where Invoke no longer waits for it.
  unfoldable pub client_invoke : Ending → Proxy W
  unfolding do_invoke
  client_invoke (before e) ctx request w = ok (failed e, w)
  client_invoke (during e) ctx request w = do
    encode ← encode_req request
    (result, w') ← do_invoke ctx encode w
    ok (failed e, w')
  client_invoke lasts ctx request w = do encode ← encode_req request; do_invoke ctx encode w
