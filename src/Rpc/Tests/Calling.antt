-- ===== src/Rpc/Tests/Calling.antt =====
-- Runs of the client.
use emicro.Common.{
  ℕ, suc, ◌+◌, ◌-◌, ◌≡◌, ◌≢◌, ◌↔◌, refl, [], ◌∷◌, length, ok, panic, Returns, arith,
}
use emicro.Common.Maps.{Bytes, bytes_of}
use emicro.Rpc.Codec.{returned, failed, do_nothing}
use emicro.Rpc.Client
use emicro.Rpc.Client.{Context, Proxy, build_request}
use emicro.Rpc.Client.Ids.{FieldCall, call_all, call_all-distinct}
use emicro.Message.Request
use emicro.Rpc.Client.Trip.{two_way_ctx}
use emicro.Rpc.Transfer.{Net, do_invoke}
use emicro.Rpc.Transfer.Lending.{Lends, Reads, Fails, do_invoke_lends}
use emicro.Rpc.Tests.{plain_json}

-- A pool of one connection, whose state is the number of connections that are out.
abbrev silent : Net Unit ℕ
silent = record {
  get = λ w. (returned tt, suc w);
  put = λ conn w. w - 1;
  write = λ conn bs w. (returned (length bs), w);
}

silent-Lends : Lends silent
silent-Lends = record {
  out = λ w. w;
  get_one = λ w conn e. refl;
  get_none = λ w e h. cc;
  put_back = λ w conn n e. omega arith;
  write_keeps = λ w conn bs. refl;
}

do_invoke_lends_example :
    ((do_invoke silent two_way_ctx (1 ∷ []) 0 ≡ panic) ↔ Reads silent two_way_ctx (1 ∷ []) 0)
    × ((do_invoke silent two_way_ctx (1 ∷ []) 0 ≢ panic)
        → Returns (Fails silent silent-Lends 0) (do_invoke silent two_way_ctx (1 ∷ []) 0))
do_invoke_lends_example = do_invoke_lends silent silent-Lends two_way_ctx (1 ∷ []) 0

-- A proxy of which every call fails, and two calls over it.
abbrev down : Proxy ℕ
down ctx req w = ok (failed (bytes_of "EOF"), w + 1)

abbrev get_call : FieldCall Bytes
get_call = record {
  service_name = bytes_of "user";
  method_name = bytes_of "Get";
  ctx = two_way_ctx;
  arg = 1 ∷ [];
  out = [];
}

two_calls :
    call_all plain_json do_nothing down (get_call ∷ get_call ∷ []) 7 ([], 0)
    ≡ ok (9, (9 ∷ 8 ∷ [], 2))
unfolding call_all Client.call Client.build_request Request.calculate_header_length
    Request.calculate_body_length
two_calls = refl

call_all-distinct_example : ◌≢◌ {A = ℕ} 9 8
call_all-distinct_example =
    call_all-distinct plain_json do_nothing down (get_call ∷ get_call ∷ []) 7 9 0 1 9 8 (9 ∷ 8 ∷ [])
      0 2 two_calls (omega arith) (λ e. omega arith) refl refl
