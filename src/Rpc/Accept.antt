-- ===== src/Rpc/Accept.antt =====
-- Start and Close of rpc/server.go: the loop that accepts connections.
use emicro.Common.{ℕ, ◌≡◌, refl, Option, none, some, List, [], ◌∷◌, All, ◌≢◌}
use emicro.Common.Maps.{Bytes}

-- What Accept returns: a connection, net.ErrClosed itself, or another error; an error that only wraps
-- net.ErrClosed is another one.
pub data Accepted : Type 0 where
  conn : ℕ → Accepted
  err_closed : Accepted
  another : Bytes → Accepted

-- Start has returned an error or nil, or it waits at Accept.
pub data Started : Type 0 where
  not_listening : Bytes → Started
  stopped : Started
  accepting : Started

-- The loop on what Accept returns: where Start is, and the connections that have a goroutine of
-- handleConn.
unfoldable pub accept_loop : List Accepted → Started × List ℕ
accept_loop [] = (accepting, [])
accept_loop (conn c ∷ rest) = let (end, conns) = accept_loop rest in (end, c ∷ conns)
accept_loop (err_closed ∷ rest) = (stopped, [])
accept_loop (another e ∷ rest) = accept_loop rest

-- Start, with net.Listen's error or none.
unfoldable pub start_server : Option Bytes → List Accepted → Started × List ℕ
start_server (some e) accepted = (not_listening e, [])
start_server none accepted = accept_loop accepted

-- Close with the listener, if there is one, and the error of its Close.
abbrev pub close_server : Option (Option Bytes) → Option Bytes
close_server none = none
close_server (some closed) = closed

abbrev pub conns_of : List Accepted → List ℕ
conns_of [] = []
conns_of (conn c ∷ rest) = c ∷ conns_of rest
conns_of (err_closed ∷ rest) = conns_of rest
conns_of (another e ∷ rest) = conns_of rest

-- Where Accept never returns net.ErrClosed itself, Start goes on for ever, and every connection that
-- is accepted is handled, in order, whatever errors come between.
pub start_server-conns_of :
    (accepted : List Accepted)
    → All (λ a. a ≢ err_closed) accepted
    → start_server none accepted ≡ (accepting, conns_of accepted)
unfolding start_server accept_loop
start_server-conns_of [] h = refl
start_server-conns_of (conn c ∷ rest) (h, hs) = rw (start_server-conns_of rest hs) refl
start_server-conns_of (err_closed ∷ rest) (h, hs) = absurd (h refl)
start_server-conns_of (another e ∷ rest) (h, hs) = start_server-conns_of rest hs
