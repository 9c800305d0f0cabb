-- ===== src/Pool/Custody.antt =====
-- What the clients of the pools are held to: a connection that Acquire gives is given to Release or to
-- CloseAndDrop, once.
use fasthttpproxy.Common.{ℕ, Option, ◌≡◌}
use fasthttpproxy.Common.Text.{Str}
use fasthttpproxy.Common.Result.{Error, Result, ok, err}
use fasthttpproxy.Common.Net.{Conn}
use fasthttpproxy.Pool.State.{PoolState}
use fasthttpproxy.Pool.Upstream.{
  acquire_upstream_connection, release_upstream_connection, close_and_drop_upstream_connection,
}
use fasthttpproxy.Pool.Untouched.{Untouched}

-- What is known of the pools while a client has a connection, and while it has none; and how the calls
-- lead from one to the other.
pub record Custody : Type 1 where
  pub Idle : PoolState → Type 0
  pub Taken : Str → Conn → PoolState → Type 0
  pub idle_same : {p q : PoolState} → Untouched p q → Idle p → Idle q
  pub taken_same :
      {addr : Str} {c : Conn} {p q : PoolState} → Untouched p q → Taken addr c p → Taken addr c q
  pub released :
      (now : ℕ) (e : Option Error) {addr : Str} {c : Conn} {p : PoolState}
      → Taken addr c p
      → Idle (release_upstream_connection now e addr c p)
  pub dropped :
      (e : Option Error) {addr : Str} {c : Conn} {p : PoolState}
      → Taken addr c p
      → Idle (close_and_drop_upstream_connection e addr c p)

-- The pools before a request, whose dials may give no connection that is in use.
pub record Ready (K : Custody) (fasthttp_dial : Str → Result Conn) (p : PoolState) : Type 0 where
  pub idle : K.Idle p
  pub acquired :
      (now : ℕ) (e : Option Error) (addr : Str) (c : Conn)
      → (acquire_upstream_connection fasthttp_dial now e addr p).1 ≡ ok c
      → K.Taken addr c (acquire_upstream_connection fasthttp_dial now e addr p).0
  pub refused :
      (now : ℕ) (e : Option Error) (addr : Str) (f : Error)
      → (acquire_upstream_connection fasthttp_dial now e addr p).1 ≡ err f
      → K.Idle (acquire_upstream_connection fasthttp_dial now e addr p).0
