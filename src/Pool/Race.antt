-- ===== src/Pool/Race.antt =====
-- internal/pool/upstream_pool.go, and dialNew of pool.go, by the steps in which goroutines interleave
-- on the pool of one address. A step is one access to the shared state: a stretch under the mutex, an
-- atomic operation on the count, a call of Close, or the result of a dial.
pub mod Counting
pub mod Exclusive
pub mod Overrun
pub mod Calls
pub mod Solo
use fasthttpproxy.Common.{
  ℕ, ◌-◌, ◌<◌, true, false, Option, none, some, List, [], ◌∷◌, ◌++◌, ◌≡◌, ◌≢◌, All, length, unsnoc,
}
use fasthttpproxy.Common.Int.{ℤ, pos, negsuc, ◌+ℤ◌, int32, leb_ℤ, ltb_ℤ}
use fasthttpproxy.Common.Threads.{assign}
use fasthttpproxy.Common.Net.{Conn}
use fasthttpproxy.Pool.State.{ConnPool, IdleConn, Settings, empty_conn_pool}

-- The pool of the address, and the connections on which Close was called.
pub record Shared : Type 0 where
  pub pool : ConnPool
  pub closed : List Conn

-- Where a goroutine stands, with its local connection.
pub data Pc : Type 0 where
  outside : Pc  -- it holds no connection
  popped : IdleConn → Pc  -- Acquire, before the test of the idle time
  stale : Pc  -- Acquire, after Close of a connection that was idle too long
  testing : Pc  -- start of dialNew
  tested : Pc  -- dialNew, before the count is raised
  dialing : Pc  -- dialNew, at the call of dial
  failed : Pc  -- dialNew, before the count is lowered
  holding : Conn → Pc  -- Acquire has returned the connection
  closing : Conn → Pc  -- before Close, in CloseAndDrop or in Release to a full pool

-- atomic.AddInt32(&cp.count, delta)
abbrev pub add : ℤ → Shared → Shared
add delta m = record m { pool = record (m.pool) { count = int32 (m.pool.count +ℤ delta) } }

abbrev pub close_conn : Conn → Shared → Shared
close_conn c m = record m { closed = c ∷ m.closed }

abbrev pub set_free : List IdleConn → Shared → Shared
set_free xs m = record m { pool = record (m.pool) { free = xs } }

-- The steps of a goroutine: of Acquire, then of Release and of CloseAndDrop. `fresh` is what is known
-- of a connection that was dialed. Release to a full pool closes under the mutex; here others may step
-- between its `overflow` and its `shut`.
pub data Move (fresh : Conn → Type 0) (settings : Settings) (m : Shared)
    : Pc → Shared → Pc → Type 0 where
  pop :
      {rest : List IdleConn} {last : IdleConn}
      → unsnoc m.pool.free ≡ some (rest, last)
      → Move fresh settings m outside (set_free rest m) (popped last)
  find_none : unsnoc m.pool.free ≡ none → Move fresh settings m outside m testing
  take_idle :
      {last : IdleConn} (now : ℕ)
      → ltb_ℤ settings.idle_timeout (pos (now - last.returned_at)) ≡ false
      → Move fresh settings m (popped last) m (holding last.conn)
  expire :
      {last : IdleConn} (now : ℕ)
      → ltb_ℤ settings.idle_timeout (pos (now - last.returned_at)) ≡ true
      → Move fresh settings m (popped last) (close_conn last.conn m) stale
  uncount : Move fresh settings m stale (add (negsuc 0) m) testing
  refuse :
      leb_ℤ (int32 settings.max_upstream_connections_per_host) m.pool.count ≡ true
      → Move fresh settings m testing m outside
  pass :
      leb_ℤ (int32 settings.max_upstream_connections_per_host) m.pool.count ≡ false
      → Move fresh settings m testing m tested
  raise : Move fresh settings m tested (add (pos 1) m) dialing
  connect : {c : Conn} → fresh c → Move fresh settings m dialing m (holding c)
  fail : Move fresh settings m dialing m failed
  lower : Move fresh settings m failed (add (negsuc 0) m) outside
  put_back :
      {c : Conn} (now : ℕ)
      → leb_ℤ settings.max_upstream_connections_per_host (pos (length m.pool.free)) ≡ false
      → Move fresh settings m
          (holding c)
          (set_free (m.pool.free ++ record { conn = c; returned_at = now } ∷ []) m)
          outside
  overflow :
      {c : Conn}
      → leb_ℤ settings.max_upstream_connections_per_host (pos (length m.pool.free)) ≡ true
      → Move fresh settings m (holding c) (add (negsuc 0) m) (closing c)
  drop : {c : Conn} → Move fresh settings m (holding c) (add (negsuc 0) m) (closing c)
  shut : {c : Conn} → Move fresh settings m (closing c) (close_conn c m) outside

-- The connection that a goroutine has at hand.
abbrev pub own : Pc → Option Conn
own (popped last) = some last.conn
own (holding c) = some c
own (closing c) = some c
own _ = none

abbrev pub Apart : Conn → List IdleConn → Type 0
Apart c = All (λ x. x.conn ≢ c)

pub record System : Type 0 where
  pub shared : Shared
  pub pc : ℕ → Pc

-- A dial gives a connection that is not in use and was never closed.
pub record IsNew (s : System) (c : Conn) : Type 0 where
  pub not_idle : Apart c s.shared.pool.free
  pub not_owned : (i : ℕ) → own (s.pc i) ≢ some c
  pub not_closed : All (λ d. d ≢ c) s.shared.closed

-- One of the goroutines 0, …, n - 1 makes a step.
pub data Step (n : ℕ) (settings : Settings) (s : System) : System → Type 0 where
  goes :
      (i : ℕ) {m : Shared} {p : Pc}
      → i < n
      → Move (IsNew s) settings s.shared (s.pc i) m p
      → Step n settings s (record { shared = m; pc = assign s.pc i p })

abbrev pub start : System
start = record { shared = record { pool = empty_conn_pool; closed = [] }; pc = λ _. outside }

pub data Reach (n : ℕ) (settings : Settings) : System → Type 0 where
  here : Reach n settings start
  next : {s t : System} → Reach n settings s → Step n settings s t → Reach n settings t
