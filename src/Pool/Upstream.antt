-- ===== src/Pool/Upstream.antt =====
-- internal/pool/upstream_pool.go, and dialNew of pool.go, each run as a whole: the shared
-- variables of one call are not changed by another while it runs.
use fasthttpproxy.Common.{
  ℕ, suc, ◌-◌, Option, none, some, [], ◌∷◌, ◌++◌, if◌then◌else◌, length, unsnoc,
}
use fasthttpproxy.Common.Int.{ℤ, pos, negsuc, ◌+ℤ◌, int32, leb_ℤ, ltb_ℤ}
use fasthttpproxy.Common.Text.{Str}
use fasthttpproxy.Common.Result.{Error, Result, ok, err, err_dial_timeout}
use fasthttpproxy.Common.Net.{Conn}
use fasthttpproxy.Pool.State.{PoolState, store}
use fasthttpproxy.Pool.Dial.{dial}

-- atomic.AddInt32(&cp.count, delta) on the pool of `addr`
unfoldable pub add_count : PoolState → Str → ℤ → PoolState
add_count p addr delta =
    let cp = p.upstream_pool addr in store p addr (record cp { count = int32 (cp.count +ℤ delta) })

-- conn.Close(), with the error that it returned; an error is counted.
unfoldable pub close : PoolState → Conn → Option Error → PoolState
close p c none = record p { closed = c ∷ p.closed }
close p c (some e) = record p {
  closed = c ∷ p.closed;
  metrics = record (p.metrics) { close_errors = suc p.metrics.close_errors };
}

-- The end of dialNew: the count was raised before the call of dial, and is lowered if that failed.
unfoldable pub dialed : PoolState → Str → Result Conn → PoolState × Result Conn
dialed p addr (ok c) = (add_count p addr (pos 1), ok c)
dialed p addr (err e) = (add_count (add_count p addr (pos 1)) addr (negsuc 0), err e)

-- (*connPool).dialNew
unfoldable pub dial_new : (Str → Result Conn) → PoolState → Str → PoolState × Result Conn
unfolding dialed
dial_new fasthttp_dial p addr =
    if leb_ℤ (int32 p.settings.max_upstream_connections_per_host) (p.upstream_pool addr).count
    then (p, err err_dial_timeout)
    else dialed p addr (dial fasthttp_dial p addr)

-- metrics.IdleDropErrors.Inc()
abbrev pub count_drop : PoolState → PoolState
count_drop p = record p {
  metrics = record (p.metrics) { idle_drop_errors = suc p.metrics.idle_drop_errors };
}

-- The branch of AcquireUpstreamConnection on a connection that was idle too long: it is counted,
-- closed and taken off the count.
unfoldable pub drop_idle : PoolState → Str → Conn → Option Error → PoolState
unfolding close add_count
drop_idle p addr c close_error = add_count (close (count_drop p) c close_error) addr (negsuc 0)

-- AcquireUpstreamConnection at the time `now`. `close_error` is what Close returns, if it is called.
unfoldable pub acquire_upstream_connection :
    (Str → Result Conn) → ℕ → Option Error → Str → PoolState → PoolState × Result Conn
unfolding drop_idle dial_new
acquire_upstream_connection fasthttp_dial now close_error addr p =
    let cp = p.upstream_pool addr in
    elim (unsnoc cp.free) [
      | none ↦ dial_new fasthttp_dial p addr
      | some (rest, last) ↦
          let popped = store p addr (record cp { free = rest }) in
          if ltb_ℤ p.settings.idle_timeout (pos (now - last.returned_at))
          then dial_new fasthttp_dial (drop_idle popped addr last.conn close_error) addr
          else (popped, ok last.conn)
    ]

-- ReleaseUpstreamConnection at the time `now`
unfoldable pub release_upstream_connection : ℕ → Option Error → Str → Conn → PoolState → PoolState
unfolding close add_count
release_upstream_connection now close_error addr c p =
    let cp = p.upstream_pool addr in
    if leb_ℤ p.settings.max_upstream_connections_per_host (pos (length cp.free))
    then close (add_count p addr (negsuc 0)) c close_error
    else store p addr (record cp { free = cp.free ++ record { conn = c; returned_at = now } ∷ [] })

-- CloseAndDropUpstreamConnection: the deferred Close runs last.
unfoldable pub close_and_drop_upstream_connection :
    Option Error → Str → Conn → PoolState → PoolState
unfolding close add_count
close_and_drop_upstream_connection close_error addr c p =
    close (add_count p addr (negsuc 0)) c close_error
