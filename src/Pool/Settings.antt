-- ===== src/Pool/Settings.antt =====
-- The setters of package internal/pool, each with the least value that it accepts.
use fasthttpproxy.Common.{Option, some, List, [], ◌∷◌, if◌then◌else◌, arith}
use fasthttpproxy.Common.Int.{ℤ, pos, ltb_ℤ, ◌≤ℤ◌}
use fasthttpproxy.Common.Text.{Str}
use fasthttpproxy.Common.Result.{Result}
use fasthttpproxy.Common.Net.{Conn, TlsConfig}
use fasthttpproxy.Pool.State.{PoolState, Settings, second, default_settings}

-- MaxConnectionsPerHost
unfoldable pub max_connections_per_host : ℤ → PoolState → PoolState
max_connections_per_host n p =
    if ltb_ℤ n (pos 1)
    then p
    else record p { settings = record (p.settings) { max_upstream_connections_per_host = n } }

-- IdleTimeout
unfoldable pub idle_timeout : ℤ → PoolState → PoolState
idle_timeout d p =
    if ltb_ℤ d (pos second)
    then p
    else record p { settings = record (p.settings) { idle_timeout = d } }

-- BufferSize
unfoldable pub buffer_size : ℤ → PoolState → PoolState
buffer_size n p =
    if ltb_ℤ n (pos 64)
    then p
    else record p { settings = record (p.settings) { default_buf_size = n } }

-- PipeCopyBufferSize: it also replaces the pool of buffers, and sets its idle counter and gauge to 0.
unfoldable pub pipe_copy_buffer_size : ℤ → PoolState → PoolState
pipe_copy_buffer_size n p = if ltb_ℤ n (pos 256) then p else record p {
  settings = record (p.settings) { pipe_copy_buffer_size = n };
  counters = record (p.counters) { pipe_idle = pos 0 };
  metrics = record (p.metrics) { pipe_copy_buf_pool_idle = pos 0 };
}

-- HTTPDialerTimeout: `http_dialer` is fasthttpproxy.FasthttpHTTPDialerDualStackTimeout of package
-- fasthttp, called with no proxy address.
unfoldable pub http_dialer_timeout : (ℤ → Str → Result Conn) → ℤ → PoolState → PoolState
http_dialer_timeout http_dialer timeout p = record p {
  dial_timeout = timeout;
  custom_dial = some (http_dialer timeout);
}

-- HTTPDialTimeout
unfoldable pub http_dial_timeout : PoolState → ℤ
http_dial_timeout p = p.dial_timeout

-- TLSConfig; a nil configuration is `none`.
unfoldable pub tls_config : Option TlsConfig → PoolState → PoolState
tls_config cfg p = record p { tls_config = cfg }

pub data Setting : Type 0 where
  set_max set_idle set_buffer set_pipe : ℤ → Setting

unfoldable pub set_one : Setting → PoolState → PoolState
set_one (set_max n) = max_connections_per_host n
set_one (set_idle d) = idle_timeout d
set_one (set_buffer n) = buffer_size n
set_one (set_pipe n) = pipe_copy_buffer_size n

unfoldable pub set_all : List Setting → PoolState → PoolState
set_all [] p = p
set_all (s ∷ ss) p = set_all ss (set_one s p)

-- Every setting is at least the documented minimum.
pub record IsValid (s : Settings) : Type 0 where
  pub some_connections : pos 1 ≤ℤ s.max_upstream_connections_per_host
  pub one_second : pos second ≤ℤ s.idle_timeout
  pub some_buffer : pos 64 ≤ℤ s.default_buf_size
  pub some_pipe : pos 256 ≤ℤ s.pipe_copy_buffer_size

set_one-IsValid :
    (s : Setting) (p : PoolState) → IsValid p.settings → IsValid (set_one s p).settings
unfolding set_one max_connections_per_host idle_timeout buffer_size pipe_copy_buffer_size
set_one-IsValid (set_max n) p v = ground arith
set_one-IsValid (set_idle n) p v = ground arith
set_one-IsValid (set_buffer n) p v = ground arith
set_one-IsValid (set_pipe n) p v = ground arith

-- Whatever values the four checked setters are called with, in whatever order, settings that are at
-- least the documented minimums (1 connection, 1 second, 64 and 256 bytes) stay so.
pub set_all-IsValid :
    (ss : List Setting) (p : PoolState) → IsValid p.settings → IsValid (set_all ss p).settings
unfolding set_all
set_all-IsValid [] p v = v
set_all-IsValid (s ∷ ss) p v = set_all-IsValid ss (set_one s p) (set_one-IsValid s p v)

pub default_settings-IsValid : IsValid default_settings
default_settings-IsValid = omega arith
