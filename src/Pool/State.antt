-- ===== src/Pool/State.antt =====
-- The variables of package internal/pool (pool.go, upstream_pool.go, dial.go, bufio_pool.go).
use fasthttpproxy.Common.{ℕ, ◌*◌, Option, none, List, [], if◌then◌else◌, ◌≡◌, arith, ◌≢◌}
use fasthttpproxy.Common.Int.{ℤ, pos}
use fasthttpproxy.Common.Text.{Str, str_eq, str_eq_iff, str_eq_refl}
use fasthttpproxy.Common.Result.{Result}
use fasthttpproxy.Common.Net.{Conn, TlsConfig}
use fasthttpproxy.Metrics.{Metrics, no_metrics}

-- Times and durations are nanoseconds; a connection's time is that of its return to the pool.
pub record IdleConn : Type 0 where
  pub conn : Conn
  pub returned_at : ℕ

-- `free` in the order of the slice: connections are appended and taken at its end. `count` is an
-- int32, whose wrap-around the operations write out.
pub record ConnPool : Type 0 where
  pub free : List IdleConn
  pub count : ℤ

-- &connPool{}
abbrev pub empty_conn_pool : ConnPool
empty_conn_pool = record { free = []; count = pos 0 }

pub record Settings : Type 0 where
  pub max_upstream_connections_per_host : ℤ
  pub idle_timeout : ℤ
  pub default_buf_size : ℤ
  pub pipe_copy_buffer_size : ℤ

abbrev pub second : ℕ
second = 1_000_000_000

-- The values that the variables are declared with.
abbrev pub default_settings : Settings
default_settings = record {
  max_upstream_connections_per_host = pos 100;
  idle_timeout = pos (45 * second);
  default_buf_size = pos 4096;
  pipe_copy_buffer_size = pos (64 * 1024);
}

-- The atomic.Int64 counters of the buffer pools.
pub record Counters : Type 0 where
  pub reader_in_use : ℤ
  pub reader_idle : ℤ
  pub writer_in_use : ℤ
  pub writer_idle : ℤ
  pub pipe_in_use : ℤ
  pub pipe_idle : ℤ

-- `upstream_pool` is the map with the pool that LoadOrStore stores under an absent key.
-- `closed` is the effect on the network: the connections on which Close was called, newest first.
pub record PoolState : Type 0 where
  pub settings : Settings
  pub upstream_pool : Str → ConnPool
  pub counters : Counters
  pub custom_dial : Option (Str → Result Conn)
  pub tls_config : Option TlsConfig
  pub dial_timeout : ℤ
  pub metrics : Metrics
  pub closed : List Conn

abbrev pub initial : PoolState
initial = record {
  settings = default_settings;
  upstream_pool = λ _. empty_conn_pool;
  counters = record {
    reader_in_use = pos 0;
    reader_idle = pos 0;
    writer_in_use = pos 0;
    writer_idle = pos 0;
    pipe_in_use = pos 0;
    pipe_idle = pos 0;
  };
  custom_dial = none;
  tls_config = none;
  dial_timeout = pos 0;
  metrics = no_metrics;
  closed = [];
}

unfoldable pub update {ℓ} : {A : Type ℓ} → (Str → A) → Str → A → Str → A
update f a v b = if str_eq a b then v else f b

pub update_self {ℓ} : {A : Type ℓ} (f : Str → A) (a : Str) (v : A) → update f a v a ≡ v
unfolding update
update_self f a v = ground (arith, str_eq_refl a)

pub update_ne {ℓ} :
    {A : Type ℓ} (f : Str → A) (a : Str) (v : A) (b : Str) → a ≢ b → update f a v b ≡ f b
unfolding update
update_ne f a v b h = ground (arith, str_eq_iff a b)

-- A write to the pool of one address.
abbrev pub store : PoolState → Str → ConnPool → PoolState
store p addr cp = record p { upstream_pool = update p.upstream_pool addr cp }
