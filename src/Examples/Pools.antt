-- ===== src/Examples/Pools.antt =====
-- The connection pools at concrete inputs.
use fasthttpproxy.Common.{
  length, true, false, ◌+◌, ◌-◌, ◌⊎◌, inr, some, none, List, [], ◌∷◌, ◌++◌, ◌≡◌, refl, arith,
}
use fasthttpproxy.Common.Int.{pos, ◌≤ℤ◌}
use fasthttpproxy.Common.Text.{Str, codes}
use fasthttpproxy.Common.Result.{Result, ok}
use fasthttpproxy.Common.Net.{Conn, TlsConfig, empty_tls_config}
use fasthttpproxy.Pool.State.{PoolState, IdleConn, initial, second}
use fasthttpproxy.Pool.Settings.{max_connections_per_host}
use fasthttpproxy.Pool.Dial.{OverTls, dial, dial_plain, dial-scheme}
use fasthttpproxy.Pool.Upstream.{acquire_upstream_connection, release_upstream_connection}
use fasthttpproxy.Pool.Conservation.{Holds}
use fasthttpproxy.Pool.Leases.{
  System, Reach, acquires, here, next, Inv, start, Reach-Inv, take_lease,
}
use fasthttpproxy.Pool.Semaphore.{Clients, Op, acquire, release, calls, spec_calls}
use fasthttpproxy.Pool.Semaphore.Refinement.{calls-semaphore}
use fasthttpproxy.Pool.Reuse.{acquire-release, acquire-provenance}
use fasthttpproxy.Config.Prefix.{prefix_http, prefix_https}

abbrev wire : Conn
wire = record { id = 7; tls = none }

abbrev dialer : Str → Result Conn
dialer addr = ok wire

abbrev host : Str
host = codes "a:80"

-- The configuration under which the upstream is dialed over TLS.
abbrev secured : PoolState
secured = record initial { tls_config = some (record empty_tls_config { server_name = host }) }

dial-scheme_example :
    (dial dialer secured (prefix_http ++ host) ≡ dialer host)
    × (((secured.tls_config ≡ none) × (dial dialer secured (prefix_https ++ host) ≡ dialer host))
        ⊎ ((cfg : TlsConfig) × (secured.tls_config ≡ some cfg)
            × OverTls cfg (dialer host) (dial dialer secured (prefix_https ++ host))))
dial-scheme_example = dial-scheme dialer secured dialer host (inr (refl, refl))

-- One connection acquired and released.
abbrev acquired : System
acquired = take_lease (start 2) host (acquire_upstream_connection dialer 5 none host (start 2).pool)

acquired_once : Reach (start 2) acquired
acquired_once = next here (acquires dialer 5 none host)

Reach-Inv_example : Inv 2 acquired
Reach-Inv_example = Reach-Inv (omega arith) (omega arith) acquired_once

-- A state with one lease at `host`.
abbrev leased : System
leased = record {
  pool = record initial { upstream_pool = λ _. record { free = []; count = pos 1 } };
  leased = λ _. wire ∷ [];
}

acquire-release_example :
    let r =
      acquire_upstream_connection dialer
        (9 + second)
        none
        host
        (release_upstream_connection 9 none host wire leased.pool) in
    (r.1 ≡ ok wire) × (r.0.upstream_pool host ≡ leased.pool.upstream_pool host) × (r.0.closed ≡ [])
acquire-release_example =
    acquire-release dialer none none host wire leased.pool 9 (9 + second) refl (omega arith)

-- A pool with one idle connection, which came back at the time 9.
abbrev idle : PoolState
idle = record initial {
  upstream_pool =
      λ _. record { free = record { conn = wire; returned_at = 9 } ∷ []; count = pos 1 };
}

acquire-provenance_example :
    (dial dialer idle host ≡ ok wire)
    ⊎ ((rest : List IdleConn) × (last : IdleConn) × ((idle.upstream_pool host).free
          ≡ rest ++ last ∷ [])
        × (last.conn ≡ wire)
        × (pos (10 - last.returned_at) ≤ℤ idle.settings.idle_timeout)
        × ((acquire_upstream_connection dialer 10 none host idle).0.closed ≡ idle.closed))
unfolding acquire_upstream_connection
acquire-provenance_example =
    acquire-provenance dialer 10 none host idle
      (acquire_upstream_connection dialer 10 none host idle).0 wire refl

-- One connection held of two, then three calls of Acquire and one of Release.
abbrev one_held : Clients
one_held = record {
  pool = record ((start 2).pool) { upstream_pool = λ _. record { free = []; count = pos 1 } };
  held = wire ∷ [];
}

one_held-Holds : Holds 2 1 host one_held.pool
unfolding max_connections_per_host
one_held-Holds = record {
  is_limit = refl;
  fits = omega arith;
  counted = refl;
  bounded = omega arith;
}

abbrev four_calls : List Op
four_calls = acquire 5 none ∷ acquire 6 none ∷ release 7 none ∷ acquire 8 none ∷ []

calls-semaphore_example :
    let r = calls dialer host four_calls one_held in
    let x = spec_calls 2 four_calls 1 in (r.0 ≡ x.0) × (length r.1.held ≡ x.1)
unfolding max_connections_per_host dial_plain
calls-semaphore_example =
    calls-semaphore dialer host 2 four_calls one_held one_held-Holds (λ a. (wire, refl))

four_results : (spec_calls 2 four_calls 1).0 ≡ true ∷ false ∷ true ∷ true ∷ []
unfolding spec_calls
four_results = refl
