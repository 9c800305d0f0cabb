-- ===== src/Pool/TestHelpers.antt =====
-- internal/pool/pool_test_helpers.go: setters for tests, each with the function that restores.
use fasthttpproxy.Common.{Option, ◌≡◌, refl}
use fasthttpproxy.Common.Int.{ℤ}
use fasthttpproxy.Common.Text.{Str}
use fasthttpproxy.Common.Result.{Result}
use fasthttpproxy.Common.Net.{Conn}
use fasthttpproxy.Pool.State.{PoolState}

-- SetMaxUpstreamConnectionsForTest
unfoldable pub set_max_upstream_connections_for_test :
    ℤ → PoolState → PoolState × (PoolState → PoolState)
set_max_upstream_connections_for_test n p =
    let old = p.settings.max_upstream_connections_per_host in
    (
      record p { settings = record (p.settings) { max_upstream_connections_per_host = n } },
      λ q. record q { settings = record (q.settings) { max_upstream_connections_per_host = old } },
    )

-- SetIdleTimeoutForTest
unfoldable pub set_idle_timeout_for_test : ℤ → PoolState → PoolState × (PoolState → PoolState)
set_idle_timeout_for_test d p =
    let old = p.settings.idle_timeout in
    (
      record p { settings = record (p.settings) { idle_timeout = d } },
      λ q. record q { settings = record (q.settings) { idle_timeout = old } },
    )

-- SetCustomDialForTest
unfoldable pub set_custom_dial_for_test :
    Option (Str → Result Conn) → PoolState → PoolState × (PoolState → PoolState)
set_custom_dial_for_test fn p =
    let old = p.custom_dial in (record p { custom_dial = fn }, λ q. record q { custom_dial = old })

-- Whatever the tests do between the three setters and the three restoring functions, if these run in
-- the reverse order the settings and the dialer that the setters replaced are back, and the other
-- settings are those that the tests left.
pub restored :
    (n d : ℤ) (fn : Option (Str → Result Conn)) (p : PoolState) (tests : PoolState → PoolState)
    → let (p₁, undo_max) = set_max_upstream_connections_for_test n p in
      let (p₂, undo_idle) = set_idle_timeout_for_test d p₁ in
      let (p₃, undo_dial) = set_custom_dial_for_test fn p₂ in
      let q = undo_max (undo_idle (undo_dial (tests p₃))) in
      (q.settings.max_upstream_connections_per_host ≡ p.settings.max_upstream_connections_per_host)
      × (q.settings.idle_timeout ≡ p.settings.idle_timeout)
      × (q.custom_dial ≡ p.custom_dial)
      × (q.settings.default_buf_size ≡ (tests p₃).settings.default_buf_size)
unfolding set_max_upstream_connections_for_test set_idle_timeout_for_test set_custom_dial_for_test
restored n d fn p tests = (refl, refl, refl, refl)
