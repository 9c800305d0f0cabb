-- ===== src/Pool/Branches.antt =====
-- The branches of AcquireUpstreamConnection and ReleaseUpstreamConnection, each by what it finds.
use fasthttpproxy.Common.{
  ℕ, ◌-◌, true, false, Option, none, some, List, [], ◌∷◌, ◌++◌, ◌≡◌, refl, ap, length, unsnoc,
}
use fasthttpproxy.Common.Int.{pos, leb_ℤ, ltb_ℤ}
use fasthttpproxy.Common.Text.{Str}
use fasthttpproxy.Common.Result.{Error, Result, ok}
use fasthttpproxy.Common.Net.{Conn}
use fasthttpproxy.Pool.State.{PoolState, IdleConn, update_self, store}
use fasthttpproxy.Pool.Dial.{dial, dial_plain}
use fasthttpproxy.Pool.Upstream.{
  close, dial_new, drop_idle, acquire_upstream_connection, release_upstream_connection,
}

-- The three branches of Acquire, by the end of the free list.
pub acquire_empty :
    (fasthttp_dial : Str → Result Conn) (now : ℕ) (e : Option Error) (addr : Str) (p : PoolState)
    → unsnoc (p.upstream_pool addr).free ≡ none
    → acquire_upstream_connection fasthttp_dial now e addr p ≡ dial_new fasthttp_dial p addr
unfolding acquire_upstream_connection
acquire_empty fasthttp_dial now e addr p empty = rw (empty, acquire_upstream_connection) refl

abbrev pub popped : PoolState → Str → List IdleConn → PoolState
popped p addr rest = store p addr (record (p.upstream_pool addr) { free = rest })

pub acquire_fresh :
    (fasthttp_dial : Str → Result Conn) (now : ℕ) (e : Option Error) (addr : Str) (p : PoolState)
    {rest : List IdleConn} {last : IdleConn}
    → unsnoc (p.upstream_pool addr).free ≡ some (rest, last)
    → ltb_ℤ p.settings.idle_timeout (pos (now - last.returned_at)) ≡ false
    → acquire_upstream_connection fasthttp_dial now e addr p ≡ (popped p addr rest, ok last.conn)
unfolding acquire_upstream_connection
acquire_fresh fasthttp_dial now e addr p split fresh =
    rw (split, acquire_upstream_connection) (rw fresh)

pub acquire_stale :
    (fasthttp_dial : Str → Result Conn) (now : ℕ) (e : Option Error) (addr : Str) (p : PoolState)
    {rest : List IdleConn} {last : IdleConn}
    → unsnoc (p.upstream_pool addr).free ≡ some (rest, last)
    → ltb_ℤ p.settings.idle_timeout (pos (now - last.returned_at)) ≡ true
    → acquire_upstream_connection fasthttp_dial now e addr p
      ≡ dial_new fasthttp_dial (drop_idle (popped p addr rest) addr last.conn e) addr
unfolding acquire_upstream_connection
acquire_stale fasthttp_dial now e addr p split stale =
    rw (split, acquire_upstream_connection) (rw stale)

pub release_room :
    (now : ℕ) (e : Option Error) (addr : Str) (c : Conn) (p : PoolState)
    → leb_ℤ p.settings.max_upstream_connections_per_host (pos (length (p.upstream_pool addr).free))
      ≡ false
    → release_upstream_connection now e addr c p
      ≡ popped p addr ((p.upstream_pool addr).free ++ record { conn = c; returned_at = now } ∷ [])
unfolding release_upstream_connection
release_room now e addr c p room = rw room

-- Dialing reads nothing that dropping an idle connection writes.
pub dial-drop_idle :
    (fasthttp_dial : Str → Result Conn) (p : PoolState) (addr : Str) (rest : List IdleConn)
    (c : Conn) (e : Option Error)
    → dial fasthttp_dial (drop_idle (popped p addr rest) addr c e) addr ≡ dial fasthttp_dial p addr
unfolding drop_idle dial dial_plain close
dial-drop_idle fasthttp_dial p addr rest c none = refl
dial-drop_idle fasthttp_dial p addr rest c (some e) = refl

-- Dropping an idle connection takes it alone off the free list.
pub free-drop_idle :
    (p : PoolState) (addr : Str) (rest : List IdleConn) (c : Conn) (e : Option Error)
    → ((drop_idle (popped p addr rest) addr c e).upstream_pool addr).free ≡ rest
unfolding drop_idle close
free-drop_idle p addr rest c none =
    rw update_self (ap (λ cp. cp.free) (update_self p.upstream_pool addr _))
free-drop_idle p addr rest c (some e) =
    rw update_self (ap (λ cp. cp.free) (update_self p.upstream_pool addr _))
