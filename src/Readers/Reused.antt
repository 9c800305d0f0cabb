-- ===== src/Readers/Reused.antt =====
-- A connection that goes back to its pool with an answer half read: readWithLimit of
-- internal/readers/pool_reader.go and AcquireUpstreamConnection of internal/pool/upstream_pool.go.
use fasthttpproxy.Common.{
  ℕ, suc, ◌-◌, ◌≤◌, false, Option, some, List, ◌≡◌, refl, sym, ap, ◌∙◌, arith, length,
}
use fasthttpproxy.Common.Int.{pos, ◌-ℤ◌, ◌≤ℤ◌, leb_ℤ}
use fasthttpproxy.Common.Text.{Str}
use fasthttpproxy.Common.Result.{Error, Result, ok}
use fasthttpproxy.Common.Net.{Conn, Reader}
use fasthttpproxy.Pool.State.{PoolState}
use fasthttpproxy.Pool.Buffers.{release_bufio_reader}
use fasthttpproxy.Pool.Branches.{release_room}
use fasthttpproxy.Pool.Reuse.{acquire-release}
use fasthttpproxy.Pool.Upstream.{acquire_upstream_connection, release_upstream_connection}
use fasthttpproxy.Readers.PoolReader.{
  PoolReader, Call, is_some, release_if, done, limited_buffer, after_read, read,
}
use fasthttpproxy.Readers.Held.{release_if-remain}
use fasthttpproxy.Readers.Limited.{pos_sub, read_some, failed_read_releases}

-- The counters of the buffers are not what Release reads or writes.
release-bufio :
    (now : ℕ) (e : Option Error) (addr : Str) (c : Conn) (p : PoolState)
    → leb_ℤ p.settings.max_upstream_connections_per_host (pos (length (p.upstream_pool addr).free))
      ≡ false
    → release_bufio_reader (release_upstream_connection now e addr c p)
      ≡ release_upstream_connection now e addr c (release_bufio_reader p)
unfolding release_bufio_reader
release-bufio now e addr c p room =
    ap release_bufio_reader (release_room now e addr c p room)
    ∙ sym (release_room now e addr c (release_bufio_reader p) room)

same_pool :
    (p : PoolState)
    → ((release_bufio_reader p).upstream_pool ≡ p.upstream_pool)
      × ((release_bufio_reader p).settings ≡ p.settings)
      × ((release_bufio_reader p).closed ≡ p.closed)
unfolding release_bufio_reader
same_pool p = (refl, refl, refl)

module _ {S : Type 0} (src : Reader S) where
  after_read-remain :
      (c : Call) (b : PoolReader S) (p : PoolState) (bytes : List ℕ) (e : Option Error) (s : S)
      → (after_read src c b p ((bytes, e), s)).1.remain ≡ b.remain -ℤ pos (length bytes)
  unfolding after_read
  after_read-remain c b p bytes e s =
      let left = b.remain -ℤ pos (length bytes) in
      let b' = record b { reader = s; remain = left } in
      let at_limit = release_if (leb_ℤ left (pos 0)) c (b', p) in
      release_if-remain (is_some e) c at_limit ∙ release_if-remain (leb_ℤ left (pos 0)) c (b', p)

  failed_read-remain :
      (c : Call) (b : PoolReader S) (p : PoolState) (m : ℕ) (bytes : List ℕ) (e : Error) (s : S)
      → b.remain ≡ pos (suc m)
      → src.read (limited_buffer c b) b.reader ≡ ((bytes, some e), s)
      → length bytes ≤ m
      → (read src c b p).1.remain ≡ pos (suc (m - length bytes))
  failed_read-remain c b p m bytes e s more failed short =
      ap (λ r. r.1.remain) (read_some src c b p m more ∙ ap (after_read src c b p) failed)
      ∙ after_read-remain c b p bytes (some e) s
      ∙ ap (λ r. r -ℤ pos (length bytes)) more
      ∙ pos_sub (suc m) (length bytes) (omega (arith, short))
      ∙ ap pos (omega (arith, short))

  -- A connection with an answer half read serves the next request. A read of an answer with a
  -- Content-Length that fails, by EOF or otherwise, with bytes still to come, on a connection not given
  -- back and with the callback that handle() sets, where the free list of its address is below the
  -- limit: the error is reported, the bytes to come are still counted, and the next Acquire at the
  -- address, within the idle timeout, returns this same connection. It was never closed, and the free
  -- list and the count are as before the read.
  pub failed_read-reused :
      (fasthttp_dial : Str → Result Conn) (c : Call) (b : PoolReader S) (p : PoolState) (m : ℕ)
      (bytes : List ℕ) (e : Error) (s : S) (later : ℕ) (e' : Option Error)
      → b.remain ≡ pos (suc m)
      → b.returned ≡ false
      → b.on_done ≡ some release_bufio_reader
      → src.read (limited_buffer c b) b.reader ≡ ((bytes, some e), s)
      → length bytes ≤ m
      → leb_ℤ p.settings.max_upstream_connections_per_host
          (pos (length (p.upstream_pool b.upstream_addr).free))
        ≡ false
      → pos (later - c.now) ≤ℤ p.settings.idle_timeout
      → let r = read src c b p in
        let x = acquire_upstream_connection fasthttp_dial later e' b.upstream_addr r.2 in
        (r.0 ≡ (bytes, some e))
        × (r.1.remain ≡ pos (suc (m - length bytes)))
        × (x.1 ≡ ok b.connection)
        × (x.0.closed ≡ p.closed)
        × (x.0.upstream_pool b.upstream_addr ≡ p.upstream_pool b.upstream_addr)
  unfolding release_bufio_reader
  failed_read-reused fasthttp_dial c b p m bytes e s later e' more kept on_done failed short room
        soon =
      let (reading, gone, back) = failed_read_releases src c b p m bytes e s more kept failed in
      let state : (read src c b p).2
          ≡ release_upstream_connection c.now c.close_error b.upstream_addr b.connection
              (release_bufio_reader p) =
        back
        ∙ ap
            (λ d.
              done d
                (release_upstream_connection c.now c.close_error b.upstream_addr b.connection p))
            on_done
        ∙ release-bufio c.now c.close_error b.upstream_addr b.connection p room in
      let (got, pool, closed) =
        acquire-release fasthttp_dial c.close_error e' b.upstream_addr b.connection
          (release_bufio_reader p) c.now later room soon in
      rw state (reading, failed_read-remain c b p m bytes e s more failed short, got, closed, pool)
