-- ===== src/Readers/Chunked.antt =====
-- A PoolReader over an answer with no Content-Length (chunked, or up to the close of the connection).
use fasthttpproxy.Common.{
  ℕ, true, false, Option, none, some, List, [], ◌∷◌, ◌≡◌, refl, ◌∙◌, ◌⊎◌, inl, inr, arith,
}
use fasthttpproxy.Common.Int.{negsuc}
use fasthttpproxy.Common.Text.{Str}
use fasthttpproxy.Common.Result.{Error}
use fasthttpproxy.Common.Net.{Conn, Reader, Reading}
use fasthttpproxy.Pool.State.{PoolState}
use fasthttpproxy.Readers.PoolReader.{
  PoolReader, Call, shut_down, is_some, after_read_until_eof, read, read_all, new_pool_reader,
}

-- Where a reader stands that began as `a` with the pools `p`: its connection is in use and the pools
-- are as they were, or it was closed and dropped in one call, and that is all.
pub record Progress {S : Type 0} (a : PoolReader S) (p : PoolState) (b : PoolReader S)
    (q : PoolState) : Type 0 where
  pub same_remain : b.remain ≡ a.remain
  pub same_addr : b.upstream_addr ≡ a.upstream_addr
  pub same_connection : b.connection ≡ a.connection
  pub same_done : b.on_done ≡ a.on_done
  pub once :
      ((b.returned ≡ false) × (q ≡ p)) ⊎ ((b.returned ≡ true) × (c : Call) × (q ≡ shut_down c a p))

module _ {S : Type 0} (src : Reader S) where
  read_chunked :
      (c : Call) (b : PoolReader S) (q : PoolState) (m : ℕ)
      → b.remain ≡ negsuc m
      → read src c b q ≡ after_read_until_eof src c b q (src.read c.buffer b.reader)
  unfolding read
  read_chunked c b q m h = ground arith

  no_error :
      (c : Call) (b : PoolReader S) (q : PoolState) (bytes : List ℕ) (s : S)
      → after_read_until_eof src c b q ((bytes, none), s)
        ≡ ((bytes, none), record b { reader = s }, q)
  unfolding after_read_until_eof
  no_error c b q bytes s = ground arith

  closed_already :
      (c : Call) (b : PoolReader S) (q : PoolState) (r : Reading) (s : S)
      → b.returned ≡ true
      → after_read_until_eof src c b q (r, s) ≡ (r, record b { reader = s }, q)
  unfolding after_read_until_eof
  closed_already c b q r s h = ground arith

  closes :
      (c : Call) (b : PoolReader S) (q : PoolState) (bytes : List ℕ) (e : Error) (s : S)
      → b.returned ≡ false
      → after_read_until_eof src c b q ((bytes, some e), s)
        ≡ ((bytes, some e), record b { reader = s; returned = true }, shut_down c b q)
  unfolding after_read_until_eof
  closes c b q bytes e s h = ground arith

  reread :
      {a b : PoolReader S} {p q : PoolState} (s : S)
      → Progress a p b q
      → Progress a p (record b { reader = s }) q
  reread s v = record {
    same_remain = v.same_remain;
    same_addr = v.same_addr;
    same_connection = v.same_connection;
    same_done = v.same_done;
    once = v.once;
  }

  after_read-Progress :
      (c : Call) (a b : PoolReader S) (p q : PoolState) (r : Reading × S)
      → Progress a p b q
      → let x = after_read_until_eof src c b q r in
        Progress a p x.1 x.2 × ((is_some r.0.1 ≡ true) → x.1.returned ≡ true)
  after_read-Progress c a b p q ((bytes, none), s) v =
      rw (no_error c b q bytes s) (reread s v, λ h. cc)
  after_read-Progress c a b p q ((bytes, some e), s) v = elim v.once [
    | inl (kept, untouched) ↦
        let closed_now : shut_down c b q ≡ shut_down c a p =
          rw (untouched, v.same_addr, v.same_connection, v.same_done) refl in
        rw (closes c b q bytes e s kept) (
          record {
            same_remain = v.same_remain;
            same_addr = v.same_addr;
            same_connection = v.same_connection;
            same_done = v.same_done;
            once = inr (refl, c, closed_now);
          },
          λ _. refl,
        )
    | inr (gone, _, _) ↦ rw (closed_already c b q (bytes, some e) s gone) (reread s v, λ _. gone)
  ]

  read_all-Progress :
      (cs : List Call) (a b : PoolReader S) (p q : PoolState) (m : ℕ)
      → a.remain ≡ negsuc m
      → Progress a p b q
      → Progress a p (read_all src cs b q).1 (read_all src cs b q).2
  unfolding read_all
  read_all-Progress [] a b p q m h v = v
  read_all-Progress (c ∷ cs) a b p q m h v =
      read_all-Progress cs a (read src c b q).1 p (read src c b q).2 m h (
        rw (read_chunked c b q m (v.same_remain ∙ h))
          (after_read-Progress c a b p q (src.read c.buffer b.reader) v).0)

  -- Any reads of an answer with no Content-Length by a new PoolReader. The connection is in use and
  -- the pools are untouched, or it was closed and dropped once, with the callback after it, and
  -- nothing else happened to the pools; it is never released for reuse.
  pub read_all-chunked :
      (m : ℕ) (cs : List Call) (s : S) (addr : Str) (conn : Conn)
      (cleanup : Option (PoolState → PoolState)) (p : PoolState)
      → let a = new_pool_reader s addr conn (negsuc m) cleanup in
        let r = read_all src cs a p in Progress a p r.1 r.2
  unfolding new_pool_reader
  read_all-chunked m cs s addr conn cleanup p =
      let a = new_pool_reader s addr conn (negsuc m) cleanup in
      read_all-Progress cs a a p p m refl (record {
        same_remain = refl;
        same_addr = refl;
        same_connection = refl;
        same_done = refl;
        once = inl (refl, refl);
      })

  -- The first read that ends the answer, by EOF or another error, closes and drops the connection,
  -- and gives what the wrapped reader gave.
  pub read_ends :
      (c : Call) (b : PoolReader S) (q : PoolState) (m : ℕ) (bytes : List ℕ) (e : Error) (s : S)
      → b.remain ≡ negsuc m
      → b.returned ≡ false
      → src.read c.buffer b.reader ≡ ((bytes, some e), s)
      → read src c b q
        ≡ ((bytes, some e), record b { reader = s; returned = true }, shut_down c b q)
  read_ends c b q m bytes e s chunked kept ended =
      read_chunked c b q m chunked ∙ rw ended (closes c b q bytes e s kept)
